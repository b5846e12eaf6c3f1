-- ===== src/Delta.antt =====
-- delta.go: the override records between a predicted image and the real one.
-- A byte slice is a list of numbers below 256; a file open for writing is the list of its bytes.
-- Writers (`io.Writer`, `io.WriterAt`) do not fail by themselves in this model.
mod Compare
mod Wire
pub mod Patch
pub mod Tracking
pub mod RoundTrip
pub mod Encode
pub mod Readers
pub mod Left
pub use Compare.{Scan}
unfoldable pub use Compare.{scan_start, scan_differ, emit_run, flush, scan_byte, scan_bytes}
pub use Wire.{
  DeltaEncoder, DeltaError, count_short, header_short, implausible, payload_short, negative_offset,
  hat_short, scram_short, out_of_rounds, IterError, too_short, header_truncated, implausible_length,
  payload_truncated, callback,
}
unfoldable pub use Wire.{
  max_delta_record_length, new_delta_encoder, append, append_all, close, write_at, chunk,
  encode_loop, encode_delta, apply_loop, apply_delta, apply_left_loop, apply_left, iterate_loop,
  iterate_delta_records,
}
