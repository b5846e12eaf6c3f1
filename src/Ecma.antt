-- ===== src/Ecma.antt =====
-- ecma130.go: scrambling, EDC, ECC and the classifier of bin sectors.
-- A sector is the list of its 2352 bytes. The SHA-256 pins of the tables are not modelled.
mod Scramble
mod Edc
mod Ecc
mod Classify
pub mod Lengths
pub mod Descramble
pub mod Check
unfoldable pub use Scramble.{lfsr_bit, lfsr_byte, keystream, scramble_table, xor_bytes, scramble}
unfoldable pub use Edc.{
  edc_poly, edc_shift, edc_entry, edc_entries, edc_table, edc_update, crc_bytes, compute_edc,
}
pub use Ecc.{GfTables}
unfoldable pub use Ecc.{
  gf_step, build_gf_tables, gf_tables, gf_exp, gf_log, gf_mul, gf_inv3, syndromes, parity, p_column,
  q_diagonal, rounds, rspc_parity, deinterleave, interleave, compute_ecc,
}
unfoldable pub use Classify.{is_zeroed, classify_bin_sector}
