-- ===== src/Delta/Wire.antt =====
-- delta.go: the encoder, the two readers of the wire format, and `EncodeDelta`.
-- Wire format, big-endian: u32 count, then for each record u64 offset, u32 length, the bytes.
use miniscram.Common.{
  ℕ, zero, suc, ◌+◌, ◌-◌, ◌/◌, ◌%◌, ◌^◌, true, false, ◌||◌, not, Option, none, some, List, [], ◌∷◌,
  ◌++◌, ltb, ◌==◌, if◌then◌else◌, length, take, drop, replicate, put_be, get_be, read_full, Result,
  ok, err, ◌>>=◌, guard, or_err,
}
use miniscram.Delta.Compare.{Scan, scan_start, flush, scan_bytes}

abbrev pub max_delta_record_length : ℕ
max_delta_record_length = 2 ^ 30

-- The state of `DeltaEncoder` before `Close`.
pub record DeltaEncoder : Type 0 where
  pub body : List ℕ
  pub count : ℕ

abbrev pub new_delta_encoder : DeltaEncoder
new_delta_encoder = record { body = []; count = 0 }

-- `Append`: the offset goes through uint64, the length through uint32, the count is a uint32.
unfoldable pub append : DeltaEncoder → ℕ → List ℕ → DeltaEncoder
append e off [] = e
append e off (b ∷ run) =
    let run' = b ∷ run in
    record {
      body = e.body ++ (put_be 8 (off % 2 ^ 64) ++ (put_be 4 (length run' % 2 ^ 32) ++ run'));
      count = (e.count + 1) % 2 ^ 32;
    }

-- The calls of `Append` that a comparison makes, in order.
unfoldable pub append_all : DeltaEncoder → List (ℕ × List ℕ) → DeltaEncoder
append_all e [] = e
append_all e ((off, run) ∷ rs) = append_all (append e off run) rs

-- `Close`: what is written to `out`, and the count that is returned.
unfoldable pub close : DeltaEncoder → List ℕ × ℕ
close e = (put_be 4 e.count ++ e.body, e.count)

-- The errors name the record by its index, as the messages do. `out_of_rounds` is no Go error:
-- the loop of `encode_delta` would have used up its fuel.
pub data DeltaError : Type 0 where
  count_short : DeltaError
  header_short : ℕ → DeltaError
  implausible : ℕ → ℕ → DeltaError
  payload_short : ℕ → DeltaError
  negative_offset : ℕ → DeltaError
  hat_short : ℕ → DeltaError
  scram_short : ℕ → DeltaError
  out_of_rounds : DeltaError

abbrev pub chunk : ℕ
chunk = 2 ^ 20

-- One round for each chunk of the `size` bytes; the last chunk is cut at the end.
unfoldable pub encode_loop : ℕ → ℕ → ℕ → List ℕ → List ℕ → Scan → Result DeltaError Scan
encode_loop zero size pos hat scram st = if ltb pos size then err out_of_rounds else ok st
encode_loop (suc fuel) size pos hat scram st = elim (ltb pos size) [
  | false ↦ ok st
  | true ↦ do
    let want = if ltb size (pos + chunk) then size - pos else chunk
    (hat_buf, hat') ← or_err (read_full want hat) (hat_short pos)
    (scr_buf, scram') ← or_err (read_full want scram) (scram_short pos)
    encode_loop fuel size (pos + want) hat' scram' (scan_bytes pos hat_buf scr_buf st)
]

-- `EncodeDelta`: the bytes written to `out` and the record count.
unfoldable pub encode_delta : List ℕ → List ℕ → ℕ → Result DeltaError (List ℕ × ℕ)
encode_delta hat scram size = do
  st ← encode_loop (size / chunk + 1) size 0 hat scram scan_start
  ok (close (append_all new_delta_encoder (flush st).records))

-- `os.File.WriteAt`: bytes past the end of the file are added, a gap reads as zeros.
unfoldable pub write_at : List ℕ → ℕ → List ℕ → List ℕ
write_at out off payload =
    (take off out ++ replicate (off - length out) 0) ++ (payload ++ drop (off + length payload) out)

-- The loop of `ApplyDelta`: `left` records are still to be read, the next has the index `i`.
-- An offset from 2^63 on is a negative int64, which `WriteAt` refuses.
unfoldable pub apply_loop : ℕ → ℕ → List ℕ → List ℕ → Result DeltaError (List ℕ)
apply_loop zero i out delta = ok out
apply_loop (suc left) i out delta = do
  (rec, rest) ← or_err (read_full 12 delta) (header_short i)
  let offset = get_be (take 8 rec)
  let len = get_be (drop 8 rec)
  _ ← guard (not (len == 0 || ltb max_delta_record_length len)) (implausible i len)
  (payload, rest') ← or_err (read_full len rest) (payload_short i)
  _ ← guard (ltb offset (2 ^ 63)) (negative_offset i)
  apply_loop left (i + 1) (write_at out offset payload) rest'

-- `ApplyDelta`: the file after all records, or the first error.
unfoldable pub apply_delta : List ℕ → List ℕ → Result DeltaError (List ℕ)
apply_delta out delta = do
  (hdr, rest) ← or_err (read_full 4 delta) count_short
  apply_loop (get_be hdr) 0 out rest

-- What the loop of `ApplyDelta` has made of the file when it returns, with an error or without:
-- the payload of every record before the first bad one is written.
unfoldable pub apply_left_loop : ℕ → List ℕ → List ℕ → List ℕ
apply_left_loop zero out delta = out
apply_left_loop (suc left) out delta = elim (read_full 12 delta) [
  | none ↦ out
  | some (rec, rest) ↦
      let offset = get_be (take 8 rec) in
      let len = get_be (drop 8 rec) in
      elim (len == 0 || ltb max_delta_record_length len) [
        | true ↦ out
        | false ↦ elim (read_full len rest) [
          | none ↦ out
          | some (payload, rest') ↦ elim (ltb offset (2 ^ 63)) [
            | false ↦ out
            | true ↦ apply_left_loop left (write_at out offset payload) rest'
          ]
        ]
      ]
]

-- The file after `ApplyDelta`, whatever it returns.
unfoldable pub apply_left : List ℕ → List ℕ → List ℕ
unfolding apply_left_loop
apply_left out delta = elim (read_full 4 delta) [
  | none ↦ out
  | some (hdr, rest) ↦ apply_left_loop (get_be hdr) out rest
]

-- What stops `IterateDeltaRecords`: a malformed record, or the callback's own error.
pub data IterError (E : Type 0) : Type 0 where
  too_short : IterError E
  header_truncated : ℕ → IterError E
  implausible_length : ℕ → ℕ → IterError E
  payload_truncated : ℕ → IterError E
  callback : E → IterError E

-- `fn` is the callback: its state, and its error if it returns one. `rest` is `delta[pos:]`.
-- The result is the callback's state, the index returned, and the error.
module _ {E S : Type 0} (fn : S → ℕ → ℕ → S × Option E) where
  unfoldable pub iterate_loop : ℕ → ℕ → S → List ℕ → S × ℕ × Option (IterError E)
  iterate_loop zero i s rest = (s, i, none)
  iterate_loop (suc left) i s rest = elim (ltb (length rest) 12) [
    | true ↦ (s, i, some (header_truncated i))
    | false ↦
        let off = get_be (take 8 rest) in
        let len = get_be (take 4 (drop 8 rest)) in
        let body = drop 12 rest in
        elim (len == 0 || ltb max_delta_record_length len) [
          | true ↦ (s, i, some (implausible_length i len))
          | false ↦ elim (ltb (length body) len) [
            | true ↦ (s, i, some (payload_truncated i))
            | false ↦
                let (s', e?) = fn s off len in
                elim e? [
                  | some e ↦ (s', i, some (callback e))
                  | none ↦ iterate_loop left (i + 1) s' (drop len body)
                ]
          ]
        ]
  ]

  -- `IterateDeltaRecords`.
  unfoldable pub iterate_delta_records : List ℕ → S → S × ℕ × Option (IterError E)
  iterate_delta_records delta s = elim (ltb (length delta) 4) [
    | true ↦ (s, 0, some too_short)
    | false ↦ iterate_loop (get_be (take 4 delta)) 0 s (drop 4 delta)
  ]
