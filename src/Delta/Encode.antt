-- ===== src/Delta/Encode.antt =====
-- `EncodeDelta` and `ApplyDelta` together.
use mathlib.Core.List.{append_assoc, append-nil}
use miniscram.Common.{
  ℕ, zero, suc, ◌+◌, ◌-◌, ◌*◌, ◌/◌, ◌^◌, ◌≤◌, ◌<◌, ◌≡◌, refl, ap, ◌∙◌, arith, min, List, [], ◌++◌,
  length, take, drop, length-append, length-take, length-drop, take_add, ltb, read_full-le, ok,
  lt→ltb, le→ltb, if◌then◌else◌,
}
use miniscram.Delta.Compare.{Scan, scan_start, flush, scan_bytes}
use miniscram.Delta.Wire.{
  new_delta_encoder, append_all, close, chunk, encode_loop, encode_delta, apply_delta,
}
use miniscram.Delta.Tracking.{
  IsTracking, IsSettled, scan_bytes-IsTracking, flush-IsSettled, scan_start-IsTracking,
}
use miniscram.Delta.RoundTrip.{encoded, apply_delta-append_all, FitsIn→IsWritable}

-- The records of a settled comparison rebuild the real bytes from the predicted ones.
pub encoded-IsSettled :
    (hat scram : List ℕ) (st : Scan)
    → length hat ≤ 2 ^ 30
    → IsSettled hat scram st
    → apply_delta hat (encoded st.records) ≡ ok scram
encoded-IsSettled hat scram st h settled =
    apply_delta-append_all st.records hat (FitsIn→IsWritable st.records (length hat) h settled.fits)
      (omega (arith, settled.few))
    ∙ ap ok settled.patched

-- One chunk: `want` bytes of each stream are read and compared.
encode_loop_round :
    (fuel size pos want : ℕ) (hat scram : List ℕ) (st : Scan)
    → pos < size
    → want ≡ (if ltb size (pos + chunk) then size - pos else chunk)
    → want ≤ length hat
    → want ≤ length scram
    → encode_loop (suc fuel) size pos hat scram st
      ≡ encode_loop fuel size
          (pos + want)
          (drop want hat)
          (drop want scram)
          (scan_bytes pos (take want hat) (take want scram) st)
unfolding encode_loop
encode_loop_round fuel size pos want hat scram st more e h k =
    rw (lt→ltb pos size more, encode_loop)
      (rw (← e, read_full-le want hat h, read_full-le want scram k))

encode_loop-IsTracking :
    (fuel size pos left : ℕ) (hat0 scram0 hat scram : List ℕ) (st : Scan)
    → pos + left ≡ size
    → left ≤ fuel * chunk
    → left ≤ length hat
    → left ≤ length scram
    → length hat0 ≡ pos
    → IsTracking hat0 scram0 st
    → (st' : Scan) × (encode_loop fuel size pos hat scram st ≡ ok st')
      × IsTracking (hat0 ++ take left hat) (scram0 ++ take left scram) st'
unfolding encode_loop
encode_loop-IsTracking zero size pos left hat0 scram0 hat scram st e f h k p t =
    let done : left ≡ 0 = omega arith in
    (st, rw (le→ltb pos size (omega arith)), rw (done, append-nil hat0, append-nil scram0) t)
encode_loop-IsTracking (suc fuel) size pos zero hat0 scram0 hat scram st e f h k p t =
    (st, rw (le→ltb pos size (omega arith), encode_loop), rw (append-nil hat0, append-nil scram0) t)
encode_loop-IsTracking (suc fuel) size pos (suc left) hat0 scram0 hat scram st e f h k p t =
    let want : ℕ = min chunk (suc left) in
    let test : want ≡ (if ltb size (pos + chunk) then size - pos else chunk) = ground arith in
    let within : want + (suc left - want) ≡ suc left = omega arith in
    let (st', runs, done) =
      encode_loop-IsTracking fuel size (pos + want) (suc left - want) (hat0 ++ take want hat)
        (scram0 ++ take want scram) (drop want hat) (drop want scram)
        (scan_bytes pos (take want hat) (take want scram) st) (omega arith) (omega arith)
        (omega (arith, length-drop want hat)) (omega (arith, length-drop want scram))
        (omega (arith, length-append hat0 (take want hat), length-take want hat))
        (scan_bytes-IsTracking (take want hat) (take want scram) pos hat0 scram0 st
          (omega (arith, length-take want hat, length-take want scram)) p t) in
    (
      st',
      encode_loop_round fuel size pos want hat scram st (omega arith) test (omega arith)
            (omega arith)
          ∙ runs,
      regroup want (suc left - want) (suc left) within done,
    )
  where
    regroup :
        (m n total : ℕ)
        → m + n ≡ total
        → {st' : Scan}
        → IsTracking
            ((hat0 ++ take m hat) ++ take n (drop m hat))
            ((scram0 ++ take m scram) ++ take n (drop m scram))
            st'
        → IsTracking (hat0 ++ take total hat) (scram0 ++ take total scram) st'
    regroup m n total q =
        rw
          (
            ← q,
            ← take_add m n hat,
            ← take_add m n scram,
            ← append_assoc hat0 (take m hat) (take n (drop m hat)),
            ← append_assoc scram0 (take m scram) (take n (drop m scram)),
          )
          (λ d. d)

-- `EncodeDelta` succeeds whenever both streams hold `size` bytes (at most 1 GiB), and
-- `ApplyDelta` of what it writes turns the first stream's bytes into the second's.
pub encode_delta_round_trip :
    (hat scram : List ℕ) (size : ℕ)
    → size ≤ length hat
    → size ≤ length scram
    → size ≤ 2 ^ 30
    → (d : List ℕ × ℕ) × (encode_delta hat scram size ≡ ok d)
      × (apply_delta (take size hat) d.0 ≡ ok (take size scram))
unfolding encode_delta
encode_delta_round_trip hat scram size h k small =
    let (st, runs, t) =
      encode_loop-IsTracking (size / chunk + 1) size 0 size [] [] hat scram scan_start (omega arith)
        (omega arith) h k refl (scan_start-IsTracking []) in
    (
      close (append_all new_delta_encoder (flush st).records),
      rw runs,
      encoded-IsSettled (take size hat) (take size scram) (flush st)
          (omega (arith, length-take size hat))
          (flush-IsSettled (take size hat) (take size scram) st t),
    )
