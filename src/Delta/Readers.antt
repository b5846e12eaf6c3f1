-- ===== src/Delta/Readers.antt =====
-- `ApplyDelta` and `IterateDeltaRecords` on the same bytes, well formed or not.
use mathlib.Core.List.{append-nil, append_assoc}
use miniscram.Common.{
  ℕ, zero, suc, ◌+◌, ◌^◌, ◌<◌, ◌≡◌, refl, ◌∙◌, arith, Bool, true, false, Option, none, some, List,
  [], ◌∷◌, ◌++◌, map, length, All, take, drop, take-take, drop-take, drop_append, ltb, get_be,
  get_be-put_be, length-append, Result, ok, err, if◌then◌else◌,
}
use miniscram.Delta.Wire.{
  write_at, apply_loop, apply_delta, iterate_loop, iterate_delta_records, append_all,
  new_delta_encoder, close,
}
use miniscram.Delta.RoundTrip.{IsWritable, encoded-wire, wire, record_header}

abbrev pub is_ok : {E A : Type 0} → Result E A → Bool
is_ok (ok a) = true
is_ok (err e) = false

abbrev pub is_none : {A : Type 0} → Option A → Bool
is_none none = true
is_none (some a) = false

-- A callback that refuses the offsets which are no int64.
abbrev pub check_offset : Unit {0} → ℕ → ℕ → Unit {0} × Option (Unit {0})
check_offset s off len = (s, if ltb off (2 ^ 63) then none else some tt)

-- A callback that lists what it is called with.
abbrev pub visit : List (ℕ × ℕ) → ℕ → ℕ → List (ℕ × ℕ) × Option (Unit {0})
visit seen off len = (seen ++ ((off, len) ∷ []), none)

apply_loop-iterate_loop :
    (left i : ℕ) (out rest : List ℕ)
    → is_ok (apply_loop left i out rest) ≡ is_none (iterate_loop check_offset left i tt rest).2
unfolding apply_loop iterate_loop
apply_loop-iterate_loop zero i out rest = refl
apply_loop-iterate_loop (suc left) i out rest = ground (
  arith,
  take-take 8 12 rest,
  drop-take 8 4 rest,
  apply_loop-iterate_loop left (i + 1)
      (write_at out (get_be (take 8 rest)) (take (get_be (take 4 (drop 8 rest))) (drop 12 rest)))
      (drop (get_be (take 4 (drop 8 rest))) (drop 12 rest)),
)

-- On any bytes and any file, `ApplyDelta` succeeds exactly when `IterateDeltaRecords`, with a
-- callback that refuses offsets from 2^63 on, reports no error.
pub apply_delta-iterate_delta_records :
    (out delta : List ℕ)
    → is_ok (apply_delta out delta) ≡ is_none (iterate_delta_records check_offset delta tt).2
unfolding apply_delta iterate_delta_records
apply_delta-iterate_delta_records out delta =
    ground (arith, apply_loop-iterate_loop (get_be (take 4 delta)) 0 out (drop 4 delta))

abbrev pub shape : ℕ × List ℕ → ℕ × ℕ
shape r = (r.0, length r.1)

iterate_round :
    (left i off : ℕ) (p rest : List ℕ) (seen : List (ℕ × ℕ))
    → IsWritable (off, p)
    → iterate_loop visit (suc left) i seen (record_header off p ++ (p ++ rest))
      ≡ iterate_loop visit left (i + 1) (seen ++ ((off, length p) ∷ [])) rest
unfolding iterate_loop
iterate_round left i off p rest seen h = ground (
  arith,
  get_be-put_be 8 off,
  get_be-put_be 4 (length p),
  length-append p rest,
  drop_append p rest,
)

iterate_loop-wire :
    (rs : List (ℕ × List ℕ)) (i : ℕ) (seen : List (ℕ × ℕ))
    → All IsWritable rs
    → iterate_loop visit (length rs) i seen (wire rs) ≡ (seen ++ map shape rs, i + length rs, none)
iterate_loop-wire [] i seen h = unfold iterate_loop in ground (arith, append-nil seen)
iterate_loop-wire ((off, p) ∷ rs) i seen h =
    iterate_round (length rs) i off p (wire rs) seen h.0
    ∙ iterate_loop-wire rs (i + 1) (seen ++ ((off, length p) ∷ [])) h.1
    ∙ ground (arith, append_assoc seen ((off, length p) ∷ []) (map shape rs))

-- On the encoder's output `IterateDeltaRecords` calls its callback with the offset and the
-- length of each record, in order, and returns their number without an error.
pub iterate_delta_records-append_all :
    (rs : List (ℕ × List ℕ))
    → All IsWritable rs
    → length rs < 2 ^ 32
    → iterate_delta_records visit (close (append_all new_delta_encoder rs)).0 []
      ≡ (map shape rs, length rs, none)
unfolding iterate_delta_records
iterate_delta_records-append_all rs h c =
    rw (encoded-wire rs h c)
      (ground (arith, get_be-put_be 4 (length rs), iterate_loop-wire rs 0 [] h))
