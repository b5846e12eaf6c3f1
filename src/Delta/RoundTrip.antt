-- ===== src/Delta/RoundTrip.antt =====
-- What the encoder writes, the two readers read back.
use mathlib.Core.List.{append_assoc, append-nil}
use miniscram.Common.{
  ℕ, suc, ◌+◌, ◌%◌, ◌^◌, ◌≤◌, ◌<◌, ◌≡◌, refl, sym, ap, ◌∙◌, arith, List, [], ◌∷◌, ◌++◌, length, All,
  put_be, get_be-put_be, read_full-append, ok,
}
use miniscram.Delta.Wire.{
  DeltaEncoder, new_delta_encoder, append, append_all, close, write_at, apply_loop, apply_delta,
}
use miniscram.Delta.Patch.{patch, FitsIn}

abbrev pub record_header : ℕ → List ℕ → List ℕ
record_header off p = put_be 8 off ++ put_be 4 (length p)

-- The records on the wire, without the count.
abbrev pub wire : List (ℕ × List ℕ) → List ℕ
wire [] = []
wire ((off, p) ∷ rs) = record_header off p ++ (p ++ wire rs)

-- A record that `apply_delta` accepts.
abbrev pub IsWritable : ℕ × List ℕ → Type 0
IsWritable r = (0 < length r.1) × (length r.1 ≤ 2 ^ 30) × (r.0 < 2 ^ 63)

append_writable :
    (e : DeltaEncoder) (off : ℕ) (p : List ℕ)
    → IsWritable (off, p)
    → append e off p
      ≡ record { body = e.body ++ (record_header off p ++ p); count = (e.count + 1) % 2 ^ 32 }
unfolding append
append_writable e off [] h = absurd (omega arith)
append_writable e off (b ∷ p) h =
    let o : off % 2 ^ 64 ≡ off = omega arith in
    let l : suc (length p) % 2 ^ 32 ≡ suc (length p) = omega arith in rw (o, l)

encoder_eq :
    {b b' : List ℕ} {c c' : ℕ}
    → b ≡ b'
    → c ≡ c'
    → record { body = b; count = c }
      ≡ (let e : DeltaEncoder = record { body = b'; count = c' } in e)
encoder_eq p q = λ i. record { body = p i; count = q i }

append_all-wire :
    (rs : List (ℕ × List ℕ)) (e : DeltaEncoder)
    → All IsWritable rs
    → e.count + length rs < 2 ^ 32
    → append_all e rs ≡ record { body = e.body ++ wire rs; count = e.count + length rs }
unfolding append_all
append_all-wire [] e h c = encoder_eq (sym (append-nil e.body)) (omega arith)
append_all-wire ((off, p) ∷ rs) e h c =
    let next : DeltaEncoder = record {
      body = e.body ++ (record_header off p ++ p);
      count = (e.count + 1) % 2 ^ 32;
    } in
    ap (λ t. append_all t rs) (append_writable e off p h.0)
    ∙ append_all-wire rs next h.1 (omega arith)
    ∙ encoder_eq
        (append_assoc e.body (record_header off p ++ p) (wire rs)
          ∙ ap (λ t. e.body ++ t) (append_assoc (record_header off p) p (wire rs)))
        (omega arith)

apply_round :
    (left i off : ℕ) (out p rest : List ℕ)
    → IsWritable (off, p)
    → apply_loop (suc left) i out (record_header off p ++ (p ++ rest))
      ≡ apply_loop left (i + 1) (write_at out off p) rest
unfolding apply_loop
apply_round left i off out p rest h = ground (
  arith,
  read_full-append (record_header off p) (p ++ rest),
  read_full-append p rest,
  get_be-put_be 8 off,
  get_be-put_be 4 (length p),
)

apply_loop-wire :
    (rs : List (ℕ × List ℕ)) (i : ℕ) (out : List ℕ)
    → All IsWritable rs
    → apply_loop (length rs) i out (wire rs) ≡ ok (patch rs out)
unfolding patch
apply_loop-wire [] i out h = unfold apply_loop in refl
apply_loop-wire ((off, p) ∷ rs) i out h =
    apply_round (length rs) i off out p (wire rs) h.0
    ∙ apply_loop-wire rs (i + 1) (write_at out off p) h.1

-- The file that the encoder produces from the records `rs`.
abbrev pub encoded : List (ℕ × List ℕ) → List ℕ
encoded rs = (close (append_all new_delta_encoder rs)).0

pub encoded-wire :
    (rs : List (ℕ × List ℕ))
    → All IsWritable rs
    → length rs < 2 ^ 32
    → encoded rs ≡ put_be 4 (length rs) ++ wire rs
unfolding close
encoded-wire rs h c =
    ap (λ (t : DeltaEncoder). put_be 4 t.count ++ t.body)
      (append_all-wire rs new_delta_encoder h (omega arith) ∙ encoder_eq refl (omega arith))

-- For records that are non-empty, at most 1 GiB long and at int64 offsets, fewer than 2^32 of
-- them, `ApplyDelta` of the encoder's output succeeds and writes them in their order.
pub apply_delta-append_all :
    (rs : List (ℕ × List ℕ)) (out : List ℕ)
    → All IsWritable rs
    → length rs < 2 ^ 32
    → apply_delta out (close (append_all new_delta_encoder rs)).0 ≡ ok (patch rs out)
unfolding apply_delta
apply_delta-append_all rs out h c = rw (encoded-wire rs h c) (
    ground (
      arith,
      read_full-append (put_be 4 (length rs)) (wire rs),
      get_be-put_be 4 (length rs),
      apply_loop-wire rs 0 out h,
    ))

pub FitsIn→IsWritable :
    (rs : List (ℕ × List ℕ)) (n : ℕ) → n ≤ 2 ^ 30 → All (FitsIn n) rs → All IsWritable rs
FitsIn→IsWritable [] n le h = tt
FitsIn→IsWritable (r ∷ rs) n le h = (omega arith, FitsIn→IsWritable rs n le h.1)
