-- ===== src/Delta/Patch.antt =====
-- What the records of a comparison do to the predicted bytes when they are written over them.
use mathlib.Core.List.{append_assoc, append-nil}
use miniscram.Common.{
  ℕ, ◌+◌, ◌-◌, ◌≤◌, ◌<◌, ◌≡◌, refl, arith, List, [], ◌∷◌, ◌++◌, length, drop, All, length-append,
  length-replicate, take_append, take-append_le, drop-append_le, length-take, length-drop,
  drop-length,
}
use miniscram.Delta.Wire.{write_at}

-- The records written one after the other.
unfoldable pub patch : List (ℕ × List ℕ) → List ℕ → List ℕ
patch [] out = out
patch ((off, p) ∷ rs) out = patch rs (write_at out off p)

-- A record has at least one byte and lies within the first `n` bytes.
abbrev pub FitsIn : ℕ → ℕ × List ℕ → Type 0
FitsIn n r = (0 < length r.1) × (r.0 + length r.1 ≤ n)

pub write_at-append :
    (out x : List ℕ) (off : ℕ) (p : List ℕ)
    → off + length p ≤ length out
    → write_at (out ++ x) off p ≡ write_at out off p ++ x
unfolding write_at
write_at-append out x off p h =
    let fits : off ≤ length out = omega arith in
    let short : off - length out ≡ 0 = omega arith in
    let long : off - length (out ++ x) ≡ 0 = omega (arith, length-append out x) in
    simp (
      take-append_le off out x fits,
      drop-append_le (off + length p) out x h,
      short,
      long,
      append_assoc,
    )

pub length-write_at :
    (out : List ℕ) (off : ℕ) (p : List ℕ)
    → off + length p ≤ length out
    → length (write_at out off p) ≡ length out
unfolding write_at
length-write_at out off p h = simp length-append (
    omega (
      arith,
      length-take off out,
      length-replicate {A = ℕ} (off - length out) 0,
      length-drop (off + length p) out,
    ))

-- A run written where it was found replaces exactly the bytes that it was compared with.
pub write_at_overlay :
    (front hat run : List ℕ)
    → length hat ≡ length run
    → write_at (front ++ hat) (length front) run ≡ front ++ run
unfolding write_at
write_at_overlay front hat run h =
    let none_left : length front - length (front ++ hat) ≡ 0 =
      omega (arith, length-append front hat) in
    let past : drop (length front + length run) (front ++ hat) ≡ [] =
      drop-length _ (front ++ hat) (omega (arith, length-append front hat)) in
    simp (take_append, none_left, past, append-nil)

pub patch-append :
    (rs : List (ℕ × List ℕ)) (out x : List ℕ)
    → All (FitsIn (length out)) rs
    → patch rs (out ++ x) ≡ patch rs out ++ x
unfolding patch
patch-append [] out x h = refl
patch-append ((off, p) ∷ rs) out x h =
    rw (write_at-append out x off p h.0.1)
      (patch-append rs (write_at out off p) x (rw (length-write_at out off p h.0.1) h.1))

pub patch-append_records :
    (rs qs : List (ℕ × List ℕ)) (out : List ℕ) → patch (rs ++ qs) out ≡ patch qs (patch rs out)
unfolding patch
patch-append_records [] qs out = refl
patch-append_records ((off, p) ∷ rs) qs out = patch-append_records rs qs (write_at out off p)

pub FitsIn-weaken :
    (rs : List (ℕ × List ℕ)) (n m : ℕ) → n ≤ m → All (FitsIn n) rs → All (FitsIn m) rs
FitsIn-weaken [] n m le h = tt
FitsIn-weaken (r ∷ rs) n m le h = ((h.0.0, omega arith), FitsIn-weaken rs n m le h.1)
