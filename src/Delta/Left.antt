-- ===== src/Delta/Left.antt =====
-- What `ApplyDelta` leaves in the file when it fails.
use mathlib.Core.Path.{subst}
use miniscram.Common.{
  ℕ, zero, suc, ◌+◌, ◌^◌, ◌<◌, ◌≡◌, ◌⊎◌, inl, inr, refl, sym, ap, ◌∙◌, arith, ◌||◌, some, List, [],
  ◌∷◌, ◌++◌, length, All, take, drop, ltb, ◌==◌, get_be, read_full, read_full-eq-some, read_full-le,
  read_full-short, err, Bool-cases, Option-cases,
}
use miniscram.Delta.Wire.{
  DeltaError, max_delta_record_length, write_at, apply_loop, apply_delta, apply_left_loop,
  apply_left,
}
use miniscram.Delta.Patch.{patch}
use miniscram.Delta.RoundTrip.{IsWritable}

-- The bytes begin with these records, a header of twelve bytes and the payload for each, and `rest`
-- comes behind them.
abbrev pub Holds : List ℕ → List (ℕ × List ℕ) → List ℕ → Type 0
Holds bytes [] rest = bytes ≡ rest
Holds bytes ((off, p) ∷ rs) rest =
    (header more : List ℕ) × (bytes ≡ header ++ (p ++ more))
    × (length header ≡ 12)
    × (get_be (take 8 header) ≡ off)
    × (get_be (drop 8 header) ≡ length p)
    × Holds more rs rest

-- The records that are written to `out` before the loop fails at the next one, and the result.
abbrev pub IsStopped : ℕ → ℕ → List ℕ → List ℕ → DeltaError → List ℕ → Type 0
IsStopped left i out delta e content =
    (rs : List (ℕ × List ℕ)) × (rest : List ℕ) × Holds delta rs rest
    × All IsWritable rs
    × (length rs < left)
    × (content ≡ patch rs out)
    × (apply_loop 1 (i + length rs) content rest ≡ err e)

module _ (left i : ℕ) (out delta : List ℕ) (e : DeltaError) where
  IsStopped-here :
      (content : List ℕ)
      → content ≡ out
      → apply_loop 1 i out delta ≡ err e
      → IsStopped (suc left) i out delta e content
  unfolding patch
  IsStopped-here content same h = (
    [],
    delta,
    refl,
    tt,
    omega arith,
    same,
    ap (λ (c : List ℕ). apply_loop 1 (i + 0) c delta) same
        ∙ ap (λ (j : ℕ). apply_loop 1 j out delta) {x = i + 0} {y = i} (omega arith)
        ∙ h,
  )

  IsStopped-later :
      (off : ℕ) (header p more content : List ℕ)
      → delta ≡ header ++ (p ++ more)
      → length header ≡ 12
      → get_be (take 8 header) ≡ off
      → get_be (drop 8 header) ≡ length p
      → IsWritable (off, p)
      → IsStopped left (i + 1) (write_at out off p) more e content
      → IsStopped (suc left) i out delta e content
  unfolding patch
  IsStopped-later off header p more content whole twelve o l fine
        (rs, rest, holds, all, fewer, same, stops) =
      (
        (off, p) ∷ rs,
        rest,
        (header, more, whole, twelve, o, l, holds),
        (fine, all),
        omega arith,
        same,
        ap (λ (j : ℕ). apply_loop 1 j content rest) {x = i + suc (length rs)}
              {y = i + 1 + length rs} (omega arith)
            ∙ stops,
      )

-- A round writes one record, or it ends the loop and leaves the file.
abbrev IsRound : ℕ → ℕ → List ℕ → List ℕ → Type 0
IsRound left i out delta =
    ((apply_left_loop (suc left) out delta ≡ out)
      × (apply_loop (suc left) i out delta ≡ apply_loop 1 i out delta))
    ⊎ ((off : ℕ) × (header p more : List ℕ) × (delta ≡ header ++ (p ++ more))
        × (length header ≡ 12)
        × (get_be (take 8 header) ≡ off)
        × (get_be (drop 8 header) ≡ length p)
        × IsWritable (off, p)
        × (apply_left_loop (suc left) out delta ≡ apply_left_loop left (write_at out off p) more)
        × (apply_loop (suc left) i out delta ≡ apply_loop left (i + 1) (write_at out off p) more))

apply_loop-IsRound : (left i : ℕ) (out delta : List ℕ) → IsRound left i out delta
unfolding apply_loop apply_left_loop
apply_loop-IsRound left i out delta = elim (Option-cases (read_full 12 delta)) [
  | inl short ↦ inl (rw (short, apply_left_loop) refl, rw (short, apply_loop) refl)
  | inr ((rec, rest), read) ↦ behind_header rec rest read
]
  where
    behind_header :
        (rec rest : List ℕ) → read_full 12 delta ≡ some (rec, rest) → IsRound left i out delta
    behind_header rec rest read =
        let len = get_be (drop 8 rec) in
        elim (Bool-cases (len == 0 || ltb max_delta_record_length len)) [
          | inl bad ↦ inl (rw (read, bad, apply_left_loop) refl, rw (read, bad, apply_loop) refl)
          | inr plausible ↦ elim (Option-cases (read_full len rest)) [
            | inl short ↦ inl (
              rw (read, plausible, short, apply_left_loop) refl,
              rw (read, plausible, short, apply_loop) refl,
            )
            | inr ((p, more), found) ↦ elim (Bool-cases (ltb (get_be (take 8 rec)) (2 ^ 63))) [
              | inr far ↦ inl (
                rw (read, plausible, found, far, apply_left_loop) refl,
                rw (read, plausible, found, far, apply_loop) refl,
              )
              | inl near ↦
                  let (whole, twelve, front, tail) = read_full-eq-some 12 delta read in
                  let (whole', many, front', tail') = read_full-eq-some len rest found in
                  inr (
                    get_be (take 8 rec),
                    rec,
                    p,
                    more,
                    whole ∙ ap (λ (t : List ℕ). rec ++ t) whole',
                    twelve,
                    refl,
                    sym many,
                    (ground arith, ground arith, ground arith),
                    rw (read, plausible, found, near, apply_left_loop) refl,
                    rw (read, plausible, found, near, apply_loop) refl,
                  )
            ]
          ]
        ]

-- The records before the one at which the loop fails are written, and no other byte is touched.
pub apply_loop-IsStopped :
    (left i : ℕ) (out delta : List ℕ) (e : DeltaError)
    → apply_loop left i out delta ≡ err e
    → IsStopped left i out delta e (apply_left_loop left out delta)
unfolding apply_loop
apply_loop-IsStopped zero i out delta e h = absurd cc
apply_loop-IsStopped (suc left) i out delta e h = elim (apply_loop-IsRound left i out delta) [
  | inl (kept, ends) ↦
      IsStopped-here left i out delta e (apply_left_loop (suc left) out delta) kept (sym ends ∙ h)
  | inr (off, header, p, more, whole, twelve, o, l, fine, wrote, goes_on) ↦
      IsStopped-later left i out delta e off header p more (apply_left_loop (suc left) out delta)
        whole twelve o l fine
        (subst (λ (c : List ℕ). IsStopped left (i + 1) (write_at out off p) more e c) (sym wrote)
          (apply_loop-IsStopped left (i + 1) (write_at out off p) more e (sym goes_on ∙ h)))
]

-- The file after a delta that is refused: as it was if the count is missing, and else with the
-- records before the first bad one.
abbrev pub IsCutOff : List ℕ → List ℕ → DeltaError → List ℕ → Type 0
IsCutOff out delta e content =
    ((length delta < 4) × (content ≡ out))
    ⊎ IsStopped (get_be (take 4 delta)) 0 out (drop 4 delta) e content

pub apply_delta-IsCutOff :
    (out delta : List ℕ) (e : DeltaError)
    → apply_delta out delta ≡ err e
    → IsCutOff out delta e (apply_left out delta)
unfolding apply_delta apply_left
apply_delta-IsCutOff out delta e h = elim (Bool-cases (ltb (length delta) 4)) [
  | inl short ↦ inl (ground arith, rw (read_full-short 4 delta (ground arith), apply_left) refl)
  | inr enough ↦
      let read = read_full-le 4 delta (ground arith) in
      let loop : apply_delta out delta ≡ apply_loop (get_be (take 4 delta)) 0 out (drop 4 delta) =
        rw (read, apply_delta) refl in
      let left : apply_left out delta ≡ apply_left_loop (get_be (take 4 delta)) out (drop 4 delta) =
        rw (read, apply_left) refl in
      inr (
        subst (λ (c : List ℕ). IsStopped (get_be (take 4 delta)) 0 out (drop 4 delta) e c)
          (sym left)
          (apply_loop-IsStopped (get_be (take 4 delta)) 0 out (drop 4 delta) e (sym loop ∙ h)))
]
