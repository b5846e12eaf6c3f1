-- ===== src/Pack/Offset.antt =====
-- pack.go: `detectWriteOffset` and `checkConstantOffset`. The file is the list of its bytes, of
-- which the scram's size is the length.
use miniscram.Common.{
  eqb_ℤ-eq, ℕ, suc, ◌+◌, ◌*◌, ◌/◌, ◌<◌, ◌≡◌, refl, sym, ap, ◌∙◌, arith, true, not, Option, none,
  some, List, [], ◌∷◌, length, drop, ltb, if◌then◌else◌, ℤ, eqb_ℤ, Result, ok, err, or_err,
  Bool-cases, inl, inr, ◌⊎◌, ◌↔◌, or_err-eq-ok, ltb→lt,
}
use miniscram.Pack.Sync.{validate_sync_candidate}
use miniscram.Pack.Scan.{scan_carry, scan_overlap, first_candidate}
use miniscram.Pack.ScanAll.{scan_carry-start, scan_overlap-all}

pub data PackError : Type 0 where
  no_sync_field : ℕ → PackError
  variable_offset : ℕ → ℤ → ℤ → PackError
  gap_out_of_range : ℤ → ℤ → PackError
  no_sync_past : ℤ → PackError
  first_track_not_data : ℤ → ℕ → PackError

-- `detectWriteOffset`.
unfoldable pub detect_write_offset : List ℕ → ℤ → Result PackError ℤ
unfolding scan_carry validate_sync_candidate
detect_write_offset file leadin =
    or_err
      (scan_carry (λ off. validate_sync_candidate file off leadin (length file)) (suc (length file))
        file [] 0)
      (no_sync_field (length file))

unfoldable collected : Option ℤ → List ℤ → List ℤ
collected none rest = rest
collected (some off) rest = off ∷ rest

-- The offsets found from the three starts; a start without a sync field adds none.
unfoldable pub sampled_offsets : List ℕ → ℤ → List ℕ → List ℤ
unfolding scan_overlap validate_sync_candidate collected
sampled_offsets file leadin [] = []
sampled_offsets file leadin (s ∷ starts) =
    let rest = sampled_offsets file leadin starts in
    collected
      (scan_overlap (λ off. validate_sync_candidate file off leadin (length file))
        (suc (length file)) file s)
      rest

-- The comparisons with the first offset, from index `i` on.
unfoldable pub all_same : ℕ → ℤ → List ℤ → Result PackError (Unit {0})
all_same i first [] = ok tt
all_same i first (off ∷ offsets) =
    let rest = all_same (i + 1) first offsets in
    if not (eqb_ℤ off first) then err (variable_offset i off first) else rest

unfoldable pub same_offsets : List ℤ → Result PackError (Unit {0})
unfolding all_same
same_offsets [] = ok tt
same_offsets (first ∷ offsets) = all_same 1 first offsets

-- `checkConstantOffset`.
unfoldable pub check_constant_offset : List ℕ → ℤ → Result PackError (Unit {0})
unfolding sampled_offsets same_offsets
check_constant_offset file leadin =
    if ltb (length file) (8 * 2352)
    then ok tt
    else same_offsets (sampled_offsets file leadin (0 ∷ length file / 2 ∷ length file * 3 / 4 ∷ []))

-- Nothing but `wo` was found.
abbrev pub Agrees : ℤ → Option ℤ → Type 0
Agrees wo o = (o ≡ none) ⊎ (o ≡ some wo)

eqb_ℤ-refl : (z : ℤ) → eqb_ℤ z z ≡ true
eqb_ℤ-refl z = ground arith

all_same-collected :
    (i : ℕ) (wo : ℤ) (o : Option ℤ) (rest : List ℤ)
    → all_same i wo (collected o rest) ≡ ok tt
    → Agrees wo o × (j : ℕ) × (all_same j wo rest ≡ ok tt)
unfolding all_same collected
all_same-collected i wo none rest e = (inl refl, i, e)
all_same-collected i wo (some off) rest e = elim (Bool-cases (eqb_ℤ off wo)) [
  | inl same ↦ (inr (ap some (eqb_ℤ-eq off wo same)), i + 1, ground arith)
  | inr differ ↦ ground (arith, all_same)
]

collected-all_same :
    (i : ℕ) (wo : ℤ) (o : Option ℤ) (rest : List ℤ)
    → Agrees wo o
    → ((j : ℕ) → all_same j wo rest ≡ ok tt)
    → all_same i wo (collected o rest) ≡ ok tt
unfolding all_same collected
collected-all_same i wo o rest (inl e) h = rw e (h i)
collected-all_same i wo o rest (inr e) h =
    let same = eqb_ℤ-refl wo in rw (e, collected, all_same, same) (h (i + 1))

module _ (file : List ℕ) (leadin : ℤ) where
  -- What a search without chunks finds from an offset on.
  abbrev pub offset_from : ℕ → Option ℤ
  offset_from start =
      first_candidate (λ off. validate_sync_candidate file off leadin (length file)) start
        (drop start file)

  -- The write offset is the one that the first acceptable sync field of the whole scram implies,
  -- whatever chunks the file is read in: a field that crosses a chunk's end is found, none is
  -- examined out of order and none is missed. Without one the detection fails.
  pub detect_write_offset-first :
      detect_write_offset file leadin ≡ or_err (offset_from 0) (no_sync_field (length file))
  unfolding detect_write_offset
  detect_write_offset-first =
      ap (λ (o : Option ℤ). or_err o (no_sync_field (length file)))
        (scan_carry-start (λ off. validate_sync_candidate file off leadin (length file))
          (suc (length file)) file 0 (omega arith))

  sampled_offsets-all :
      (s : ℕ) (starts : List ℕ)
      → sampled_offsets file leadin (s ∷ starts)
        ≡ collected (offset_from s) (sampled_offsets file leadin starts)
  unfolding sampled_offsets
  sampled_offsets-all s starts =
      ap (λ (o : Option ℤ). collected o (sampled_offsets file leadin starts))
        (scan_overlap-all (λ off. validate_sync_candidate file off leadin (length file))
          (suc (length file)) file s (omega arith))

  -- The samples of the second and third start.
  abbrev later_samples : List ℤ
  later_samples =
      collected (offset_from (length file / 2)) (collected (offset_from (length file * 3 / 4)) [])

  same_offsets-detected :
      (wo : ℤ)
      → detect_write_offset file leadin ≡ ok wo
      → same_offsets (sampled_offsets file leadin (0 ∷ length file / 2 ∷ length file * 3 / 4 ∷ []))
        ≡ all_same 1 wo later_samples
  unfolding same_offsets collected sampled_offsets
  same_offsets-detected wo e =
      let found : offset_from 0 ≡ some wo =
        or_err-eq-ok (offset_from 0) (no_sync_field (length file))
          (sym detect_write_offset-first ∙ e) in
      ap same_offsets (
        sampled_offsets-all 0 (length file / 2 ∷ length file * 3 / 4 ∷ [])
        ∙ ap
            (λ (o : Option ℤ).
              collected o
                (sampled_offsets file leadin (length file / 2 ∷ length file * 3 / 4 ∷ [])))
            found)
      ∙ ap (all_same 1 wo) (
          sampled_offsets-all (length file / 2) (length file * 3 / 4 ∷ [])
          ∙ ap (collected (offset_from (length file / 2)))
              (sampled_offsets-all (length file * 3 / 4) []))

  -- With a detected write offset, the check for a constant offset passes exactly when the scram is
  -- shorter than eight sectors or neither the first acceptable sync field from its middle on nor
  -- the first from its third quarter on implies another write offset.
  pub check_constant_offset-detected :
      (wo : ℤ)
      → detect_write_offset file leadin ≡ ok wo
      → (check_constant_offset file leadin ≡ ok tt) ↔ (
          (length file < 8 * 2352)
          ⊎ (Agrees wo (offset_from (length file / 2))
              × Agrees wo (offset_from (length file * 3 / 4))))
  unfolding check_constant_offset all_same
  check_constant_offset-detected wo e =
      rw (same_offsets-detected wo e) (elim (Bool-cases (ltb (length file) (8 * 2352))) [
        | inl few ↦ rw few (λ h. inl (ltb→lt (length file) (8 * 2352) few), λ h. refl)
        | inr many ↦ rw many (
          λ h.
              let (middle, j, h') =
                all_same-collected 1 wo (offset_from (length file / 2))
                  (collected (offset_from (length file * 3 / 4)) []) h in
              let (late, k, last) =
                all_same-collected j wo (offset_from (length file * 3 / 4)) [] h' in
              inr (middle, late),
          λ h. elim h [
            | inl few ↦ ground arith
            | inr (middle, late) ↦
                collected-all_same 1 wo _ _ middle
                  (λ j. collected-all_same j wo _ [] late (λ k. refl))
          ],
        )
      ])
