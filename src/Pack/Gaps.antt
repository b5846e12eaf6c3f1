-- ===== src/Pack/Gaps.antt =====
-- pack.go: what `detectSessionGap` finds and where `applySessionGaps` moves the tracks.
use miniscram.Common.{
  eqb_ℤ-eq, ℕ, zero, suc, ◌+◌, ◌≤◌, ◌<◌, ◌≡◌, refl, sym, ap, ◌∙◌, arith, true, false, Option, none,
  some, List, [], ◌∷◌, length, drop, drop-drop, ℤ, pos, ◌+ℤ◌, ◌*ℤ◌, ◌≤ℤ◌, ltb_ℤ, leb_ℤ, eqb_ℤ,
  sub_i32, Result, ok, err, Bool-cases, Option-cases, inl, inr,
}
use miniscram.Layout.{sync, sector_size}
use miniscram.Text.{has_prefix}
use miniscram.Pack.Scan.{first_candidate}
use miniscram.Pack.Sync.{decode_bcd_lba}
use miniscram.Pack.Header.{HasHeader, decode_bcd_lba-HasHeader}
use miniscram.Pack.ScanAll.{scan_carry-start}
use miniscram.Pack.Offset.{PackError, gap_out_of_range}
use miniscram.Pack.Sessions.{
  validate_gap_sync, gap_at, checked_gap, gap_start, or_no_sync, detect_session_gap,
}

-- The search stops at the sync field at `off + k`, and every field before it is passed over.
abbrev pub IsFirst : {R : Type 0} → (ℕ → Option R) → ℕ → List ℕ → ℕ → R → Type 0
IsFirst try off s k r =
    (has_prefix (drop k s) sync ≡ true)
    × (try (off + k) ≡ some r)
    × ((j : ℕ) → j < k → has_prefix (drop j s) sync ≡ true → try (off + j) ≡ none)

IsFirst-later :
    {R : Type 0} (try : ℕ → Option R) (off c : ℕ) (s : List ℕ) (k : ℕ) (r : R)
    → (has_prefix (c ∷ s) sync ≡ true → try off ≡ none)
    → IsFirst try (off + 1) s k r
    → IsFirst try off (c ∷ s) (suc k) r
IsFirst-later try off c s k r here (occurs, stops, earlier) =
    (occurs, ap try {x = off + suc k} {y = off + 1 + k} (omega arith) ∙ stops, passed)
  where
    passed : (j : ℕ) → j < suc k → has_prefix (drop j (c ∷ s)) sync ≡ true → try (off + j) ≡ none
    passed zero h e = ap try {x = off + 0} {y = off} (omega arith) ∙ here e
    passed (suc j) h e =
        ap try {x = off + suc j} {y = off + 1 + j} (omega arith) ∙ earlier j (omega arith) e

IsFirst-here :
    {R : Type 0} (try : ℕ → Option R) (off : ℕ) (s : List ℕ) (r : R)
    → has_prefix s sync ≡ true
    → try off ≡ some r
    → IsFirst try off s 0 r
IsFirst-here try off s r e stops =
    (e, ap try {x = off + 0} {y = off} (omega arith) ∙ stops, λ j h. absurd (omega arith))

pub first_candidate-IsFirst :
    {R : Type 0} (try : ℕ → Option R) (off : ℕ) (s : List ℕ) (r : R)
    → first_candidate try off s ≡ some r
    → (k : ℕ) × IsFirst try off s k r
first_candidate-IsFirst try off [] r e = absurd (cc)
first_candidate-IsFirst try off (c ∷ s) r e = elim (Bool-cases (has_prefix (c ∷ s) sync)) [
  | inl occurs ↦ elim (Option-cases (try off)) [
    | inl passed ↦
        let skip : first_candidate try off (c ∷ s) ≡ first_candidate try (off + 1) s =
          rw (occurs, passed) refl in
        let (k, first) = first_candidate-IsFirst try (off + 1) s r (sym skip ∙ e) in
        (suc k, IsFirst-later try off c s k r (λ h. passed) first)
    | inr (r', stops) ↦
        let stop : first_candidate try off (c ∷ s) ≡ try off = rw (occurs, stops) refl in
        (0, IsFirst-here try off (c ∷ s) r occurs (sym stop ∙ e))
  ]
  | inr other ↦
      let skip : first_candidate try off (c ∷ s) ≡ first_candidate try (off + 1) s =
        rw other refl in
      let (k, first) = first_candidate-IsFirst try (off + 1) s r (sym skip ∙ e) in
      (
        suc k,
        IsFirst-later try off c s k r (λ h. let no : true ≡ false = sym h ∙ other in absurd cc)
            first,
      )
]

-- The bounds of a gap, in sectors.
abbrev pub InRange : ℤ → Type 0
InRange gap = (pos 11400 ≤ℤ gap) × (gap ≤ℤ pos 30000)

checked_gap-ok :
    (naive distance gap : ℤ)
    → checked_gap naive distance ≡ some (ok gap)
    → (gap ≡ distance) × InRange gap
unfolding checked_gap
checked_gap-ok naive distance gap e = elim (Bool-cases (ltb_ℤ (pos 30000) distance)) [
  | inl long ↦
      let refused : checked_gap naive distance ≡ some (err (gap_out_of_range distance naive)) =
        rw (long, checked_gap) refl in
      let no : some (err (gap_out_of_range distance naive)) ≡ some (ok gap) = sym refused ∙ e in
      absurd cc
  | inr most ↦ elim (Bool-cases (leb_ℤ (pos 11400) distance)) [
    | inl least ↦
        let taken : checked_gap naive distance ≡ some (ok distance) =
          rw (most, least, checked_gap) refl in
        let both : some (ok gap) ≡ some (ok distance) = sym e ∙ taken in
        let same : gap ≡ distance = cc in (same, rw same (ground arith))
    | inr short ↦
        let passed : checked_gap naive distance ≡ none = rw (most, short, checked_gap) refl in
        let no : ◌≡◌ {A = Option (Result PackError ℤ)} none (some (ok gap)) = sym passed ∙ e in
        absurd cc
  ]
]

or_no_sync-ok :
    (naive gap : ℤ) (o : Option (Result PackError ℤ))
    → or_no_sync naive o ≡ ok gap
    → o ≡ some (ok gap)
unfolding or_no_sync
or_no_sync-ok naive gap none e = absurd cc
or_no_sync-ok naive gap (some r) e = ap some e

module _ (file : List ℕ) (leadin wo naive : ℤ) where
  -- The gap between two sessions is the distance of the first sync field past the naive position
  -- whose address is that of its own position, nearer ones being passed over; chunks play no part.
  pub detect_session_gap-first :
      detect_session_gap file leadin wo naive
      ≡ or_no_sync naive (
          first_candidate
            (gap_at file leadin wo naive)
            (gap_start leadin wo naive)
            (drop (gap_start leadin wo naive) file))
  unfolding detect_session_gap
  detect_session_gap-first = ap (or_no_sync naive) (
      scan_carry-start (gap_at file leadin wo naive) (suc (length file)) file
        (gap_start leadin wo naive) (omega arith))

  -- The address is read at the sync field, and it is that of the field's position.
  validate_gap_sync-place :
      (k : ℕ) (lba : ℤ)
      → validate_gap_sync file k leadin wo (length file) ≡ some lba
      → (decode_bcd_lba file k leadin (length file) ≡ some lba)
        × (pos k ≡ sub_i32 lba leadin *ℤ sector_size +ℤ wo)
  unfolding validate_gap_sync
  validate_gap_sync-place k lba e =
      elim (Option-cases (decode_bcd_lba file k leadin (length file))) [
        | inl none_there ↦
            let missing : validate_gap_sync file k leadin wo (length file) ≡ none =
              rw (none_there, validate_gap_sync) refl in
            let no : none ≡ some lba = sym missing ∙ e in absurd cc
        | inr (read, found) ↦ placed read found
      ]
    where
      placed :
          (read : ℤ)
          → decode_bcd_lba file k leadin (length file) ≡ some read
          → (decode_bcd_lba file k leadin (length file) ≡ some lba)
            × (pos k ≡ sub_i32 lba leadin *ℤ sector_size +ℤ wo)
      placed read found =
          let place = sub_i32 read leadin *ℤ sector_size +ℤ wo in
          elim (Bool-cases (eqb_ℤ (pos k) place)) [
            | inl here ↦
                let taken : validate_gap_sync file k leadin wo (length file) ≡ some read =
                  rw (found, here, validate_gap_sync) refl in
                let both : some lba ≡ some read = sym e ∙ taken in
                let same : lba ≡ read = cc in
                (
                  found ∙ sym both,
                  eqb_ℤ-eq (pos k) place here
                      ∙ ap (λ (z : ℤ). sub_i32 z leadin *ℤ sector_size +ℤ wo) (sym same),
                )
            | inr other ↦
                let missing : validate_gap_sync file k leadin wo (length file) ≡ none =
                  rw (found, other, validate_gap_sync) refl in
                let no : none ≡ some lba = sym missing ∙ e in absurd cc
          ]

  gap_at-ok :
      (k : ℕ) (gap : ℤ)
      → gap_at file leadin wo naive k ≡ some (ok gap)
      → (lba : ℤ) × (validate_gap_sync file k leadin wo (length file) ≡ some lba)
        × (gap ≡ sub_i32 lba naive)
        × InRange gap
  unfolding gap_at
  gap_at-ok k gap e = elim (Option-cases (validate_gap_sync file k leadin wo (length file))) [
    | inl none_there ↦
        let missing : gap_at file leadin wo naive k ≡ none = rw (none_there, gap_at) refl in
        let no : ◌≡◌ {A = Option (Result PackError ℤ)} none (some (ok gap)) = sym missing ∙ e in
        absurd cc
    | inr (lba, found) ↦
        let checked : gap_at file leadin wo naive k ≡ checked_gap naive (sub_i32 lba naive) =
          rw (found, gap_at) refl in
        let (same, range) = checked_gap-ok naive (sub_i32 lba naive) gap (sym checked ∙ e) in
        (lba, found, same, range)
  ]

  -- A detected gap lies between 11400 and 30000 sectors, and it is the distance from the naive
  -- position of an address. The address is the LBA of three BCD bytes that stand scrambled
  -- behind a sync field, at or past the position where the search begins, and the sync field is
  -- where the sector of that address begins under the write offset.
  pub detect_session_gap-ok :
      (gap : ℤ)
      → detect_session_gap file leadin wo naive ≡ ok gap
      → InRange gap
        × (k : ℕ) × (lba : ℤ) × (gap_start leadin wo naive ≤ k)
        × (has_prefix (drop k file) sync ≡ true)
        × HasHeader file k lba
        × (pos k ≡ sub_i32 lba leadin *ℤ sector_size +ℤ wo)
        × (gap ≡ sub_i32 lba naive)
  detect_session_gap-ok gap e =
      let start = gap_start leadin wo naive in
      let found =
        or_no_sync-ok naive gap
          (first_candidate (gap_at file leadin wo naive) start (drop start file))
          (sym detect_session_gap-first ∙ e) in
      let (k, (occurs, stops, earlier)) =
        first_candidate-IsFirst (gap_at file leadin wo naive) start (drop start file) (ok gap)
          found in
      let (lba, valid, same, range) = gap_at-ok (start + k) gap stops in
      let (read, place) = validate_gap_sync-place (start + k) lba valid in
      (
        range,
        start + k,
        lba,
        omega arith,
        ap (λ (s : List ℕ). has_prefix s sync) (sym (drop-drop start k file)) ∙ occurs,
        decode_bcd_lba-HasHeader file (start + k) leadin lba read,
        place,
        same,
      )
