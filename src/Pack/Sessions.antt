-- ===== src/Pack/Sessions.antt =====
-- pack.go: the gaps between sessions. `naive` is where the cue sheet places a track, without the
-- gaps before it.
use miniscram.Common.{
  ℕ, zero, suc, ◌+◌, true, false, not, Option, none, some, List, [], ◌∷◌, length, map, ltb, leb,
  if◌then◌else◌, ℤ, pos, ◌+ℤ◌, ◌*ℤ◌, ltb_ℤ, leb_ℤ, eqb_ℤ, add_i32, sub_i32, pos_part, Result, ok,
  err, ◌>>=◌,
}
use miniscram.Layout.{sector_size}
use miniscram.Disc.{Track, is_audio}
use miniscram.Pack.Sync.{decode_bcd_lba}
use miniscram.Pack.Scan.{scan_carry}
use miniscram.Pack.Offset.{PackError, gap_out_of_range, no_sync_past, first_track_not_data}

abbrev session_gap_min_sectors : ℤ
session_gap_min_sectors = pos 11400

abbrev session_gap_max_sectors : ℤ
session_gap_max_sectors = pos 30000

-- `validateGapSync`.
unfoldable pub validate_gap_sync : List ℕ → ℕ → ℤ → ℤ → ℕ → Option ℤ
unfolding decode_bcd_lba
validate_gap_sync file sync_off leadin wo size = elim (decode_bcd_lba file sync_off leadin size) [
  | none ↦ none
  | some lba ↦
      if not (eqb_ℤ (pos sync_off) (sub_i32 lba leadin *ℤ sector_size +ℤ wo))
      then none
      else some lba
]

-- A gap in range and one that is too long end the search, and a shorter one does not.
unfoldable pub checked_gap : ℤ → ℤ → Option (Result PackError ℤ)
checked_gap naive gap =
    if ltb_ℤ session_gap_max_sectors gap
    then some (err (gap_out_of_range gap naive))
    else if leb_ℤ session_gap_min_sectors gap
    then some (ok gap)
    else none

-- What `detectSessionGap` does with a sync field.
unfoldable pub gap_at : List ℕ → ℤ → ℤ → ℤ → ℕ → Option (Result PackError ℤ)
unfolding validate_gap_sync checked_gap
gap_at file leadin wo naive sync_off =
    elim (validate_gap_sync file sync_off leadin wo (length file)) [
      | none ↦ none
      | some lba ↦ checked_gap naive (sub_i32 lba naive)
    ]

-- The position at which the search begins.
unfoldable pub gap_start : ℤ → ℤ → ℤ → ℕ
gap_start leadin wo naive = pos_part (sub_i32 naive leadin *ℤ sector_size +ℤ wo)

unfoldable pub or_no_sync : ℤ → Option (Result PackError ℤ) → Result PackError ℤ
or_no_sync naive none = err (no_sync_past naive)
or_no_sync naive (some r) = r

-- `detectSessionGap`.
unfoldable pub detect_session_gap : List ℕ → ℤ → ℤ → ℤ → Result PackError ℤ
unfolding scan_carry gap_at gap_start or_no_sync
detect_session_gap file leadin wo naive = or_no_sync naive (
    scan_carry (gap_at file leadin wo naive) (suc (length file)) file []
      (gap_start leadin wo naive))

unfoldable pub move_track : ℤ → Track → Track
move_track gap t = record t { first_lba = add_i32 t.first_lba gap }

-- `countSessionBoundaries`, from the session before on.
unfoldable pub count_boundaries_from : ℕ → List Track → ℕ
count_boundaries_from before [] = 0
count_boundaries_from before (t ∷ ts) =
    let rest = count_boundaries_from t.session ts in if ltb before t.session then rest + 1 else rest

unfoldable pub count_session_boundaries : List Track → ℕ
unfolding count_boundaries_from
count_session_boundaries [] = 0
count_session_boundaries (t ∷ ts) = count_boundaries_from t.session ts

-- The tracks from one index on. A gap moves a track and all that follow it. The fuel is their
-- number.
unfoldable pub apply_gaps_from : ℕ → List ℕ → ℤ → ℤ → ℕ → List Track → Result PackError (List Track)
unfolding detect_session_gap move_track
apply_gaps_from zero file leadin wo before ts = ok ts
apply_gaps_from (suc fuel) file leadin wo before [] = ok []
apply_gaps_from (suc fuel) file leadin wo before (t ∷ ts) = elim (leb t.session before) [
  | true ↦ do rest ← apply_gaps_from fuel file leadin wo t.session ts; ok (t ∷ rest)
  | false ↦ elim (is_audio t.mode) [
    | true ↦ err (first_track_not_data t.number t.session)
    | false ↦ do
      gap ← detect_session_gap file leadin wo t.first_lba
      rest ← apply_gaps_from fuel file leadin wo t.session (map (move_track gap) ts)
      ok (move_track gap t ∷ rest)
  ]
]

-- `applySessionGaps`.
unfoldable pub apply_session_gaps : List ℕ → ℤ → ℤ → List Track → Result PackError (List Track)
unfolding apply_gaps_from
apply_session_gaps file leadin wo [] = ok []
apply_session_gaps file leadin wo (t ∷ ts) = do
  rest ← apply_gaps_from (length ts) file leadin wo t.session ts
  ok (t ∷ rest)
