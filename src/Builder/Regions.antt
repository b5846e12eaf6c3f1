-- ===== src/Builder/Regions.antt =====
-- builder.go: which part of the disc an LBA lies in, the sectors of the fixed parts, and the
-- gaps between sessions.
use miniscram.Common.{
  ℕ, Bool, false, ◌&&◌, ◌||◌, Option, none, some, List, [], ◌∷◌, ◌++◌, ltb, replicate,
  if◌then◌else◌, ℤ, pos, ltb_ℤ, leb_ℤ, quot, to_i32, add_i32, sub_i32,
}
use miniscram.Layout.{sector_size, sync, lba_pregap_start, lba_to_bcd_msf}
use miniscram.Ecma.{compute_edc, compute_ecc, scramble}
use miniscram.Disc.{Track}

pub record SessionGap : Type 0 where
  pub start_lba : ℤ
  pub leadout_sectors : ℤ
  pub leadin_sectors : ℤ
  pub pregap_sectors : ℤ

pub data Region : Type 0 where
  leadin pregap bin gap_leadout gap_leadin gap_pregap leadout : Region

-- Bytes 0 to 2063 of a Mode 1 sector of zeros: sync, header and user data.
unfoldable pub mode1_head : ℤ → List ℕ
mode1_head lba = let (m, s, f) = lba_to_bcd_msf lba in sync ++ (m ∷ s ∷ f ∷ 0x01 ∷ replicate 2048 0)

-- `generateMode1ZeroSector`.
unfoldable pub generate_mode1_zero_sector : ℤ → List ℕ
generate_mode1_zero_sector lba =
    let head = mode1_head lba in
    scramble (compute_ecc (head ++ (compute_edc head ++ replicate 284 0)))

-- `generateLeadoutSector`: Mode 0, no EDC and no ECC.
unfoldable pub generate_leadout_sector : ℤ → List ℕ
generate_leadout_sector lba =
    let (m, s, f) = lba_to_bcd_msf lba in scramble (sync ++ (m ∷ s ∷ f ∷ 0x00 ∷ replicate 2336 0))

-- `trackModeAt`: the loop stops at the first track behind `lba`; "" before the first track.
unfoldable pub track_mode_from : List ℕ → List Track → ℤ → List ℕ
track_mode_from mode [] lba = mode
track_mode_from mode (t ∷ ts) lba =
    let rest = track_mode_from t.mode ts lba in if leb_ℤ t.first_lba lba then rest else mode

unfoldable pub track_mode_at : List Track → ℤ → List ℕ
unfolding track_mode_from
track_mode_at tracks lba = track_mode_from [] tracks lba

-- The loop over the gaps in `regionAt`: the first gap that holds `lba` decides.
unfoldable pub gap_region : ℤ → List SessionGap → Option Region
gap_region lba [] = none
gap_region lba (g ∷ gs) =
    let leadin_start = add_i32 g.start_lba g.leadout_sectors in
    let pregap_start = add_i32 leadin_start g.leadin_sectors in
    let gap_end = add_i32 pregap_start g.pregap_sectors in
    if ltb_ℤ lba g.start_lba || leb_ℤ gap_end lba
    then gap_region lba gs
    else if ltb_ℤ lba leadin_start
    then some gap_leadout
    else if ltb_ℤ lba pregap_start
    then some gap_leadin
    else some gap_pregap

-- `int32(t.Size / SectorSize)`.
unfoldable pub track_sectors : Track → ℤ
track_sectors t = to_i32 (quot t.size sector_size)

-- The loop over the tracks in `regionAt`.
unfoldable pub in_track : ℤ → List Track → Bool
in_track lba [] = false
in_track lba (t ∷ ts) =
    (leb_ℤ t.first_lba lba && ltb_ℤ lba (add_i32 t.first_lba (track_sectors t))) || in_track lba ts

before_first : ℤ → List Track → Bool
before_first lba [] = false
before_first lba (t ∷ ts) = ltb_ℤ lba t.first_lba

-- `regionAt`.
unfoldable pub region_at : ℤ → List Track → List SessionGap → Region
unfolding before_first
region_at lba tracks gaps =
    if ltb_ℤ lba lba_pregap_start then leadin else elim (gap_region lba gaps) [
      | some r ↦ r
      | none ↦
          if before_first lba tracks then pregap else if in_track lba tracks then bin else leadout
    ]

abbrev pub session_gap_pregap_sectors : ℤ
session_gap_pregap_sectors = pos 150

abbrev pub session_gap_leadin_sectors : ℤ
session_gap_leadin_sectors = pos 4500

-- One round of `derivedSessionGaps`: the gap between two neighbouring tracks, if there is one.
unfoldable pub session_gap : Track → Track → Option SessionGap
session_gap prev cur =
    let prev_end = add_i32 prev.first_lba (track_sectors prev) in
    let total = sub_i32 cur.first_lba prev_end in
    let slack = sub_i32 (sub_i32 total session_gap_leadin_sectors) session_gap_pregap_sectors in
    if ltb prev.session cur.session && ltb_ℤ (pos 0) total
    then some (record {
      start_lba = prev_end;
      leadout_sectors = if ltb_ℤ slack (pos 0) then pos 0 else slack;
      leadin_sectors = session_gap_leadin_sectors;
      pregap_sectors = session_gap_pregap_sectors;
    })
    else none

cons_option : Option SessionGap → List SessionGap → List SessionGap
cons_option none gs = gs
cons_option (some g) gs = g ∷ gs

unfoldable pub gaps_from : Track → List Track → List SessionGap
unfolding cons_option
gaps_from prev [] = []
gaps_from prev (cur ∷ ts) = cons_option (session_gap prev cur) (gaps_from cur ts)

-- `derivedSessionGaps`.
unfoldable pub derived_session_gaps : List Track → List SessionGap
unfolding gaps_from
derived_session_gaps [] = []
derived_session_gaps (t ∷ ts) = gaps_from t ts
