-- ===== src/Examples/Pack.antt =====
-- The theorems on the searches of a scram at small inputs.
use miniscram.Common.{
  ℕ, ◌≤◌, ◌<◌, ◌*◌, ◌/◌, ◌≡◌, ◌↔◌, ◌⊎◌, refl, true, List, [], ◌∷◌, ◌++◌, length, drop, All, codes,
  ℤ, pos, ◌+ℤ◌, ◌*ℤ◌, ◌-ℤ◌, sub_i32, add_i32, to_i32, rem, quot, ok, or_err,
}
use miniscram.Layout.{sync, sector_size, lba_to_bcd_msf, bcd_msf_to_lba}
use miniscram.Disc.{Track, is_audio, no_hashes}
use miniscram.Text.{has_prefix, index}
use miniscram.Ecma.{scramble_table}
use miniscram.Pack.Header.{HasHeader}
use miniscram.Pack.Sync.{masked_header, decode_bcd_lba}
use miniscram.Pack.Offset.{
  no_sync_field, detect_write_offset, check_constant_offset, offset_from, Agrees,
  detect_write_offset-first, check_constant_offset-detected,
}
use miniscram.Pack.Sessions.{
  gap_start, detect_session_gap, apply_session_gaps, count_session_boundaries,
}
use miniscram.Pack.Gaps.{InRange, detect_session_gap-ok}
use miniscram.Pack.Moved.{place, apply_session_gaps-place}

-- A scram whose first sector has the address 12000.
abbrev locked : List ℕ
locked = sync ++ masked_header (lba_to_bcd_msf (pos 12000))

detect_write_offset-first_example :
    detect_write_offset locked (pos 12000)
    ≡ or_err (offset_from locked (pos 12000) 0) (no_sync_field (length locked))
detect_write_offset-first_example = detect_write_offset-first locked (pos 12000)

locked_offset : detect_write_offset locked (pos 12000) ≡ ok (pos 0)
unfolding detect_write_offset lba_to_bcd_msf sub_i32 to_i32 rem ◌-ℤ◌ ◌*ℤ◌ index has_prefix
    decode_bcd_lba ◌+ℤ◌ quot scramble_table bcd_msf_to_lba
locked_offset = refl

check_constant_offset-detected_example : (check_constant_offset locked (pos 12000) ≡ ok tt) ↔ (
    (length locked < 8 * 2352)
    ⊎ (Agrees (pos 0) (offset_from locked (pos 12000) (length locked / 2))
        × Agrees (pos 0) (offset_from locked (pos 12000) (length locked * 3 / 4))))
check_constant_offset-detected_example =
    check_constant_offset-detected locked (pos 12000) (pos 0) locked_offset

locked_gap : detect_session_gap locked (pos 12000) (pos 0) (pos 0) ≡ ok (pos 12000)
unfolding detect_session_gap lba_to_bcd_msf sub_i32 to_i32 rem ◌-ℤ◌ ◌*ℤ◌ index has_prefix
    decode_bcd_lba ◌+ℤ◌ quot scramble_table bcd_msf_to_lba
locked_gap = refl

detect_session_gap-ok_example :
    InRange (pos 12000)
    × (k : ℕ) × (lba : ℤ) × (gap_start (pos 12000) (pos 0) (pos 0) ≤ k)
    × (has_prefix (drop k locked) sync ≡ true)
    × HasHeader locked k lba
    × (pos k ≡ sub_i32 lba (pos 12000) *ℤ sector_size +ℤ pos 0)
    × (pos 12000 ≡ sub_i32 lba (pos 0))
detect_session_gap-ok_example =
    detect_session_gap-ok locked (pos 12000) (pos 0) (pos 0) (pos 12000) locked_gap

abbrev session_track : ℤ → ℕ → Track
session_track number session = record {
  number = number;
  session = session;
  mode = codes "MODE1/2352";
  first_lba = pos 0;
  filename = codes "a.bin";
  size = pos 0;
  hashes = no_hashes;
  file_offset = pos 0;
}

abbrev second_moved : List Track
second_moved =
    session_track (pos 1) 1 ∷ record (session_track (pos 2) 2) { first_lba = pos 12000 } ∷ []

gaps_applied :
    apply_session_gaps locked
      (pos 12000)
      (pos 0)
      (session_track (pos 1) 1 ∷ session_track (pos 2) 2 ∷ [])
    ≡ ok second_moved
unfolding apply_session_gaps lba_to_bcd_msf sub_i32 to_i32 rem ◌-ℤ◌ ◌*ℤ◌ index has_prefix
    decode_bcd_lba ◌+ℤ◌ quot scramble_table bcd_msf_to_lba add_i32 is_audio
gaps_applied = refl

apply_session_gaps-place_example :
    (gaps : List ℤ) × (length gaps
      ≡ count_session_boundaries (session_track (pos 1) 1 ∷ session_track (pos 2) 2 ∷ []))
    × All InRange gaps
    × (second_moved ≡ session_track (pos 1) 1 ∷ place 1 [] gaps (session_track (pos 2) 2 ∷ []))
apply_session_gaps-place_example =
    apply_session_gaps-place locked (pos 12000) (pos 0) (session_track (pos 1) 1)
      (session_track (pos 2) 2 ∷ []) second_moved gaps_applied
