-- ===== src/Layout.antt =====
-- layout.go: sectors, logical block addresses (LBA) and their BCD minute:second:frame headers.
pub mod RoundTrip
use miniscram.Common.{
  ℕ, ◌+◌, ◌*◌, ◌/◌, ◌%◌, Option, none, some, List, [], ◌∷◌, if◌then◌else◌, ℤ, pos, negsuc, pos_part,
  ◌+ℤ◌, ◌-ℤ◌, ◌*ℤ◌, ltb_ℤ, quot, rem, word, to_i32,
}

abbrev pub sector_size : ℕ
sector_size = 2352

abbrev pub sync_len : ℕ
sync_len = 12

-- -45150 and -150.
abbrev pub lba_leadin_start : ℤ
lba_leadin_start = negsuc 45149

abbrev pub lba_pregap_start : ℤ
lba_pregap_start = negsuc 149

abbrev pub msf_frames_per_second : ℕ
msf_frames_per_second = 75

-- The sync pattern at the head of a data sector.
abbrev pub sync : List ℕ
sync = 0x00 ∷ 0xff ∷ 0xff ∷ 0xff ∷ 0xff ∷ 0xff ∷ 0xff ∷ 0xff ∷ 0xff ∷ 0xff ∷ 0xff ∷ 0x00 ∷ []

-- `b >> 4` and `b & 0x0F`.
unfoldable pub bcd_decode : ℕ → ℕ
bcd_decode b = b / 16 * 10 + b % 16

-- `BCDMSFToLBA`; the triple is the header's minute, second and frame byte.
unfoldable pub bcd_msf_to_lba : ℕ × ℕ × ℕ → ℤ
unfolding bcd_decode
bcd_msf_to_lba (b0, b1, b2) =
    let m = bcd_decode b0 in
    let s = bcd_decode b1 in
    let f = bcd_decode b2 in to_i32 (pos (msf_frames_per_second * (60 * m + s) + f) -ℤ pos 150)

-- The byte that `enc` of `LBAToBCDMSF` makes.
unfoldable pub enc : ℤ → ℕ
enc n = word 256 (quot n 10 *ℤ 16 +ℤ rem n 10)

-- `LBAToBCDMSF`. Only `lba + 150` can leave the range of an int32.
unfoldable pub lba_to_bcd_msf : ℤ → ℕ × ℕ × ℕ
unfolding enc
lba_to_bcd_msf lba =
    let v = to_i32 (lba +ℤ pos 150) in
    let m = quot v (60 * msf_frames_per_second) in
    let v' = v -ℤ m *ℤ 60 *ℤ msf_frames_per_second in
    let s = quot v' msf_frames_per_second in
    let f = v' -ℤ s *ℤ msf_frames_per_second in (enc m, enc s, enc f)

-- `ScramOffset`: the subtraction is in int32, the rest in int64.
unfoldable pub scram_offset : ℤ → ℤ → ℤ
scram_offset lba write_offset = to_i32 (lba -ℤ lba_leadin_start) *ℤ sector_size +ℤ write_offset

-- `TotalLBAs`; `none` is the panic of a violated precondition.
unfoldable pub total_lbas : ℤ → ℤ → Option ℤ
total_lbas scram_size write_offset =
    let v = scram_size -ℤ write_offset +ℤ pos sector_size -ℤ pos 1 in
    if ltb_ℤ v (pos 0) then none else some (to_i32 (pos (pos_part v / sector_size)))
