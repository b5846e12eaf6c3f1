-- ===== src/Ecma/Classify.antt =====
-- ecma130.go: which bin sectors are scrambled in the .scram file.
use miniscram.Common.{
  ℕ, Bool, true, false, ◌&&◌, ◌||◌, List, [], ◌∷◌, ltb, ◌==◌, if◌then◌else◌, length, take, drop,
  get_or, bytes_equal, ℤ, eqb_ℤ,
}
use miniscram.Layout.{sector_size, sync_len, sync, bcd_msf_to_lba}

-- `isZeroed`.
unfoldable pub is_zeroed : List ℕ → Bool
is_zeroed [] = true
is_zeroed (b ∷ bs) = b == 0 && is_zeroed bs

-- `classifyBinSector`: true when the .scram sector holds the scrambled form.
unfoldable pub classify_bin_sector : List ℕ → ℤ → Bool
unfolding is_zeroed bytes_equal
classify_bin_sector bin expected_lba =
    if ltb (length bin) sector_size
    then false
    else if is_zeroed bin
    then false
    else if eqb_ℤ (bcd_msf_to_lba (get_or bin 12 0, get_or bin 13 0, get_or bin 14 0)) expected_lba
    then true
    else if bytes_equal (take sync_len bin) sync
    then (if get_or bin 15 0 == 1 || get_or bin 15 0 == 2
        then true
        else if get_or bin 15 0 == 0
        then is_zeroed (drop 16 (take sector_size bin))
        else false)
    else false
