-- ===== src/Ecma/Check.antt =====
-- The error detection code of a sector: the checksum of a prefix followed by its code is zero.
use miniscram.Common.{
  ℕ, zero, suc, ◌≤◌, ◌<◌, ◌≡◌, refl, ap, ◌∙◌, arith, List, [], ◌∷◌, ◌++◌, ◌/◌, ◌%◌, ◌^◌, ◌+◌,
  xor_self, xor-zero, xor-lt-pow, get_or,
}
use miniscram.Ecma.Edc.{
  edc_shift, edc_entry, edc_entries, edc_table, edc_update, crc_bytes, compute_edc,
}

edc_shift-lt : (c : ℕ) → c < 2 ^ 32 → edc_shift c < 2 ^ 32
unfolding edc_shift
edc_shift-lt c h = xor-lt-pow 32 (c / 2) _ (omega arith) (ground arith)

edc_entry-lt : (n c : ℕ) → c < 2 ^ 32 → edc_entry n c < 2 ^ 32
unfolding edc_entry
edc_entry-lt zero c h = h
edc_entry-lt (suc n) c h = edc_entry-lt n (edc_shift c) (edc_shift-lt c h)

edc_entries-lt : (n i k : ℕ) → i + n ≤ 2 ^ 32 → get_or (edc_entries n i) k 0 < 2 ^ 32
unfolding edc_entries
edc_entries-lt zero i k h = omega arith
edc_entries-lt (suc n) i zero h = edc_entry-lt 8 i (omega arith)
edc_entries-lt (suc n) i (suc k) h = edc_entries-lt n (i + 1) k (omega arith)

edc_table-lt : (k : ℕ) → get_or edc_table k 0 < 2 ^ 32
unfolding edc_table
edc_table-lt k = edc_entries-lt 256 0 k (omega arith)

edc_update-lt : (crc b : ℕ) → crc < 2 ^ 32 → edc_update crc b < 2 ^ 32
unfolding edc_update
edc_update-lt crc b h = xor-lt-pow 32 (crc / 256) _ (omega arith) (edc_table-lt _)

crc_bytes-lt : (crc : ℕ) (bs : List ℕ) → crc < 2 ^ 32 → crc_bytes crc bs < 2 ^ 32
unfolding crc_bytes
crc_bytes-lt crc [] h = h
crc_bytes-lt crc (b ∷ bs) h = crc_bytes-lt (edc_update crc b) bs (edc_update-lt crc b h)

crc_bytes-append :
    (crc : ℕ) (xs bs : List ℕ) → crc_bytes crc (xs ++ bs) ≡ crc_bytes (crc_bytes crc xs) bs
unfolding crc_bytes
crc_bytes-append crc [] bs = refl
crc_bytes-append crc (a ∷ xs) bs = crc_bytes-append (edc_update crc a) xs bs

first_entry : get_or edc_table 0 0 ≡ 0
unfolding edc_table edc_entries edc_entry edc_shift
first_entry = refl

-- A register's own low byte shifts it out.
edc_update-low : (crc : ℕ) → edc_update crc (crc % 256) ≡ crc / 256
unfolding edc_update
edc_update-low crc = rw (xor_self (crc % 256), first_entry) (xor-zero (crc / 256))

edc_update-at : (crc b : ℕ) → b ≡ crc % 256 → edc_update crc b ≡ crc / 256
edc_update-at crc b e = ap (edc_update crc) e ∙ edc_update-low crc

own_bytes :
    (c : ℕ)
    → c < 2 ^ 32
    → crc_bytes c ((c % 256) ∷ (c / 256 % 256) ∷ (c / 65536 % 256) ∷ (c / 16777216 % 256) ∷ []) ≡ 0
unfolding crc_bytes
own_bytes c h =
    rw
      (
        edc_update-low c,
        edc_update-low (c / 256),
        edc_update-at (c / 256 / 256) (c / 65536 % 256) (omega arith),
        edc_update-at (c / 256 / 256 / 256) (c / 16777216 % 256) (omega arith),
      )
      (omega arith)

-- Any bytes followed by the four that `ComputeEDC` makes of them have the checksum zero.
pub crc_bytes-compute_edc : (prefix : List ℕ) → crc_bytes 0 (prefix ++ compute_edc prefix) ≡ 0
unfolding compute_edc
crc_bytes-compute_edc prefix =
    crc_bytes-append 0 prefix (compute_edc prefix)
    ∙ own_bytes (crc_bytes 0 prefix) (crc_bytes-lt 0 prefix (omega arith))
