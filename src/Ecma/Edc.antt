-- ===== src/Ecma/Edc.antt =====
-- ecma130.go, clause 14.3: the error detection code, a reflected table CRC.
use miniscram.Common.{
  ℕ, zero, suc, ◌/◌, ◌%◌, ◌+◌, bit_and, bit_xor, List, [], ◌∷◌, ◌==◌, if◌then◌else◌, get_or,
}

abbrev pub edc_poly : ℕ
edc_poly = 0xd8018001

-- One round of the inner loop of `buildEDCTable`.
unfoldable pub edc_shift : ℕ → ℕ
edc_shift c = bit_xor (c / 2) (if bit_and c 1 == 0 then 0 else edc_poly)

unfoldable pub edc_entry : ℕ → ℕ → ℕ
edc_entry zero c = c
edc_entry (suc n) c = edc_entry n (edc_shift c)

-- The table's entries from `i` on.
unfoldable pub edc_entries : ℕ → ℕ → List ℕ
edc_entries zero i = []
edc_entries (suc n) i = edc_entry 8 i ∷ edc_entries n (i + 1)

-- `buildEDCTable`.
unfoldable pub edc_table : List ℕ
unfolding edc_entries edc_entry edc_shift
edc_table = edc_entries 256 0

-- One byte of the loop of `ComputeEDC`.
unfoldable pub edc_update : ℕ → ℕ → ℕ
edc_update crc b = bit_xor (crc / 256) (get_or edc_table (bit_xor (crc % 256) b) 0)

unfoldable pub crc_bytes : ℕ → List ℕ → ℕ
crc_bytes crc [] = crc
crc_bytes crc (b ∷ bs) = crc_bytes (edc_update crc b) bs

-- `ComputeEDC`: the four bytes in little-endian order.
unfoldable pub compute_edc : List ℕ → List ℕ
compute_edc prefix =
    let crc = crc_bytes 0 prefix in
    (crc % 256) ∷ (crc / 256 % 256) ∷ (crc / 65536 % 256) ∷ (crc / 16777216 % 256) ∷ []
