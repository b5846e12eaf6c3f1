-- ===== src/Chunks/Crc.antt =====
-- `hash/crc32` with the IEEE table, as `crc32.New` computes it: a reflected table CRC whose
-- register is inverted before and after.
use miniscram.Common.{
  ℕ, zero, suc, ◌-◌, ◌/◌, ◌%◌, ◌^◌, ◌<◌, ◌≡◌, refl, arith, bit_and, bit_xor, List, [], ◌∷◌, ◌==◌,
  if◌then◌else◌, xor-lt-pow,
}

abbrev ieee : ℕ
ieee = 0xedb88320

unfoldable crc_shift : ℕ → ℕ
crc_shift c = bit_xor (c / 2) (if bit_and c 1 == 0 then 0 else ieee)

unfoldable crc_entry : ℕ → ℕ → ℕ
crc_entry zero c = c
crc_entry (suc n) c = crc_entry n (crc_shift c)

-- The table's entry is computed where it is used.
unfoldable crc_update : ℕ → List ℕ → ℕ
unfolding crc_shift crc_entry
crc_update c [] = c
crc_update c (b ∷ bs) = crc_update (bit_xor (c / 256) (crc_entry 8 (bit_xor c b % 256))) bs

unfoldable pub crc32 : List ℕ → ℕ
unfolding crc_update
crc32 bs = bit_xor (crc_update (2 ^ 32 - 1) bs) (2 ^ 32 - 1)

crc_shift-lt : (c : ℕ) → c < 2 ^ 32 → crc_shift c < 2 ^ 32
unfolding crc_shift
crc_shift-lt c h = xor-lt-pow 32 (c / 2) _ (omega arith) (ground arith)

crc_entry-lt : (n c : ℕ) → c < 2 ^ 32 → crc_entry n c < 2 ^ 32
unfolding crc_entry
crc_entry-lt zero c h = h
crc_entry-lt (suc n) c h = crc_entry-lt n (crc_shift c) (crc_shift-lt c h)

crc_update-lt : (c : ℕ) (bs : List ℕ) → c < 2 ^ 32 → crc_update c bs < 2 ^ 32
unfolding crc_update
crc_update-lt c [] h = h
crc_update-lt c (b ∷ bs) h =
    crc_update-lt (bit_xor (c / 256) (crc_entry 8 (bit_xor c b % 256))) bs
      (xor-lt-pow 32 (c / 256) _ (omega arith) (crc_entry-lt 8 (bit_xor c b % 256) (omega arith)))

-- The checksum is a uint32.
pub crc32-lt : (bs : List ℕ) → crc32 bs < 2 ^ 32
unfolding crc32
crc32-lt bs =
    xor-lt-pow 32 (crc_update (2 ^ 32 - 1) bs) (2 ^ 32 - 1)
      (crc_update-lt (2 ^ 32 - 1) bs (omega arith)) (omega arith)

-- The check value of the CRC-32 catalogue, for "123456789".
check_value : crc32 (49 ∷ 50 ∷ 51 ∷ 52 ∷ 53 ∷ 54 ∷ 55 ∷ 56 ∷ 57 ∷ []) ≡ 0xcbf43926
unfolding crc32 crc_update crc_entry crc_shift
check_value = refl
