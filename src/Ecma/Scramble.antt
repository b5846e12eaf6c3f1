-- ===== src/Ecma/Scramble.antt =====
-- ecma130.go, clause 15 and Annex B: the keystream and the scrambler.
use miniscram.Common.{
  ℕ, zero, suc, ◌*◌, ◌/◌, ◌%◌, ◌^◌, bit_and, bit_or, bit_xor, List, [], ◌∷◌, ◌++◌, take, drop,
  replicate,
}
use miniscram.Layout.{sync_len}

-- The inner loop of `buildScrambleTable`, one bit: the register is a uint16.
unfoldable pub lfsr_bit : ℕ → ℕ
lfsr_bit r =
    let carry = bit_xor (bit_and r 1) (bit_and (r / 2) 1) in bit_or (carry * 2 ^ 15 % 2 ^ 16) r / 2

unfoldable pub lfsr_byte : ℕ → ℕ → ℕ
lfsr_byte zero r = r
lfsr_byte (suc n) r = lfsr_byte n (lfsr_bit r)

-- The outer loop: `n` bytes of the table from the register `r` on.
unfoldable pub keystream : ℕ → ℕ → List ℕ
unfolding lfsr_bit lfsr_byte
keystream zero r = []
keystream (suc n) r = (r % 256) ∷ keystream n (lfsr_byte 8 r)

-- `buildScrambleTable`: zeros under the sync field, then the keystream up to 2352 bytes.
unfoldable pub scramble_table : List ℕ
unfolding keystream
scramble_table = replicate 12 0 ++ keystream 2340 1

unfoldable pub xor_bytes : List ℕ → List ℕ → List ℕ
xor_bytes [] ks = []
xor_bytes (b ∷ bs) [] = []
xor_bytes (b ∷ bs) (k ∷ ks) = bit_xor b k ∷ xor_bytes bs ks

-- `Scramble`: from byte 12 on each byte is combined with the table's.
unfoldable pub scramble : List ℕ → List ℕ
unfolding xor_bytes
scramble sector =
    take sync_len sector ++ xor_bytes (drop sync_len sector) (drop sync_len scramble_table)
