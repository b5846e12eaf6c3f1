-- ===== src/Layout/RoundTrip.antt =====
-- The two address forms are inverse, and the sector count covers the file.
use miniscram.Common.{
  shifted, le→ltb, neg_part-le, ℕ, ◌+◌, ◌-◌, refl, ◌*◌, ◌/◌, ◌%◌, ◌^◌, ◌≤◌, ◌<◌, ◌≡◌, arith, some,
  ℤ, pos, negsuc, pos_part, neg_part, ◌≤ℤ◌, ◌<ℤ◌, to_i32, to_i32_fits, ap, ◌∙◌, int_laws,
  eq_of_parts, quot-pos, rem-pos, pos-+ℤ-pos, pos-*ℤ, pos--ℤ-pos, ◌+ℤ◌, ◌-ℤ◌,
}
use miniscram.Layout.{bcd_decode, bcd_msf_to_lba, enc, lba_to_bcd_msf, sector_size, total_lbas}

-- `b` is a byte of two decimal digits.
abbrev pub IsBcd : ℕ → Type 0
IsBcd b = (b / 16 ≤ 9) × (b % 16 ≤ 9)

enc-pos : (n : ℕ) → n < 100 → enc (pos n) ≡ n / 10 * 16 + n % 10
unfolding enc
enc-pos n h = simp (quot-pos, rem-pos, pos-+ℤ-pos, rem-pos, pos-*ℤ, pos-+ℤ-pos) (omega arith)

enc-IsBcd : (n : ℕ) → n < 100 → IsBcd (enc (pos n))
enc-IsBcd n h = rw (enc-pos n h) (omega arith)

bcd_decode-enc : (n : ℕ) → n < 100 → bcd_decode (enc (pos n)) ≡ n
unfolding bcd_decode
bcd_decode-enc n h = rw (enc-pos n h) (omega arith)

-- The three numbers of the header, for an address `v` frames after -150.
to_msf :
    (v : ℕ)
    → v < 445500
    → lba_to_bcd_msf (pos v -ℤ pos 150)
      ≡ (enc (pos (v / 4500)), enc (pos (v % 4500 / 75)), enc (pos (v % 75)))
unfolding lba_to_bcd_msf
to_msf v h =
    let back : to_i32 (pos v -ℤ pos 150 +ℤ pos 150) ≡ pos v =
      ap to_i32 (eq_of_parts _ (pos v) (omega int_laws)) ∙ to_i32_fits (pos v) (omega arith) in
    let minutes : pos v -ℤ pos (v / 4500 * 60 * 75) ≡ pos (v % 4500) =
      pos--ℤ-pos v _ (omega arith) ∙ ap pos (omega arith) in
    let seconds : pos (v % 4500) -ℤ pos (v % 4500 / 75 * 75) ≡ pos (v % 75) =
      pos--ℤ-pos (v % 4500) _ (omega arith) ∙ ap pos (omega arith) in
    simp (back, quot-pos, rem-pos, pos-+ℤ-pos, pos-*ℤ, minutes, seconds)

from_msf :
    (m s f : ℕ)
    → m < 100
    → s < 100
    → f < 100
    → bcd_msf_to_lba (enc (pos m), enc (pos s), enc (pos f))
      ≡ pos (75 * (60 * m + s) + f) -ℤ pos 150
unfolding bcd_msf_to_lba
from_msf m s f hm hs hf =
    rw (bcd_decode-enc m hm, bcd_decode-enc s hs, bcd_decode-enc f hf)
      (to_i32_fits _ (omega int_laws))

abbrev pub AllBcd : ℕ × ℕ × ℕ → Type 0
AllBcd (m, s, f) = IsBcd m × IsBcd s × IsBcd f

-- For every address from -150 up to the last frame of minute 98, the header that `LBAToBCDMSF`
-- writes is valid BCD and `BCDMSFToLBA` reads the address back.
pub bcd_msf_to_lba-lba_to_bcd_msf :
    (lba : ℤ)
    → negsuc 149 ≤ℤ lba
    → lba <ℤ pos 445350
    → AllBcd (lba_to_bcd_msf lba) × (bcd_msf_to_lba (lba_to_bcd_msf lba) ≡ lba)
bcd_msf_to_lba-lba_to_bcd_msf lba lo hi =
    let (v, e, parts) = shifted 150 lba (neg_part-le 150 lba (omega arith)) in
    let small : v < 445500 = omega arith in
    rw (e, to_msf v small)
      (
        (
          enc-IsBcd (v / 4500) (omega arith),
          enc-IsBcd (v % 4500 / 75) (omega arith),
          enc-IsBcd (v % 75) (omega arith),
        ),
        from_msf (v / 4500) (v % 4500 / 75) (v % 75) (omega arith) (omega arith) (omega arith)
            ∙ ap (λ (t : ℕ). pos t -ℤ pos 150) (omega arith),
      )

-- When the size is above the write offset, and it is less than 2^40 together with the amount of a
-- negative offset, `TotalLBAs` does not panic, and its count is the least number of sectors that
-- covers the file behind the offset.
pub total_lbas_covers :
    (size : ℕ) (offset : ℤ)
    → pos_part offset < size
    → size + neg_part offset < 2 ^ 40
    → (n : ℕ) × (total_lbas (pos size) offset ≡ some (pos n))
      × (size + neg_part offset ≤ n * sector_size + pos_part offset)
      × (n * sector_size + pos_part offset < size + neg_part offset + sector_size)
unfolding total_lbas
total_lbas_covers size offset h small =
    let w : ℕ = size + neg_part offset - pos_part offset + 2351 in
    let e : pos size -ℤ offset +ℤ pos 2352 -ℤ pos 1 ≡ pos w =
      eq_of_parts _ (pos w) (omega int_laws) in
    (
      w / 2352,
      rw (e, le→ltb (w + 0) 0 (omega arith), to_i32_fits (pos (w / 2352)) (omega arith)) refl,
      omega arith,
      omega arith,
    )
