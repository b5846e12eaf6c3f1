-- ===== src/Pack/Header.antt =====
-- pack.go: what `decodeBCDLBA` has read when it gives an address.
use miniscram.Common.{
  ℕ, ◌+◌, ◌≤◌, ◌≡◌, refl, sym, ◌∙◌, arith, Bool, true, false, ◌||◌, not, none, some, List, [], ◌∷◌,
  length, take, drop, length-take, get_or, ltb, read_full-le, length-drop, ℤ, pos, ltb_ℤ,
  Bool-cases, inl, inr,
}
use miniscram.Layout.{bcd_msf_to_lba}
use miniscram.Pack.Sync.{is_bcd, mask, mask-mask, masked_header, checked_lba, decode_bcd_lba}

-- Behind the sync field at `k` stands the address of an LBA: three BCD bytes under the keystream.
abbrev pub HasHeader : List ℕ → ℕ → ℤ → Type 0
HasHeader file k lba =
    (b0 b1 b2 : ℕ) × (take 3 (drop (k + 12) file) ≡ masked_header (b0, b1, b2))
    × (is_bcd b0 ≡ true)
    × (is_bcd b1 ≡ true)
    × (is_bcd b2 ≡ true)
    × (bcd_msf_to_lba (b0, b1, b2) ≡ lba)

-- What passes the tests of an address.
checked_lba-eq :
    (leadin lba : ℤ) (b0 b1 b2 : ℕ)
    → checked_lba leadin (b0, b1, b2) ≡ some lba
    → (is_bcd b0 ≡ true)
      × (is_bcd b1 ≡ true)
      × (is_bcd b2 ≡ true)
      × (bcd_msf_to_lba (b0, b1, b2) ≡ lba)
unfolding checked_lba
checked_lba-eq leadin lba b0 b1 b2 e =
    let v = bcd_msf_to_lba (b0, b1, b2) in
    elim (Bool-cases (not (is_bcd b0) || not (is_bcd b1) || not (is_bcd b2))) [
      | inl bad ↦
          let refused : checked_lba leadin (b0, b1, b2) ≡ none = rw (bad, checked_lba) refl in
          let no : none ≡ some lba = sym refused ∙ e in absurd cc
      | inr good ↦ elim (Bool-cases (ltb_ℤ v leadin || ltb_ℤ (pos 500000) v)) [
        | inl outside ↦
            let refused : checked_lba leadin (b0, b1, b2) ≡ none =
              rw (good, outside, checked_lba) refl in
            let no : none ≡ some lba = sym refused ∙ e in absurd cc
        | inr inside ↦
            let taken : checked_lba leadin (b0, b1, b2) ≡ some v =
              rw (good, inside, checked_lba) refl in
            let both : some v ≡ some lba = sym taken ∙ e in
            let same : v ≡ lba = cc in
            let (x, y, z) = all_bcd (is_bcd b0) (is_bcd b1) (is_bcd b2) good in (x, y, z, same)
      ]
    ]
  where
    all_bcd :
        (x y z : Bool) → (not x || not y || not z) ≡ false → (x ≡ true) × (y ≡ true) × (z ≡ true)
    all_bcd true true true h = (refl, refl, refl)
    all_bcd true true false h = absurd cc
    all_bcd true false z h = absurd cc
    all_bcd false y z h = absurd cc

three_bytes :
    (xs : List ℕ) → length xs ≡ 3 → xs ≡ get_or xs 0 0 ∷ get_or xs 1 0 ∷ get_or xs 2 0 ∷ []
three_bytes [] h = absurd (omega arith)
three_bytes (a ∷ []) h = absurd (omega arith)
three_bytes (a ∷ b ∷ []) h = absurd (omega arith)
three_bytes (a ∷ b ∷ c ∷ []) h = refl
three_bytes (a ∷ b ∷ c ∷ d ∷ xs) h = absurd (omega arith)

-- The three bytes are the masked header of the same bytes without the mask.
unmasked :
    (xs : List ℕ)
    → length xs ≡ 3
    → xs ≡ masked_header (mask 0 (get_or xs 0 0), mask 1 (get_or xs 1 0), mask 2 (get_or xs 2 0))
unmasked xs h =
    rw (mask-mask 0 (get_or xs 0 0), mask-mask 1 (get_or xs 1 0), mask-mask 2 (get_or xs 2 0))
      (three_bytes xs h)

pub decode_bcd_lba-HasHeader :
    (file : List ℕ) (k : ℕ) (leadin lba : ℤ)
    → decode_bcd_lba file k leadin (length file) ≡ some lba
    → HasHeader file k lba
unfolding decode_bcd_lba
decode_bcd_lba-HasHeader file k leadin lba e = elim (Bool-cases (ltb (length file) (k + 12 + 3))) [
  | inl short ↦
      let missing : decode_bcd_lba file k leadin (length file) ≡ none =
        rw (short, decode_bcd_lba) refl in
      let no : none ≡ some lba = sym missing ∙ e in absurd cc
  | inr enough ↦
      let header = take 3 (drop (k + 12) file) in
      let long : k + 15 ≤ length file = ground arith in
      let three : length header ≡ 3 =
        omega (arith, length-take 3 (drop (k + 12) file), length-drop (k + 12) file) in
      let read : decode_bcd_lba file k leadin (length file)
          ≡ checked_lba leadin
              (mask 0 (get_or header 0 0), mask 1 (get_or header 1 0), mask 2 (get_or header 2 0)) =
        rw
          (
            enough,
            read_full-le 3 (drop (k + 12) file) (omega (arith, length-drop (k + 12) file)),
            decode_bcd_lba,
          )
          refl in
      let (x, y, z, same) = checked_lba-eq leadin lba _ _ _ (sym read ∙ e) in
      (
        mask 0 (get_or header 0 0),
        mask 1 (get_or header 1 0),
        mask 2 (get_or header 2 0),
        unmasked header three,
        x,
        y,
        z,
        same,
      )
]
