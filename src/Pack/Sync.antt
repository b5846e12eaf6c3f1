-- ===== src/Pack/Sync.antt =====
-- pack.go: `decodeBCDLBA` and `validateSyncCandidate`. The file is the list of its bytes.
use miniscram.Common.{
  ℕ, ◌+◌, ◌/◌, ◌%◌, ◌≤◌, ◌≡◌, arith, Bool, true, false, not, ◌&&◌, ◌||◌, Option, none, some, List,
  [], ◌∷◌, bit_xor, xor_cancel, length, take, drop, get_or, ltb, leb, read_full, read_full-le,
  length-drop, if◌then◌else◌, ℤ, pos, negsuc, ◌-ℤ◌, ◌*ℤ◌, ◌≤ℤ◌, ◌<ℤ◌, ltb_ℤ, eqb_ℤ, rem, sub_i32,
  to_i32_fits, FitsI32, le→ltb,
}
use miniscram.Layout.{sync_len, sector_size, bcd_msf_to_lba, lba_to_bcd_msf}
use miniscram.Layout.RoundTrip.{IsBcd, AllBcd, bcd_msf_to_lba-lba_to_bcd_msf}
use miniscram.Ecma.{scramble_table}

unfoldable pub is_bcd : ℕ → Bool
is_bcd b = leb (b / 16) 9 && leb (b % 16) 9

-- One header byte under the keystream; the same in both directions.
unfoldable pub mask : ℕ → ℕ → ℕ
mask i b = bit_xor b (get_or scramble_table (sync_len + i) 0)

-- The tests behind the descrambled header.
unfoldable pub checked_lba : ℤ → ℕ × ℕ × ℕ → Option ℤ
unfolding is_bcd
checked_lba leadin (b0, b1, b2) =
    if not (is_bcd b0) || not (is_bcd b1) || not (is_bcd b2)
    then none
    else if ltb_ℤ (bcd_msf_to_lba (b0, b1, b2)) leadin
        || ltb_ℤ (pos 500000) (bcd_msf_to_lba (b0, b1, b2))
    then none
    else some (bcd_msf_to_lba (b0, b1, b2))

-- `decodeBCDLBA`.
unfoldable pub decode_bcd_lba : List ℕ → ℕ → ℤ → ℕ → Option ℤ
unfolding mask checked_lba
decode_bcd_lba file sync_off leadin size = elim (ltb size (sync_off + sync_len + 3)) [
  | true ↦ none
  | false ↦ elim (read_full 3 (drop (sync_off + sync_len) file)) [
    | none ↦ none
    | some (header, rest) ↦
        checked_lba leadin
          (mask 0 (get_or header 0 0), mask 1 (get_or header 1 0), mask 2 (get_or header 2 0))
  ]
]

-- The tests of the implied write offset.
unfoldable pub checked_offset : ℤ → Option ℤ
checked_offset wo =
    if not (eqb_ℤ (rem wo 4) (pos 0))
    then none
    else if ltb_ℤ (pos 4704) wo || ltb_ℤ wo (negsuc 4703)
    then none
    else some wo

-- `validateSyncCandidate`.
unfoldable pub validate_sync_candidate : List ℕ → ℕ → ℤ → ℕ → Option ℤ
unfolding checked_offset
validate_sync_candidate file sync_off leadin size =
    elim (decode_bcd_lba file sync_off leadin size) [
      | none ↦ none
      | some lba ↦ checked_offset (pos sync_off -ℤ sub_i32 lba leadin *ℤ sector_size)
    ]

pub mask-mask : (i b : ℕ) → mask i (mask i b) ≡ b
unfolding mask
mask-mask i b = xor_cancel b (get_or scramble_table (sync_len + i) 0)

IsBcd-is_bcd : (b : ℕ) → IsBcd b → is_bcd b ≡ true
unfolding is_bcd
IsBcd-is_bcd b h = ground arith

checked_lba-ok :
    (leadin lba : ℤ) (b0 b1 b2 : ℕ)
    → AllBcd (b0, b1, b2)
    → bcd_msf_to_lba (b0, b1, b2) ≡ lba
    → leadin ≤ℤ lba
    → lba <ℤ pos 445350
    → checked_lba leadin (b0, b1, b2) ≡ some lba
unfolding checked_lba
checked_lba-ok leadin lba b0 b1 b2 h e low high =
    rw (IsBcd-is_bcd b0 h.0, IsBcd-is_bcd b1 h.1, IsBcd-is_bcd b2 h.2, e) (ground arith)

-- The header bytes of an address, as they stand in a scram.
abbrev pub masked_header : ℕ × ℕ × ℕ → List ℕ
masked_header (b0, b1, b2) = mask 0 b0 ∷ mask 1 b1 ∷ mask 2 b2 ∷ []

decode_bcd_lba-masked :
    (file : List ℕ) (sync_off : ℕ) (leadin lba : ℤ) (b0 b1 b2 : ℕ)
    → sync_off + 15 ≤ length file
    → take 3 (drop (sync_off + 12) file) ≡ masked_header (b0, b1, b2)
    → checked_lba leadin (b0, b1, b2) ≡ some lba
    → decode_bcd_lba file sync_off leadin (length file) ≡ some lba
unfolding decode_bcd_lba
decode_bcd_lba-masked file sync_off leadin lba b0 b1 b2 h e accepted =
    rw
      (
        le→ltb (length file) (sync_off + 12 + 3) (omega arith),
        read_full-le 3 (drop (sync_off + 12) file)
            (omega (arith, length-drop (sync_off + 12) file)),
        e,
        mask-mask 0 b0,
        mask-mask 1 b1,
        mask-mask 2 b2,
        decode_bcd_lba,
      )
      accepted

checked_offset-ok :
    (wo : ℤ) → rem wo 4 ≡ pos 0 → wo ≤ℤ pos 4704 → negsuc 4703 ≤ℤ wo → checked_offset wo ≡ some wo
unfolding checked_offset
checked_offset-ok wo e high low = rw e (ground arith)

-- A sync field in a scram whose header is the scrambled address of an LBA from the lead-in on (at
-- least -150 and before minute 99) is accepted with the write offset that puts the sector there,
-- if that is a multiple of four within two sectors.
pub validate_sync_candidate-masked_header :
    (file : List ℕ) (sync_off : ℕ) (leadin lba wo : ℤ)
    → sync_off + 15 ≤ length file
    → take 3 (drop (sync_off + 12) file) ≡ masked_header (lba_to_bcd_msf lba)
    → negsuc 149 ≤ℤ lba
    → lba <ℤ pos 445350
    → leadin ≤ℤ lba
    → FitsI32 (lba -ℤ leadin)
    → pos sync_off -ℤ (lba -ℤ leadin) *ℤ sector_size ≡ wo
    → rem wo 4 ≡ pos 0
    → wo ≤ℤ pos 4704
    → negsuc 4703 ≤ℤ wo
    → validate_sync_candidate file sync_off leadin (length file) ≡ some wo
unfolding sub_i32 validate_sync_candidate
validate_sync_candidate-masked_header file sync_off leadin lba wo h e low high start fits place
      aligned most least =
    let (bcd, back) = bcd_msf_to_lba-lba_to_bcd_msf lba low high in
    let found : decode_bcd_lba file sync_off leadin (length file) ≡ some lba =
      decode_bcd_lba-masked file sync_off leadin lba (lba_to_bcd_msf lba).0 (lba_to_bcd_msf lba).1
        (lba_to_bcd_msf lba).2 h e (checked_lba-ok leadin lba _ _ _ bcd back start high) in
    let distance : sub_i32 lba leadin ≡ lba -ℤ leadin = to_i32_fits (lba -ℤ leadin) fits in
    rw (found, distance, place, validate_sync_candidate) (checked_offset-ok wo aligned most least)
