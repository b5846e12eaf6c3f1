-- ===== src/Builder/Sectors.antt =====
-- Each round of `BuildEpsilonHat` takes a whole sector.
use miniscram.Common.{
  ℕ, ◌+◌, ◌*◌, ◌≤◌, ◌≡◌, refl, ◌∙◌, arith, List, ◌++◌, length, take, drop, Result, ok, read_full-le,
  ℤ, length-take, length-drop, length-append, length-replicate, replicate, if◌then◌else◌,
}
use miniscram.Ecma.{compute_edc, compute_ecc}
use miniscram.Ecma.Lengths.{length-scramble, length-compute_ecc}
use miniscram.Builder.Regions.{
  Region, mode1_head, generate_mode1_zero_sector, generate_leadout_sector, region_at,
}
use miniscram.Builder.Build.{BuildParams, BuildError, bin_sector, leading_audio, next_sector}

length-compute_edc : (bs : List ℕ) → length (compute_edc bs) ≡ 4
unfolding compute_edc
length-compute_edc bs = refl

length-generate_leadout_sector : (lba : ℤ) → length (generate_leadout_sector lba) ≡ 2352
length-generate_leadout_sector lba =
    unfold generate_leadout_sector in length-scramble _ (omega arith)

-- A head of 2064 bytes, the EDC and the room for the ECC.
length-sector :
    (head edc : List ℕ)
    → length head ≡ 2064
    → length edc ≡ 4
    → length (head ++ (edc ++ replicate 284 0)) ≡ 2352
length-sector head edc h k = omega (
  arith,
  length-append head (edc ++ replicate 284 0),
  length-append edc (replicate 284 0),
  length-replicate {A = ℕ} 284 0,
)

length-mode1_head : (lba : ℤ) → length (mode1_head lba) ≡ 2064
unfolding mode1_head
length-mode1_head lba = refl

length-generate_mode1_zero_sector : (lba : ℤ) → length (generate_mode1_zero_sector lba) ≡ 2352
length-generate_mode1_zero_sector lba =
    let head : List ℕ = mode1_head lba in
    let coded : length (compute_ecc (head ++ (compute_edc head ++ replicate 284 0))) ≡ 2352 =
      length-compute_ecc _
        (length-sector head (compute_edc head) (length-mode1_head lba) (length-compute_edc head)) in
    unfold generate_mode1_zero_sector in (length-scramble _ (omega (arith, coded)) ∙ coded)

length-bin_sector :
    (p : BuildParams) (lba : ℤ) (sec : List ℕ)
    → length sec ≡ 2352
    → length (bin_sector p lba sec).0 ≡ 2352
unfolding bin_sector
length-bin_sector p lba sec h = ground (arith, length-scramble sec (omega arith))

abbrev pub is_bin : Region → ℕ
is_bin Region.bin = 1
is_bin _ = 0

-- Every sector that the loop takes is whole, and only a bin sector takes bytes from the bin.
pub record IsNext (taken : ℕ) (bin : List ℕ) (r : Result BuildError (List ℕ × List ℕ × ℕ))
    : Type 0 where
  pub sec : List ℕ
  pub rest : List ℕ
  pub passed : ℕ
  pub returns : r ≡ ok (sec, rest, passed)
  pub whole : length sec ≡ 2352
  pub left : length rest + 2352 * taken ≡ length bin

pub next_sector-IsNext :
    (p : BuildParams) (lba : ℤ) (bin : List ℕ) (r : Region)
    → region_at lba p.tracks p.session_gaps ≡ r
    → 2352 * is_bin r ≤ length bin
    → IsNext (is_bin r) bin (next_sector p lba bin)
unfolding next_sector
next_sector-IsNext p lba bin Region.leadin e h = record {
  sec = replicate 2352 0;
  rest = bin;
  passed = 0;
  returns = rw (e, next_sector) refl;
  whole = length-replicate {A = ℕ} 2352 0;
  left = omega arith;
}
next_sector-IsNext p lba bin Region.bin e h = record {
  sec = (bin_sector p lba (take 2352 bin)).0;
  rest = drop 2352 bin;
  passed = (bin_sector p lba (take 2352 bin)).1;
  returns = rw (e, next_sector) (rw (read_full-le 2352 bin h) refl);
  whole = length-bin_sector p lba (take 2352 bin) (omega (arith, length-take 2352 bin));
  left = omega (arith, length-drop 2352 bin);
}
next_sector-IsNext p lba bin Region.pregap e h = record {
  sec = if leading_audio p.tracks then replicate 2352 0 else generate_mode1_zero_sector lba;
  rest = bin;
  passed = 0;
  returns = rw (e, next_sector) refl;
  whole = ground (arith, length-replicate {A = ℕ} 2352 0, length-generate_mode1_zero_sector lba);
  left = omega arith;
}
next_sector-IsNext p lba bin Region.gap_leadout e h = record {
  sec = generate_leadout_sector lba;
  rest = bin;
  passed = 0;
  returns = rw (e, next_sector) refl;
  whole = length-generate_leadout_sector lba;
  left = omega arith;
}
next_sector-IsNext p lba bin Region.gap_leadin e h = record {
  sec = replicate 2352 0;
  rest = bin;
  passed = 0;
  returns = rw (e, next_sector) refl;
  whole = length-replicate {A = ℕ} 2352 0;
  left = omega arith;
}
next_sector-IsNext p lba bin Region.gap_pregap e h = record {
  sec = generate_mode1_zero_sector lba;
  rest = bin;
  passed = 0;
  returns = rw (e, next_sector) refl;
  whole = length-generate_mode1_zero_sector lba;
  left = omega arith;
}
next_sector-IsNext p lba bin Region.leadout e h = record {
  sec = generate_leadout_sector lba;
  rest = bin;
  passed = 0;
  returns = rw (e, next_sector) refl;
  whole = length-generate_leadout_sector lba;
  left = omega arith;
}
