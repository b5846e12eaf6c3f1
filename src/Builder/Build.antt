-- ===== src/Builder/Build.antt =====
-- builder.go: `BuildEpsilonHat` and `CheckLayoutMismatch`.
-- The output writer does not fail in this model. `onMismatch` is the list of its calls; both
-- callers pass it whenever they pass a scram.
use miniscram.Common.{
  ℕ, zero, suc, ◌+◌, ◌-◌, ◌*◌, Bool, true, false, not, ◌&&◌, Option, none, some, List, [], ◌∷◌,
  ◌++◌, ltb, leb, length, replicate, if◌then◌else◌, take, drop, read_full, bytes_equal, Result, ok,
  ◌>>=◌, guard, or_err, ℤ, pos, pos_part, neg_part, ◌+ℤ◌, ltb_ℤ, leb_ℤ, add_i32,
}
use miniscram.Layout.{sector_size, total_lbas}
use miniscram.Delta.{Scan, scan_start, flush, scan_bytes}
use miniscram.Ecma.{classify_bin_sector, scramble}
use miniscram.Disc.{Track, is_audio}
use miniscram.Builder.Regions.{
  SessionGap, Region, generate_mode1_zero_sector, generate_leadout_sector, track_mode_at, region_at,
}

abbrev pub error_sectors_list_cap : ℕ
error_sectors_list_cap = 10000

-- `BuildParams`, without the two fields that nothing reads (`BinFirstLBA`, `BinSectorCount`).
pub record BuildParams : Type 0 where
  pub leadin_lba : ℤ
  pub write_offset : ℤ
  pub scram_size : ℤ
  pub tracks : List Track
  pub session_gaps : List SessionGap

-- `panicked` is the panic of `TotalLBAs` or of a slice bound that is negative.
pub data BuildError : Type 0 where
  bad_size : BuildError
  panicked : BuildError
  bin_short : ℤ → BuildError
  advance_short : ℕ → BuildError
  scram_short : ℕ → BuildError

-- The variables of the loop. `scram` is what is left of the file to compare with, if there is
-- one; `scram_cur` is how much of it was read.
pub record BuildState : Type 0 where
  pub bin : List ℕ
  pub scram : Option (List ℕ)
  pub scram_cur : ℕ
  pub skip_first : ℕ
  pub written : ℕ
  pub out : List ℕ
  pub scan : Scan
  pub err_lbas : List ℤ
  pub mismatched : ℕ
  pub pass_throughs : ℕ

abbrev pub zero_sector : List ℕ
zero_sector = replicate 2352 0

unfoldable pub leading_audio : List Track → Bool
leading_audio [] = false
leading_audio (t ∷ ts) = is_audio t.mode

-- The bin sector of an LBA: audio is copied, data is scrambled if the classifier says so. The
-- number is 1 for a data sector that is passed through.
unfoldable pub bin_sector : BuildParams → ℤ → List ℕ → List ℕ × ℕ
bin_sector p lba sec =
    if is_audio (track_mode_at p.tracks lba)
    then (sec, 0)
    else if classify_bin_sector sec lba
    then (scramble sec, 0)
    else (sec, 1)

-- The `switch` over the region: the sector, what is left of the bin, and the pass-through count.
unfoldable pub next_sector : BuildParams → ℤ → List ℕ → Result BuildError (List ℕ × List ℕ × ℕ)
unfolding leading_audio bin_sector
next_sector p lba bin = elim (region_at lba p.tracks p.session_gaps) [
  | Region.leadin ↦ ok (zero_sector, bin, 0)
  | Region.pregap ↦
      ok ((if leading_audio p.tracks then zero_sector else generate_mode1_zero_sector lba), bin, 0)
  | Region.bin ↦ do
    (raw, rest) ← or_err (read_full sector_size bin) (bin_short lba)
    let (sec, passed) = bin_sector p lba raw
    ok (sec, rest, passed)
  | Region.gap_leadout ↦ ok (generate_leadout_sector lba, bin, 0)
  | Region.gap_leadin ↦ ok (zero_sector, bin, 0)
  | Region.gap_pregap ↦ ok (generate_mode1_zero_sector lba, bin, 0)
  | Region.leadout ↦ ok (generate_leadout_sector lba, bin, 0)
]

-- A sector with a mismatch is listed, up to the cap, and counted.
unfoldable pub note_lba : Bool → ℤ → List ℤ → List ℤ
note_lba differs lba es =
    if differs && ltb (length es) error_sectors_list_cap then es ++ (lba ∷ []) else es

unfoldable pub count_if : Bool → ℕ → ℕ
count_if differs n = if differs then n + 1 else n

-- The part under `if scram != nil`: the scram is advanced to `start` and compared with `body`.
unfoldable pub compare_sector : ℤ → ℕ → List ℕ → BuildState → Result BuildError BuildState
unfolding note_lba count_if
compare_sector lba start body st = elim st.scram [
  | none ↦ ok st
  | some s ↦ do
    (skipped, s') ← or_err (read_full (start - st.scram_cur) s) (advance_short start)
    (buf, s'') ← or_err (read_full (length body) s') (scram_short start)
    let differs = not (bytes_equal body buf)
    ok (record st {
      scram = some s'';
      scram_cur = start + length body;
      scan = scan_bytes start body buf st.scan;
      err_lbas = note_lba differs lba st.err_lbas;
      mismatched = count_if differs st.mismatched;
    })
]

-- The sector without the bytes still to be skipped, cut at the end of the file.
unfoldable pub cut_sector : ℕ → ℕ → ℕ → List ℕ → List ℕ
cut_sector size written skip sec =
    let body = drop skip sec in
    if ltb (size - written) (length body) then take (size - written) body else body

-- Behind the `switch`: skip, cut, write and compare. True stops the loop.
unfoldable pub emit_sector : ℕ → ℤ → List ℕ → BuildState → Result BuildError (BuildState × Bool)
unfolding cut_sector
emit_sector size lba sec st = elim (leb (length sec) st.skip_first) [
  | true ↦ ok (record st { skip_first = st.skip_first - length sec }, false)
  | false ↦ do
    _ ← guard (leb st.written size) panicked
    let body = cut_sector size st.written st.skip_first sec
    st' ←
        compare_sector lba st.written body
          (record st { skip_first = 0; written = st.written + length body; out = st.out ++ body })
    ok (st', leb size st'.written)
]

-- One round of the loop.
unfoldable pub build_step : BuildParams → ℕ → ℤ → BuildState → Result BuildError (BuildState × Bool)
build_step p size lba st = do
  (sec, bin', passed) ← next_sector p lba st.bin
  emit_sector size lba sec (record st { bin = bin'; pass_throughs = st.pass_throughs + passed })

-- `for lba := p.LeadinLBA; lba < endLBA; lba++` with `left` addresses to go.
unfoldable pub build_loop : BuildParams → ℕ → ℕ → ℤ → BuildState → Result BuildError BuildState
build_loop p size zero lba st = ok st
build_loop p size (suc left) lba st = do
  (st', stop) ← build_step p size lba st
  elim stop [ true ↦ ok st' | false ↦ build_loop p size left (lba +ℤ pos 1) st' ]

-- The state before the loop: a positive write offset is written as zeros at once, a negative one
-- is skipped from the first sectors.
unfoldable pub build_start : ℤ → List ℕ → Option (List ℕ) → BuildState
build_start offset bin scram = record {
  bin = bin;
  scram = scram;
  scram_cur = 0;
  skip_first = neg_part offset;
  written = pos_part offset;
  out = replicate (pos_part offset) 0;
  scan = scan_start;
  err_lbas = [];
  mismatched = 0;
  pass_throughs = 0;
}

-- What a run leaves: the image, the calls of `onMismatch`, and the three results.
pub record BuildResult : Type 0 where
  pub image : List ℕ
  pub records : List (ℕ × List ℕ)
  pub err_lbas : List ℤ
  pub mismatched : ℕ
  pub pass_throughs : ℕ

unfoldable pub build_result : BuildState → BuildResult
build_result st = record {
  image = st.out;
  records = (flush st.scan).records;
  err_lbas = st.err_lbas;
  mismatched = st.mismatched;
  pass_throughs = st.pass_throughs;
}

-- The number of addresses from `lba` up to `end`.
unfoldable pub lba_rounds : ℤ → ℤ → ℕ
lba_rounds lba end = pos_part end + neg_part lba - (pos_part lba + neg_part end)

-- `BuildEpsilonHat`.
unfoldable pub build_epsilon_hat :
    BuildParams → List ℕ → Option (List ℕ) → Result BuildError BuildResult
build_epsilon_hat p bin scram = do
  _ ← guard (ltb_ℤ (pos 0) p.scram_size) bad_size
  total ← or_err (total_lbas p.scram_size p.write_offset) panicked
  let end = add_i32 p.leadin_lba total
  st ←
      build_loop p (pos_part p.scram_size) (lba_rounds p.leadin_lba end) p.leadin_lba
        (build_start p.write_offset bin scram)
  ok (build_result st)

-- `CheckLayoutMismatch`: the mismatched sectors as a share of all, and the head of the list.
-- The test of the ratio against 0.05 is written over whole numbers, with which the float
-- division agrees for counts below 2^31.
unfoldable pub check_layout_mismatch : List ℤ → ℕ → ℤ → Option (List ℤ)
check_layout_mismatch err_lbas mismatched total =
    if leb_ℤ total (pos 0)
    then none
    else if leb (20 * mismatched) (pos_part total)
    then none
    else some (take 10 err_lbas)
