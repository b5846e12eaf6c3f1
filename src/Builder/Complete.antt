-- ===== src/Builder/Complete.antt =====
-- `BuildEpsilonHat` succeeds, and its image has the size of the scram.
use miniscram.Common.{
  ℕ, zero, suc, ◌+◌, ◌-◌, ◌*◌, ◌^◌, ◌≤◌, ◌<◌, ◌≡◌, refl, ap, ◌∙◌, arith, Bool, true, none, some,
  inl, inr, List, length, drop, Bool-cases, ok, ℤ, add_i32, pos, ◌+ℤ◌, pos_part, neg_part,
  length-take, length-drop, length-append, length-replicate, to_i32, to_i32_fits, int_laws,
}
use miniscram.Layout.{total_lbas}
use miniscram.Layout.RoundTrip.{total_lbas_covers}
use miniscram.Builder.Regions.{region_at}
use miniscram.Builder.Build.{
  BuildParams, BuildState, BuildResult, next_sector, build_loop, build_start, build_result,
  build_epsilon_hat, lba_rounds, build_step, cut_sector,
}
use miniscram.Builder.Sectors.{is_bin, IsNext, next_sector-IsNext}
use miniscram.Builder.Beside.{emitted, wrote, skipped, emit_sector_alone}
use miniscram.Builder.RoundTrip.{build_epsilon_hat-ok, emitted-le}

-- The number of bin sectors among `left` addresses from `lba` on.
abbrev pub bin_needed : BuildParams → ℕ → ℤ → ℕ
bin_needed p zero lba = 0
bin_needed p (suc left) lba =
    is_bin (region_at lba p.tracks p.session_gaps) + bin_needed p left (lba +ℤ pos 1)

-- What is still to be skipped and written.
abbrev to_go : ℕ → BuildState → ℕ
to_go size st = st.skip_first + (size - st.written)

record IsEmitted (size : ℕ) (st st' : BuildState) (stop : Bool) : Type 0 where
  all_out : length st'.out ≡ st'.written
  shrinks : to_go size st' ≤ to_go size st - 2352
  full : stop ≡ true → size ≤ st'.written
  alone : st'.scram ≡ st.scram
  same_bin : st'.bin ≡ st.bin

emitted-IsEmitted :
    (size : ℕ) (sec : List ℕ) (st : BuildState)
    → length sec ≡ 2352
    → st.written ≤ size
    → length st.out ≡ st.written
    → IsEmitted size st (emitted size sec st).0 (emitted size sec st).1
unfolding emitted wrote skipped cut_sector
emitted-IsEmitted size sec st whole h out = ground (
  arith,
  length-drop st.skip_first sec,
  length-take (size - st.written) (drop st.skip_first sec),
  length-append st.out (cut_sector size st.written st.skip_first sec),
)

module _ (p : BuildParams) (size : ℕ) where
  build_loop_complete :
      (left : ℕ) (lba : ℤ) (st : BuildState)
      → st.scram ≡ none
      → st.written ≤ size
      → length st.out ≡ st.written
      → to_go size st ≤ left * 2352
      → 2352 * bin_needed p left lba ≤ length st.bin
      → (st' : BuildState) × (build_loop p size left lba st ≡ ok st') × (length st'.out ≡ size)
  unfolding build_loop build_step
  build_loop_complete zero lba st alone h out go bins = (st, refl, omega arith)
  build_loop_complete (suc left) lba st alone h out go bins =
      let next : IsNext _ st.bin (next_sector p lba st.bin) =
        next_sector-IsNext p lba st.bin (region_at lba p.tracks p.session_gaps) refl
          (omega arith) in
      let st1 : BuildState = record st {
        bin = next.rest;
        pass_throughs = st.pass_throughs + next.passed;
      } in
      let one : IsEmitted size st1 (emitted size next.sec st1).0 (emitted size next.sec st1).1 =
        emitted-IsEmitted size next.sec st1 next.whole h out in
      let within : (emitted size next.sec st1).0.written ≤ size = emitted-le size next.sec st1 h in
      rw (next.returns, emit_sector_alone size lba next.sec st1 alone h)
        (elim (Bool-cases (emitted size next.sec st1).1) [
          | inl stop ↦ rw stop (
            (emitted size next.sec st1).0,
            refl,
            omega (arith, one.all_out, one.full stop, within),
          )
          | inr goes ↦ rw goes (
              build_loop_complete left (lba +ℤ pos 1) (emitted size next.sec st1).0
                (one.alone ∙ alone) within one.all_out (omega (arith, one.shrinks))
                (omega (arith, next.left, ap length one.same_bin)))
        ])

rounds_of_total :
    (leadin : ℤ) (n : ℕ)
    → neg_part leadin ≤ 2 ^ 30
    → pos_part leadin ≤ 2 ^ 30
    → n < 2 ^ 30
    → lba_rounds leadin (add_i32 leadin (pos n)) ≡ n
unfolding lba_rounds add_i32
rounds_of_total leadin n lo hi small =
    let fits : to_i32 (leadin +ℤ pos n) ≡ leadin +ℤ pos n = to_i32_fits _ (omega int_laws) in
    rw fits (omega int_laws)

run_at :
    (p : BuildParams) (lba : ℤ) (st : BuildState) (size left : ℕ) {size' left' : ℕ}
    {st' : BuildState}
    → size' ≡ size
    → left' ≡ left
    → build_loop p size left lba st ≡ ok st'
    → build_loop p size' left' lba st ≡ ok st'
run_at p lba st size left e f h = rw (e, f) h

-- With a scram size above the write offset and of at most 2^30, a write offset of at least -2^30, a
-- lead-in LBA between -2^30 and 2^30, and a bin that holds a sector for each bin address among the
-- disc's, the prediction succeeds and has that size.
pub build_epsilon_hat_complete :
    (p : BuildParams) (bin : List ℕ) (size n : ℕ)
    → p.scram_size ≡ pos size
    → pos_part p.write_offset < size
    → size ≤ 2 ^ 30
    → neg_part p.write_offset ≤ 2 ^ 30
    → neg_part p.leadin_lba ≤ 2 ^ 30
    → pos_part p.leadin_lba ≤ 2 ^ 30
    → total_lbas p.scram_size p.write_offset ≡ some (pos n)
    → 2352 * bin_needed p n p.leadin_lba ≤ length bin
    → (r : BuildResult) × (build_epsilon_hat p bin none ≡ ok r) × (length r.image ≡ size)
unfolding build_start build_result
build_epsilon_hat_complete p bin size n hs offset small lo leadin0 leadin1 counted bins =
    let (n', counted', covers, tight) =
      total_lbas_covers size p.write_offset offset (omega arith) in
    let here : pos_part p.scram_size ≡ size = ap pos_part hs in
    let same : n ≡ n' = cc (counted, counted', hs) in
    let rounds : lba_rounds p.leadin_lba (add_i32 p.leadin_lba (pos n)) ≡ n =
      rounds_of_total p.leadin_lba n leadin0 leadin1 (omega arith) in
    let (st, ran, full) =
      build_loop_complete p size n p.leadin_lba (build_start p.write_offset bin none) refl
        (omega arith) (length-replicate {A = ℕ} (pos_part p.write_offset) 0) (omega arith) bins in
    (
      build_result st,
      build_epsilon_hat-ok p bin none {total = pos n} {st = st} (rw hs (ground arith)) counted
          (run_at p p.leadin_lba (build_start p.write_offset bin none) size n here rounds ran),
      full,
    )
