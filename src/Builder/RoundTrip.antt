-- ===== src/Builder/RoundTrip.antt =====
-- `BuildEpsilonHat` with a scram and without: one image, and records that rebuild the scram.
use mathlib.Core.List.{append-nil}
use miniscram.Common.{
  ℕ, zero, suc, ◌+◌, ◌-◌, ◌^◌, ◌≤◌, ◌≡◌, refl, sym, ap, ◌∙◌, arith, true, Option, none, some, ◌⊎◌,
  inl, inr, List, [], length, replicate, Bool-cases, Result, ok, err, Result-cases, >>=-eq-ok,
  guard, or_err, guard-eq-ok, or_err-eq-ok, ok-injective, ℤ, ltb_ℤ, add_i32, pos, ◌+ℤ◌, pos_part,
  length-replicate,
}
use miniscram.Layout.{total_lbas}
use miniscram.Delta.{Scan, scan_start, flush, apply_delta, append_all, new_delta_encoder, close}
use miniscram.Delta.Tracking.{scan_start-IsTracking, flush-IsSettled}
use miniscram.Delta.RoundTrip.{encoded}
use miniscram.Delta.Encode.{encoded-IsSettled}
use miniscram.Builder.Build.{
  BuildParams, BuildError, bad_size, panicked, BuildState, BuildResult, next_sector, build_step,
  build_loop, build_start, build_result, build_epsilon_hat, lba_rounds,
}
use miniscram.Builder.Beside.{
  view, beside, IsBeside, emitted, wrote, skipped, cut_sector-le, emit_sector_alone,
  emit_sector-beside,
}

-- The written part stays within the file.
pub emitted-le :
    (size : ℕ) (sec : List ℕ) (st : BuildState)
    → st.written ≤ size
    → (emitted size sec st).0.written ≤ size
unfolding emitted wrote skipped
emitted-le size sec st h = ground (arith, cut_sector-le size st.written st.skip_first sec)

-- How the two runs of a part of the loop end: with the same error, or side by side.
record EndsBeside (w : ℕ) (file : List ℕ) (size : ℕ)
    (with_file without : Result BuildError BuildState) : Type 0 where
  st : BuildState
  cur : ℕ
  sc : Scan
  es : List ℤ
  m : ℕ
  quiet : without ≡ ok st
  loud : with_file ≡ ok (beside file st cur sc es m)
  invariant : IsBeside w file st cur sc
  bounded : st.written ≤ size

module _ (p : BuildParams) (w : ℕ) (file : List ℕ) (size : ℕ) (long : size ≤ length file) where
  build_loop-beside :
      (left : ℕ) (lba : ℤ) (st : BuildState) (cur : ℕ) (sc : Scan) (es : List ℤ) (m : ℕ)
      → st.written ≤ size
      → IsBeside w file st cur sc
      → ((e : BuildError) × (build_loop p size left lba st ≡ err e)
          × (build_loop p size left lba (beside file st cur sc es m) ≡ err e))
        ⊎ EndsBeside w file size
            (build_loop p size left lba (beside file st cur sc es m))
            (build_loop p size left lba st)
  unfolding build_loop build_step
  build_loop-beside zero lba st cur sc es m h b = inr (record {
    st = st;
    cur = cur;
    sc = sc;
    es = es;
    m = m;
    quiet = refl;
    loud = refl;
    invariant = b;
    bounded = h;
  })
  build_loop-beside (suc left) lba st cur sc es m h b =
      elim (Result-cases (next_sector p lba st.bin)) [
        | inr (e, short) ↦ inl (e, rw short refl, rw short refl)
        | inl ((sec, rest, passed), read) ↦
            let st1 : BuildState = record st {
              bin = rest;
              pass_throughs = st.pass_throughs + passed;
            } in
            let b1 : IsBeside w file st1 cur sc = record {
              alone = b.alone;
              all_out = b.all_out;
              offset = b.offset;
              behind = b.behind;
              tracked = b.tracked;
            } in
            let (cur', sc', es', m', loud, b2) =
              emit_sector-beside w file size lba sec st1 cur sc es m long h b1 in
            rw (read, emit_sector_alone size lba sec st1 b.alone h, loud)
              (elim (Bool-cases (emitted size sec st1).1) [
                | inl stop ↦ rw stop (
                    inr (record {
                      st = (emitted size sec st1).0;
                      cur = cur';
                      sc = sc';
                      es = es';
                      m = m';
                      quiet = refl;
                      loud = refl;
                      invariant = b2;
                      bounded = emitted-le size sec st1 h;
                    }))
                | inr go ↦ rw go (
                    build_loop-beside left (lba +ℤ pos 1) (emitted size sec st1).0 cur' sc' es' m'
                      (emitted-le size sec st1 h) b2)
              ])
      ]

nothing_yet : (w : ℕ) (file : List ℕ) → view w file w ≡ replicate w 0
nothing_yet w file = let e : w - w ≡ 0 = omega arith in rw e (append-nil (replicate w 0))

-- The two runs from their start.
start-IsBeside :
    (offset : ℤ) (bin file : List ℕ)
    → IsBeside (pos_part offset) file (build_start offset bin none) 0 scan_start
unfolding build_start
start-IsBeside offset bin file = record {
  alone = refl;
  all_out = length-replicate {A = ℕ} (pos_part offset) 0;
  offset = omega arith;
  behind = omega arith;
  tracked =
      rw (nothing_yet (pos_part offset) file)
        (scan_start-IsTracking (replicate (pos_part offset) 0));
}

-- What the image of a run rebuilds, with the records of the run beside it.
rebuilds :
    (w : ℕ) (file : List ℕ) (st : BuildState) (cur : ℕ) (sc : Scan) (es : List ℤ) (m : ℕ)
    → IsBeside w file st cur sc
    → st.written ≤ 2 ^ 30
    → apply_delta st.out (encoded (flush sc).records) ≡ ok (view w file st.written)
rebuilds w file st cur sc es m b small =
    encoded-IsSettled st.out (view w file st.written) (flush sc) (omega (arith, b.all_out))
      (flush-IsSettled st.out (view w file st.written) sc b.tracked)

-- The parts of a successful run.
build_epsilon_hat-eq-ok :
    (p : BuildParams) (bin : List ℕ) (scram : Option (List ℕ)) (r : BuildResult)
    → build_epsilon_hat p bin scram ≡ ok r
    → (total : ℤ) × (ltb_ℤ (pos 0) p.scram_size ≡ true)
      × (total_lbas p.scram_size p.write_offset ≡ some total)
      × (st : BuildState) × (build_loop p
            (pos_part p.scram_size)
            (lba_rounds p.leadin_lba (add_i32 p.leadin_lba total))
            p.leadin_lba
            (build_start p.write_offset bin scram)
          ≡ ok st)
      × (r ≡ build_result st)
unfolding build_epsilon_hat
build_epsilon_hat-eq-ok p bin scram r e =
    let (_, positive, e1) = >>=-eq-ok (guard (ltb_ℤ (pos 0) p.scram_size) bad_size) _ e in
    let (total, counted, e2) =
      >>=-eq-ok (or_err (total_lbas p.scram_size p.write_offset) panicked) _ e1 in
    let (st, ran, e3) = >>=-eq-ok (build_loop p _ _ p.leadin_lba _) _ e2 in
    (
      total,
      guard-eq-ok (ltb_ℤ (pos 0) p.scram_size) bad_size positive,
      or_err-eq-ok (total_lbas p.scram_size p.write_offset) panicked counted,
      st,
      ran,
      cc,
    )

pub build_epsilon_hat-ok :
    (p : BuildParams) (bin : List ℕ) (scram : Option (List ℕ)) {total : ℤ} {st : BuildState}
    → ltb_ℤ (pos 0) p.scram_size ≡ true
    → total_lbas p.scram_size p.write_offset ≡ some total
    → build_loop p
        (pos_part p.scram_size)
        (lba_rounds p.leadin_lba (add_i32 p.leadin_lba total))
        p.leadin_lba
        (build_start p.write_offset bin scram)
      ≡ ok st
    → build_epsilon_hat p bin scram ≡ ok (build_result st)
unfolding build_epsilon_hat
build_epsilon_hat-ok p bin scram positive counted ran = rw positive (rw counted (rw ran refl))

-- If the prediction without a scram succeeds, then beside any file of at least the scram's size
-- (at most 1 GiB) it succeeds with the same image and the same pass-through count, and the
-- records turn the image into the file, except that the bytes under a positive write offset
-- come out as zeros.
pub build_epsilon_hat_round_trip :
    (p : BuildParams) (bin file : List ℕ) (size : ℕ) (r : BuildResult)
    → p.scram_size ≡ pos size
    → pos_part p.write_offset ≤ size
    → size ≤ 2 ^ 30
    → size ≤ length file
    → build_epsilon_hat p bin none ≡ ok r
    → (r' : BuildResult) × (build_epsilon_hat p bin (some file) ≡ ok r')
      × (r'.image ≡ r.image)
      × (r'.pass_throughs ≡ r.pass_throughs)
      × (apply_delta r.image (close (append_all new_delta_encoder r'.records)).0
          ≡ ok (view (pos_part p.write_offset) file (length r.image)))
unfolding build_result build_start
build_epsilon_hat_round_trip p bin file size r hs offset small long e =
    let (total, positive, counted, st, ran, result) = build_epsilon_hat-eq-ok p bin none r e in
    let here : pos_part p.scram_size ≡ size = ap pos_part hs in
    elim (build_loop-beside p (pos_part p.write_offset) file (pos_part p.scram_size) (rw here long)
      (lba_rounds p.leadin_lba (add_i32 p.leadin_lba total)) p.leadin_lba
      (build_start p.write_offset bin none) 0 scan_start [] 0 (rw here offset)
      (start-IsBeside p.write_offset bin file)) [
        | inl (x, quiet, loud) ↦ cc (ran, quiet)
        | inr ends ↦
            let same : ends.st ≡ st = ok-injective (sym ends.quiet ∙ ran) in
            let image : r.image ≡ ends.st.out = cc (same, result) in
            (
              build_result (beside file ends.st ends.cur ends.sc ends.es ends.m),
              build_epsilon_hat-ok p bin (some file) positive counted ends.loud,
              cc (same, result),
              cc (same, result),
              rw (image, ends.invariant.all_out)
                  (rebuilds (pos_part p.write_offset) file ends.st ends.cur ends.sc ends.es ends.m
                    ends.invariant (omega (arith, ends.bounded, here))),
            )
      ]
