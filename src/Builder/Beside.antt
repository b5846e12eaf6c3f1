-- ===== src/Builder/Beside.antt =====
-- The run of `BuildEpsilonHat` that `Pack` makes, with a scram, beside the run that `Unpack`
-- makes, without: the same image, and records that turn it into the scram.
use mathlib.Core.List.{append_assoc}
use miniscram.Common.{
  ℕ, ◌+◌, ◌-◌, ◌≤◌, ◌≡◌, refl, sym, ap, ◌∙◌, arith, Bool, true, false, not, none, some, List, ◌++◌,
  leb, length, replicate, if◌then◌else◌, take, drop, read_full, read_full-le, bytes_equal, ok,
  ◌>>=◌, ℤ, length-append, length-take, length-drop, take_add, drop-drop, inl, inr, Bool-cases,
}
use miniscram.Delta.{Scan, scan_bytes}
use miniscram.Delta.Tracking.{IsTracking, scan_bytes-IsTracking}
use miniscram.Builder.Build.{
  BuildState, compare_sector, cut_sector, emit_sector, note_lba, count_if,
}

-- What the image with its records stands for after `n` bytes: the `w` bytes of a positive write
-- offset are zeros and are not compared, then comes the file.
abbrev pub view : ℕ → List ℕ → ℕ → List ℕ
view w file n = replicate w 0 ++ take (n - w) (drop w file)

view_add :
    (w : ℕ) (file : List ℕ) (n k : ℕ)
    → w ≤ n
    → view w file n ++ take k (drop n file) ≡ view w file (n + k)
view_add w file n k h =
    let at : drop n file ≡ drop (n - w) (drop w file) =
      ap (λ (t : ℕ). drop t file) (omega arith) ∙ sym (drop-drop w (n - w) file) in
    append_assoc (replicate w 0) (take (n - w) (drop w file)) (take k (drop n file))
    ∙ ap (λ (t : List ℕ). replicate w 0 ++ (take (n - w) (drop w file) ++ take k t)) at
    ∙ ap (λ (t : List ℕ). replicate w 0 ++ t) (take_add (n - w) k (drop w file))
    ∙ ap (λ (t : ℕ). replicate w 0 ++ take t (drop w file)) (omega arith)

-- The state of the run with the file, for a state `st` of the run without.
abbrev pub beside : List ℕ → BuildState → ℕ → Scan → List ℤ → ℕ → BuildState
beside file st cur sc es m = record st {
  scram = some (drop cur file);
  scram_cur = cur;
  scan = sc;
  err_lbas = es;
  mismatched = m;
}

pub record IsBeside (w : ℕ) (file : List ℕ) (st : BuildState) (cur : ℕ) (sc : Scan) : Type 0 where
  pub alone : st.scram ≡ none
  pub all_out : length st.out ≡ st.written
  pub offset : w ≤ st.written
  pub behind : cur ≤ st.written
  pub tracked : IsTracking st.out (view w file st.written) sc

-- The comparison succeeds if the file goes on that far.
compare_sector_lem :
    (lba : ℤ) (start : ℕ) (body file : List ℕ) (st : BuildState) (cur : ℕ) (sc : Scan) (es : List ℤ)
    (m : ℕ)
    → cur ≤ start
    → start + length body ≤ length file
    → (es' : List ℤ) × (m' : ℕ) × (compare_sector lba start body (beside file st cur sc es m)
        ≡ ok (
            beside file st
              (start + length body)
              (scan_bytes start body (take (length body) (drop start file)) sc)
              es'
              m'))
unfolding compare_sector
compare_sector_lem lba start body file st cur sc es m h k =
    let skip : read_full (start - cur) (drop cur file)
        ≡ some (take (start - cur) (drop cur file), drop start file) =
      read_full-le (start - cur) (drop cur file) (omega (arith, length-drop cur file))
      ∙ ap (λ t. some (take (start - cur) (drop cur file), t))
          (drop-drop cur (start - cur) file ∙ ap (λ (t : ℕ). drop t file) (omega arith)) in
    let chunk : read_full (length body) (drop start file)
        ≡ some (take (length body) (drop start file), drop (start + length body) file) =
      read_full-le (length body) (drop start file) (omega (arith, length-drop start file))
      ∙ ap (λ t. some (take (length body) (drop start file), t))
          (drop-drop start (length body) file) in
    let differs : Bool = not (bytes_equal body (take (length body) (drop start file))) in
    (note_lba differs lba es, count_if differs m, rw (skip, chunk) refl)

pub cut_sector-le :
    (size written skip : ℕ) (sec : List ℕ)
    → written ≤ size
    → written + length (cut_sector size written skip sec) ≤ size
unfolding cut_sector
cut_sector-le size written skip sec h = ground (arith, length-take (size - written) (drop skip sec))

-- What `emit_sector` does to the fields that both runs share.
unfoldable pub wrote : ℕ → List ℕ → BuildState → BuildState
unfolding cut_sector
wrote size sec st =
    let body = cut_sector size st.written st.skip_first sec in
    record st { skip_first = 0; written = st.written + length body; out = st.out ++ body }

unfoldable pub skipped : List ℕ → BuildState → BuildState
skipped sec st = record st { skip_first = st.skip_first - length sec }

unfoldable pub emitted : ℕ → List ℕ → BuildState → BuildState × Bool
unfolding wrote skipped
emitted size sec st =
    if leb (length sec) st.skip_first
    then (skipped sec st, false)
    else (wrote size sec st, leb size (wrote size sec st).written)

le→leb : (a b : ℕ) → a ≤ b → leb a b ≡ true
le→leb a b h = ground arith

emit_skips :
    (size : ℕ) (lba : ℤ) (sec : List ℕ) (st : BuildState)
    → leb (length sec) st.skip_first ≡ true
    → emit_sector size lba sec st ≡ ok (skipped sec st, false)
unfolding emit_sector skipped
emit_skips size lba sec st e = rw (e, emit_sector) refl

emit_writes :
    (size : ℕ) (lba : ℤ) (sec : List ℕ) (st : BuildState)
    → leb (length sec) st.skip_first ≡ false
    → st.written ≤ size
    → emit_sector size lba sec st ≡ (
        compare_sector lba st.written
          (cut_sector size st.written st.skip_first sec)
          (wrote size sec st)
        >>= λ st'. ok (st', leb size st'.written))
unfolding emit_sector wrote
emit_writes size lba sec st e h = rw (e, emit_sector) (rw (le→leb st.written size h) refl)

compare_alone :
    (lba : ℤ) (start : ℕ) (body : List ℕ) (st : BuildState)
    → st.scram ≡ none
    → compare_sector lba start body st ≡ ok st
unfolding compare_sector
compare_alone lba start body st alone = ground arith

-- The run without a file.
pub emit_sector_alone :
    (size : ℕ) (lba : ℤ) (sec : List ℕ) (st : BuildState)
    → st.scram ≡ none
    → st.written ≤ size
    → emit_sector size lba sec st ≡ ok (emitted size sec st)
unfolding emitted wrote
emit_sector_alone size lba sec st alone h = elim (Bool-cases (leb (length sec) st.skip_first)) [
  | inl skips ↦ rw skips (emit_skips size lba sec st skips)
  | inr emits ↦ rw emits (
      emit_writes size lba sec st emits h
      ∙ rw (compare_alone lba st.written _ (wrote size sec st) alone) refl)
]

-- The run beside a file that is long enough.
pub emit_sector-beside :
    (w : ℕ) (file : List ℕ) (size : ℕ) (lba : ℤ) (sec : List ℕ) (st : BuildState) (cur : ℕ)
    (sc : Scan) (es : List ℤ) (m : ℕ)
    → size ≤ length file
    → st.written ≤ size
    → IsBeside w file st cur sc
    → (cur' : ℕ) × (sc' : Scan) × (es' : List ℤ) × (m' : ℕ) × (emit_sector size lba sec
          (beside file st cur sc es m)
        ≡ ok (beside file (emitted size sec st).0 cur' sc' es' m', (emitted size sec st).1))
      × IsBeside w file (emitted size sec st).0 cur' sc'
unfolding emitted wrote skipped
emit_sector-beside w file size lba sec st cur sc es m long h b =
    elim (Bool-cases (leb (length sec) st.skip_first)) [
      | inl skips ↦ rw skips (
        cur,
        sc,
        es,
        m,
        emit_skips size lba sec (beside file st cur sc es m) skips,
        record {
          alone = b.alone;
          all_out = b.all_out;
          offset = b.offset;
          behind = b.behind;
          tracked = b.tracked;
        },
      )
      | inr emits ↦
          let body : List ℕ = cut_sector size st.written st.skip_first sec in
          let fits : st.written + length body ≤ size =
            cut_sector-le size st.written st.skip_first sec h in
          let (es', m', same) =
            compare_sector_lem lba st.written body file (wrote size sec st) cur sc es m b.behind
              (omega arith) in
          rw emits (
            st.written + length body,
            scan_bytes st.written body (take (length body) (drop st.written file)) sc,
            es',
            m',
            emit_writes size lba sec (beside file st cur sc es m) emits h ∙ rw same refl,
            record {
              alone = b.alone;
              all_out = omega (arith, b.all_out, length-append st.out body);
              offset = omega (arith, b.offset);
              behind = omega arith;
              tracked = rw (← view_add w file st.written (length body) b.offset) (
                  scan_bytes-IsTracking body (take (length body) (drop st.written file)) st.written
                    st.out (view w file st.written) sc
                    (omega (
                      arith,
                      length-take (length body) (drop st.written file),
                      length-drop st.written file,
                    ))
                    b.all_out b.tracked);
            },
          )
    ]
