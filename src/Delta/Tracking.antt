-- ===== src/Delta/Tracking.antt =====
-- The invariant of the comparison loop: what has been recorded turns the prediction into the file.
use mathlib.Core.List.{append_assoc, append-nil}
use miniscram.Common.{
  ℕ, ◌+◌, ◌≤◌, ◌≡◌, refl, sym, ap, ◌∙◌, ◌⊎◌, inl, inr, arith, List, [], ◌∷◌, ◌++◌, length, All,
  All-append, length-append, ◌==◌, ==_iff, Bool-cases,
}
use miniscram.Delta.Compare.{Scan, scan_start, scan_differ, emit_run, flush, scan_byte, scan_bytes}
use miniscram.Delta.Patch.{
  patch, FitsIn, FitsIn-weaken, write_at_overlay, patch-append, patch-append_records,
}

-- No run is open, and writing the records over `hat` gives `scram`.
pub record IsSettled (hat scram : List ℕ) (st : Scan) : Type 0 where
  pub closed : st.run ≡ []
  pub patched : patch st.records hat ≡ scram
  pub fits : All (FitsIn (length hat)) st.records
  pub few : length st.records ≤ length hat
  pub same : length hat ≡ length scram

-- Up to `hat0` all is settled; from there on `hat` differs from the open run in each byte.
pub record IsTracking (hat scram : List ℕ) (st : Scan) : Type 0 where
  pub hat0 : List ℕ
  pub hat1 : List ℕ
  pub scram0 : List ℕ
  pub hat_split : hat ≡ hat0 ++ hat1
  pub scram_split : scram ≡ scram0 ++ st.run
  pub open_length : length hat1 ≡ length st.run
  pub start : (st.run ≡ []) ⊎ (st.run_start ≡ length hat0)
  pub settled : IsSettled hat0 scram0 (record st { run = [] })

settle_run :
    (run : List ℕ) (start : ℕ) (rs : List (ℕ × List ℕ)) (hat0 hat1 scram0 : List ℕ)
    → length hat1 ≡ length run
    → (run ≡ []) ⊎ (start ≡ length hat0)
    → IsSettled hat0 scram0 (record { run = []; run_start = start; records = rs })
    → IsSettled
        (hat0 ++ hat1)
        (scram0 ++ run)
        (emit_run run (record { run = run; run_start = start; records = rs }))
unfolding emit_run
settle_run [] start rs hat0 [] scram0 e s h = rw (append-nil, append-nil) h
settle_run [] start rs hat0 (x ∷ hat1) scram0 e s h = absurd (omega arith)
settle_run (b ∷ run) start rs hat0 hat1 scram0 e (inl s) h = cc
settle_run (b ∷ run) start rs hat0 hat1 scram0 e (inr s) h = record {
  closed = refl;
  patched =
      patch-append_records rs ((start, b ∷ run) ∷ []) (hat0 ++ hat1)
      ∙ ap (λ t. patch ((start, b ∷ run) ∷ []) t)
          (patch-append rs hat0 hat1 h.fits ∙ ap (λ t. t ++ hat1) h.patched)
      ∙ last;
  fits =
      All-append (FitsIn (length (hat0 ++ hat1))) rs ((start, b ∷ run) ∷ [])
        (FitsIn-weaken rs (length hat0) _ (omega (arith, length-append hat0 hat1)) h.fits)
        ((omega arith, omega (arith, length-append hat0 hat1)), tt);
  few = omega (arith, h.few, length-append rs ((start, b ∷ run) ∷ []), length-append hat0 hat1);
  same = omega (arith, h.same, length-append hat0 hat1, length-append scram0 (b ∷ run));
}
  where
    last : patch ((start, b ∷ run) ∷ []) (scram0 ++ hat1) ≡ scram0 ++ (b ∷ run)
    last = unfold patch in rw (s ∙ h.same) (write_at_overlay scram0 hat1 (b ∷ run) e)

-- Closing the open run settles everything that was compared.
pub flush-IsSettled :
    (hat scram : List ℕ) (st : Scan) → IsTracking hat scram st → IsSettled hat scram (flush st)
unfolding flush
flush-IsSettled hat scram st h =
    rw (h.hat_split, h.scram_split)
      (settle_run st.run st.run_start st.records h.hat0 h.hat1 h.scram0 h.open_length h.start
        h.settled)

IsSettled→IsTracking :
    (hat scram : List ℕ) (st : Scan) → IsSettled hat scram st → IsTracking hat scram st
IsSettled→IsTracking hat scram st h = record {
  hat0 = hat;
  hat1 = [];
  scram0 = scram;
  hat_split = sym (append-nil hat);
  scram_split = rw (h.closed, append-nil);
  open_length = rw h.closed;
  start = inl h.closed;
  settled = record {
    closed = refl;
    patched = h.patched;
    fits = h.fits;
    few = h.few;
    same = h.same;
  };
}

-- An equal byte after a settled part.
IsSettled-equal :
    (hat scram : List ℕ) (st : Scan) (b : ℕ)
    → IsSettled hat scram st
    → IsSettled (hat ++ (b ∷ [])) (scram ++ (b ∷ [])) st
IsSettled-equal hat scram st b h = record {
  closed = h.closed;
  patched = patch-append st.records hat (b ∷ []) h.fits ∙ ap (λ t. t ++ (b ∷ [])) h.patched;
  fits = FitsIn-weaken st.records (length hat) _ (omega (arith, length-append hat (b ∷ []))) h.fits;
  few = omega (arith, h.few, length-append hat (b ∷ []));
  same = omega (arith, h.same, length-append hat (b ∷ []), length-append scram (b ∷ []));
}

relabel :
    {hat scram : List ℕ} {start pos : ℕ} {rs : List (ℕ × List ℕ)}
    → IsSettled hat scram (record { run = []; run_start = start; records = rs })
    → IsSettled hat scram (record { run = []; run_start = pos; records = rs })
relabel h = record { closed = refl; patched = h.patched; fits = h.fits; few = h.few; same = h.same }

-- A byte that differs: it opens a run or joins the open one.
differ_step :
    (run : List ℕ) (pos s b start : ℕ) (rs : List (ℕ × List ℕ)) (hat scram : List ℕ)
    → length hat ≡ pos
    → IsTracking hat scram (record { run = run; run_start = start; records = rs })
    → IsTracking
        (hat ++ (b ∷ []))
        (scram ++ (s ∷ []))
        (scan_differ run pos s (record { run = run; run_start = start; records = rs }))
unfolding scan_differ flush emit_run
differ_step [] pos s b start rs hat scram e h =
    let done : IsSettled hat scram (record { run = []; run_start = start; records = rs }) =
      flush-IsSettled hat scram _ h in
    record {
      hat0 = hat;
      hat1 = b ∷ [];
      scram0 = scram;
      hat_split = refl;
      scram_split = refl;
      open_length = refl;
      start = inr (sym e);
      settled = relabel done;
    }
differ_step (c ∷ run) pos s b start rs hat scram e h = record {
  hat0 = h.hat0;
  hat1 = h.hat1 ++ (b ∷ []);
  scram0 = h.scram0;
  hat_split = ap (λ t. t ++ (b ∷ [])) h.hat_split ∙ append_assoc h.hat0 h.hat1 (b ∷ []);
  scram_split = ap (λ t. t ++ (s ∷ [])) h.scram_split ∙ append_assoc h.scram0 (c ∷ run) (s ∷ []);
  open_length =
      omega (arith, h.open_length, length-append h.hat1 (b ∷ []), length-append run (s ∷ []));
  start = keep h.start;
  settled = h.settled;
}
  where
    keep :
        (c ∷ run ≡ []) ⊎ (start ≡ length h.hat0)
        → ((c ∷ run) ++ (s ∷ []) ≡ []) ⊎ (start ≡ length h.hat0)
    keep (inl q) = cc
    keep (inr q) = inr q

-- One byte of each stream.
scan_byte-IsTracking :
    (pos b s : ℕ) (hat scram : List ℕ) (st : Scan)
    → length hat ≡ pos
    → IsTracking hat scram st
    → IsTracking (hat ++ (b ∷ [])) (scram ++ (s ∷ [])) (scan_byte pos b s st)
unfolding scan_byte
scan_byte-IsTracking pos b s hat scram st e h = elim (Bool-cases (b == s)) [
  | inl q ↦
      rw (q, (==_iff b s).0 q)
        (IsSettled→IsTracking _ _ (flush st)
          (IsSettled-equal hat scram (flush st) s (flush-IsSettled hat scram st h)))
  | inr q ↦ rw q (differ_step st.run pos s b st.run_start st.records hat scram e h)
]

-- The whole loop over one buffer.
pub scan_bytes-IsTracking :
    (hs ss : List ℕ) (pos : ℕ) (hat scram : List ℕ) (st : Scan)
    → length hs ≡ length ss
    → length hat ≡ pos
    → IsTracking hat scram st
    → IsTracking (hat ++ hs) (scram ++ ss) (scan_bytes pos hs ss st)
unfolding scan_bytes
scan_bytes-IsTracking [] [] pos hat scram st e p h = rw (append-nil hat, append-nil scram) h
scan_bytes-IsTracking [] (s ∷ ss) pos hat scram st e p h = absurd (omega arith)
scan_bytes-IsTracking (b ∷ hs) [] pos hat scram st e p h = absurd (omega arith)
scan_bytes-IsTracking (b ∷ hs) (s ∷ ss) pos hat scram st e p h =
    rw (← append_assoc hat (b ∷ []) hs, ← append_assoc scram (s ∷ []) ss)
      (scan_bytes-IsTracking hs ss (pos + 1) (hat ++ (b ∷ [])) (scram ++ (s ∷ []))
        (scan_byte pos b s st) (omega arith) (omega (arith, length-append hat (b ∷ [])))
        (scan_byte-IsTracking pos b s hat scram st p h))

-- Before the first byte, behind a common part that is not compared.
pub scan_start-IsTracking : (same : List ℕ) → IsTracking same same scan_start
unfolding patch
scan_start-IsTracking same =
    IsSettled→IsTracking same same scan_start
      (record { closed = refl; patched = refl; fits = tt; few = omega arith; same = refl })
