-- ===== src/Delta/Compare.antt =====
-- delta.go, the comparison loop of `EncodeDelta`; builder.go runs the same loop on each sector.
use miniscram.Common.{ℕ, ◌+◌, List, [], ◌∷◌, ◌++◌, ◌==◌, if◌then◌else◌}

-- The run that is open while two streams are compared, and the records emitted so far.
pub record Scan : Type 0 where
  pub run : List ℕ
  pub run_start : ℕ
  pub records : List (ℕ × List ℕ)

abbrev pub scan_start : Scan
scan_start = record { run = []; run_start = 0; records = [] }

-- The bytes at `pos` differ: a run is opened there, or the open one grows by the real byte.
unfoldable pub scan_differ : List ℕ → ℕ → ℕ → Scan → Scan
scan_differ [] pos s st = record st { run = s ∷ []; run_start = pos }
scan_differ (b ∷ run) pos s st = record st { run = (b ∷ run) ++ (s ∷ []) }

-- An open run is handed on as a record, and closed.
unfoldable pub emit_run : List ℕ → Scan → Scan
emit_run [] st = st
emit_run (b ∷ run) st = record st {
  run = [];
  records = st.records ++ ((st.run_start, b ∷ run) ∷ []);
}

unfoldable pub flush : Scan → Scan
flush st = emit_run st.run st

unfoldable pub scan_byte : ℕ → ℕ → ℕ → Scan → Scan
scan_byte pos h s st = if h == s then flush st else scan_differ st.run pos s st

-- The loop over one buffer; `pos` is the offset of its first byte.
unfoldable pub scan_bytes : ℕ → List ℕ → List ℕ → Scan → Scan
scan_bytes pos [] ss st = st
scan_bytes pos (h ∷ hs) [] st = st
scan_bytes pos (h ∷ hs) (s ∷ ss) st = scan_bytes (pos + 1) hs ss (scan_byte pos h s st)
