-- ===== src/Cue/Tracks.antt =====
-- cue.go: what `ParseCue` returns.
use miniscram.Common.{
  ℕ, ◌≡◌, Bool, List, ok, Ensures->>=, Ensures-guard, Ensures-ok, arith, inl, refl, take,
}
use miniscram.Disc.{Track}
use miniscram.Cue.Parse.{
  start_state, cue_sniff_bytes, cue_keywords, contains_any_keyword, parse_lines, parse_cue,
}
use miniscram.Text.{is_empty}
use miniscram.Cue.Steps.{IsOutput, parse_lines-Inv, parsed_tracks-IsOutput}
use miniscram.Cue.State.{Inv}

-- A cue sheet that is accepted yields at least one track. Each track has one of the three modes, a
-- file name that is not empty and leads to no other directory, and neither size nor position yet.
-- The session numbers begin at 1 or above, never decrease and end at 255 or below.
pub parse_cue-IsOutput :
    (scan_lines : List ℕ → List (List ℕ) × Bool) (text : List ℕ) (ts : List Track)
    → parse_cue scan_lines text ≡ ok ts
    → IsOutput ts
unfolding parse_cue is_empty
parse_cue-IsOutput scan_lines text ts e =
    Ensures-ok IsOutput (parse_cue scan_lines text)
      (Ensures-guard IsOutput (contains_any_keyword (take cue_sniff_bytes text) cue_keywords) _ _
        (λ found.
          Ensures->>= Inv IsOutput (parse_lines (scan_lines text).0 start_state) _
            (parse_lines-Inv (scan_lines text).0 start_state
              (tt, omega arith, omega arith, tt, inl refl))
            (λ st inv. parsed_tracks-IsOutput (scan_lines text).1 st inv)))
      e
