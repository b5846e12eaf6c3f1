-- ===== src/Queue/Progress.antt =====
-- queue.go: the lines of `--progress=json` and the fractions of the steps.
use miniscram.Common.{ℕ, Option, none, some, List, [], ◌∷◌, ◌++◌, bytes_equal, codes, if◌then◌else◌}
use miniscram.Text.{has_prefix}

-- The fields of `progressEvent` that are shown. `encoding/json` is a parameter.
pub record ProgressEvent : Type 0 where
  pub type : List ℕ
  pub label : List ℕ
  pub msg : List ℕ
  pub error : List ℕ

or_failed : List ℕ → List ℕ → List ℕ
or_failed [] label = label ++ codes " failed"
or_failed (c ∷ error) label = c ∷ error

-- The marks behind a label are given by their UTF-8 bytes.
unfoldable pub pretty_event : List ℕ → ProgressEvent → List ℕ
unfolding or_failed
pretty_event s ev =
    if bytes_equal ev.type (codes "step")
    then ev.label ++ (226 ∷ 128 ∷ 166 ∷ [])
    else if bytes_equal ev.type (codes "done")
    then ev.label ++ (32 ∷ 226 ∷ 156 ∷ 147 ∷ [])
    else if bytes_equal ev.type (codes "info")
    then ev.msg
    else if bytes_equal ev.type (codes "warn")
    then ev.msg
    else if bytes_equal ev.type (codes "fail")
    then or_failed ev.error ev.label
    else s

-- `prettyProgressLine`.
unfoldable pub pretty_progress_line : (List ℕ → Option ProgressEvent) → List ℕ → List ℕ
unfolding pretty_event
pretty_progress_line unmarshal s = elim (unmarshal s) [ none ↦ s | some ev ↦ pretty_event s ev ]

-- `packPhases`, in thousandths.
abbrev pub pack_phases : List (List ℕ × ℕ)
pack_phases =
    (codes "resolving cue", 20)
    ∷ (codes "detecting write offset", 50)
    ∷ (codes "checking constant offset", 80)
    ∷ (codes "hashing tracks", 150)
    ∷ (codes "hashing scram", 300)
    ∷ (codes "building scram prediction + delta", 650)
    ∷ (codes "writing container", 950)
    ∷ (codes "reading manifest", 960)
    ∷ (codes "reading container", 970)
    ∷ (codes "resolving bin files", 975)
    ∷ (codes "verifying bin hashes", 980)
    ∷ (codes "building scram prediction", 990)
    ∷ (codes "applying delta", 990)
    ∷ (codes "verifying output hashes", 995)
    ∷ (codes "verifying scram hashes", 1000)
    ∷ []

unfoldable pub lookup_in : List ℕ → List (List ℕ × ℕ) → Option ℕ
lookup_in label [] = none
lookup_in label ((prefix, fraction) ∷ phases) =
    let rest = lookup_in label phases in if has_prefix label prefix then some fraction else rest

-- `lookupFraction`.
unfoldable pub lookup_fraction : List ℕ → Option ℕ
unfolding lookup_in
lookup_fraction label = lookup_in label pack_phases
