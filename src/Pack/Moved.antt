-- ===== src/Pack/Moved.antt =====
-- pack.go: where `applySessionGaps` leaves the tracks.
use miniscram.Common.{
  Ensures, Ensures->>=, Ensures-ok, Result-cases, ℕ, ◌≡◌, refl, sym, ap, ◌∙◌, arith, true, false,
  List, [], ◌∷◌, length, map, All, [], ◌∷◌, leb, ℤ, ok, >>=-eq-ok, ok-injective, Bool-cases, inl,
  inr,
}
use mathlib.Core.Path.{subst}
use miniscram.Disc.{Track, is_audio}
use miniscram.Pack.Sessions.{
  detect_session_gap, move_track, count_boundaries_from, count_session_boundaries, apply_gaps_from,
  apply_session_gaps,
}
use miniscram.Pack.Gaps.{InRange, detect_session_gap-ok}

-- A track after the gaps, the newest first.
abbrev pub moves : List ℤ → Track → Track
moves [] t = t
moves (g ∷ gaps) t = move_track g (moves gaps t)

-- The specification: each track moves by the gaps of all session boundaries up to it, one of `gaps`
-- for each boundary.
abbrev pub place : ℕ → List ℤ → List ℤ → List Track → List Track
place before done gaps [] = []
place before done [] (t ∷ ts) = moves done t ∷ place t.session done [] ts
place before done (g ∷ gaps) (t ∷ ts) =
    let moved = moves (g ∷ done) t ∷ place t.session (g ∷ done) gaps ts in
    let kept = moves done t ∷ place t.session done (g ∷ gaps) ts in
    elim (leb t.session before) [ true ↦ kept | false ↦ moved ]

moves-session : (gaps : List ℤ) (t : Track) → (moves gaps t).session ≡ t.session
unfolding move_track
moves-session [] t = refl
moves-session (g ∷ gaps) t = moves-session gaps t

-- The outcome with the gaps that were applied.
abbrev Placed : ℕ → List ℤ → List Track → List Track → Type 0
Placed before done ts out =
    (gaps : List ℤ) × (length gaps ≡ count_boundaries_from before ts)
    × All InRange gaps
    × (out ≡ place before done gaps ts)

place-kept :
    (before : ℕ) (done gaps : List ℤ) (t : Track) (ts : List Track)
    → leb t.session before ≡ true
    → place before done gaps (t ∷ ts) ≡ moves done t ∷ place t.session done gaps ts
place-kept before done [] t ts e = refl
place-kept before done (g ∷ gaps) t ts e = rw (e, place) refl

Placed-kept :
    (before : ℕ) (done : List ℤ) (t : Track) (ts out : List Track)
    → leb t.session before ≡ true
    → Placed t.session done ts out
    → Placed before done (t ∷ ts) (moves done t ∷ out)
unfolding count_boundaries_from
Placed-kept before done t ts out kept (gaps, size, range, same) = (
  gaps,
  ground (arith, size),
  range,
  ap (◌∷◌ (moves done t)) same ∙ sym (place-kept before done gaps t ts kept),
)

Placed-moved :
    (before : ℕ) (done : List ℤ) (t : Track) (ts out : List Track) (gap : ℤ)
    → leb t.session before ≡ false
    → InRange gap
    → Placed t.session (gap ∷ done) ts out
    → Placed before done (t ∷ ts) (moves (gap ∷ done) t ∷ out)
unfolding count_boundaries_from
Placed-moved before done t ts out gap moved here (gaps, size, range, same) = (
  gap ∷ gaps,
  ground (arith, size),
  (here, range),
  rw (moved, place) (ap (◌∷◌ (moves (gap ∷ done) t)) same),
)

map-moves :
    (gap : ℤ) (done : List ℤ) (ts : List Track)
    → map (move_track gap) (map (moves done) ts) ≡ map (moves (gap ∷ done)) ts
map-moves gap done [] = refl
map-moves gap done (t ∷ ts) = ap (◌∷◌ (moves (gap ∷ done) t)) (map-moves gap done ts)

detect_session_gap-InRange :
    (file : List ℕ) (leadin wo naive : ℤ)
    → Ensures InRange (detect_session_gap file leadin wo naive)
detect_session_gap-InRange file leadin wo naive =
    elim (Result-cases (detect_session_gap file leadin wo naive)) [
      | inl (gap, found) ↦ rw found (detect_session_gap-ok file leadin wo naive gap found).0
      | inr (e, failed) ↦ rw failed tt
    ]

module _ (file : List ℕ) (leadin wo : ℤ) where
  -- The rounds behind a track begin with its session, moved or not.
  rounds-behind :
      (t : Track) (done : List ℤ) (ts ts' : List Track)
      → ts' ≡ map (moves done) ts
      → (gaps : List ℤ)
      → Ensures
          (Placed t.session done ts)
          (apply_gaps_from (length ts) file leadin wo t.session (map (moves done) ts))
      → Ensures
          (Placed t.session done ts)
          (apply_gaps_from (length ts) file leadin wo (moves gaps t).session ts')
  rounds-behind t done ts ts' same gaps h =
      subst
        (λ (s : ℕ).
          Ensures (Placed t.session done ts) (apply_gaps_from (length ts) file leadin wo s ts'))
        (sym (moves-session gaps t))
        (subst
          (λ (l : List Track).
            Ensures (Placed t.session done ts)
              (apply_gaps_from (length ts) file leadin wo t.session l))
          (sym same) h)

  apply_gaps_from-Placed :
      (before : ℕ) (done : List ℤ) (ts : List Track)
      → Ensures
          (Placed before done ts)
          (apply_gaps_from (length ts) file leadin wo before (map (moves done) ts))
  unfolding apply_gaps_from count_boundaries_from
  apply_gaps_from-Placed before done [] = ([], refl, tt, refl)
  apply_gaps_from-Placed before done (t ∷ ts) =
      let same : leb (moves done t).session before ≡ leb t.session before =
        ap (λ (s : ℕ). leb s before) (moves-session done t) in
      let goal = Placed before done (t ∷ ts) in
      elim (Bool-cases (leb t.session before)) [
        | inl kept ↦
            let kept' : leb (moves done t).session before ≡ true = same ∙ kept in
            rw (kept', apply_gaps_from)
              (Ensures->>= (Placed t.session done ts) goal _ _
                (rounds-behind t done ts (map (moves done) ts) refl done
                  (apply_gaps_from-Placed t.session done ts))
                (λ rest h. Placed-kept before done t ts rest kept h))
        | inr moved ↦ elim (Bool-cases (is_audio (moves done t).mode)) [
          | inl no_lock ↦
              let moved' : leb (moves done t).session before ≡ false = same ∙ moved in
              rw (moved', no_lock, apply_gaps_from) tt
          | inr lock ↦
              let moved' : leb (moves done t).session before ≡ false = same ∙ moved in
              rw (moved', lock, apply_gaps_from)
                (Ensures->>= InRange goal
                  (detect_session_gap file leadin wo (moves done t).first_lba) _
                  (detect_session_gap-InRange file leadin wo (moves done t).first_lba)
                  (λ gap range.
                    Ensures->>= (Placed t.session (gap ∷ done) ts) goal _ _
                      (rounds-behind t (gap ∷ done) ts (map (move_track gap) (map (moves done) ts))
                        (map-moves gap done ts) done
                        (apply_gaps_from-Placed t.session (gap ∷ done) ts))
                      (λ rest h. Placed-moved before done t ts rest gap moved range h)))
        ]
      ]

map-no_moves : (ts : List Track) → map (moves []) ts ≡ ts
map-no_moves [] = refl
map-no_moves (t ∷ ts) = ap (◌∷◌ t) (map-no_moves ts)

-- When the session gaps of a disc are found, there is one for each session boundary, each has
-- between 11400 and 30000 sectors, the first track stays, and every other track is moved, in its
-- first LBA alone, by the gaps of all the boundaries up to it.
pub apply_session_gaps-place :
    (file : List ℕ) (leadin wo : ℤ) (t : Track) (ts out : List Track)
    → apply_session_gaps file leadin wo (t ∷ ts) ≡ ok out
    → (gaps : List ℤ) × (length gaps ≡ count_session_boundaries (t ∷ ts))
      × All InRange gaps
      × (out ≡ t ∷ place t.session [] gaps ts)
unfolding apply_session_gaps count_session_boundaries
apply_session_gaps-place file leadin wo t ts out e =
    let (rest, found, end) =
      >>=-eq-ok (apply_gaps_from (length ts) file leadin wo t.session ts)
        (λ (rest : List Track). ok (t ∷ rest)) e in
    let (gaps, size, range, same) =
      Ensures-ok (Placed t.session [] ts) _
        (subst
          (λ (l : List Track).
            Ensures (Placed t.session [] ts)
              (apply_gaps_from (length ts) file leadin wo t.session l))
          (map-no_moves ts) (apply_gaps_from-Placed file leadin wo t.session [] ts))
        found in
    (gaps, size, range, sym (ok-injective end) ∙ ap (◌∷◌ t) same)
