-- ===== src/Queue/Settled.antt =====
-- queue.go: items that are neither ready nor running, under the changes of the list.
use mathlib.Core.Path.{subst}
use miniscram.Common.{
  ℕ, zero, suc, ◌+◌, ◌≡◌, refl, sym, ap, ◌∙◌, arith, Bool, true, false, ◌||◌, Option, none, some,
  List, [], ◌∷◌, ◌++◌, ◌==◌, ◌⊎◌, inl, inr, if◌then◌else◌, Bool-cases,
}
use miniscram.Queue.Items.{
  QueueItem, is_ready, is_running, first_ready, cancel_ready, cancel_remaining_ready, update_at,
  remove_by_id, update_running_progress, has_path,
}
use miniscram.Queue.Add.{Files, classify, add_cues}
use miniscram.Queue.Worker.{World}
use miniscram.Queue.Running.{RunsAt, HitsReady}

abbrev pub Has : QueueItem → List QueueItem → Type 0
Has it [] = true ≡ false
Has it (u ∷ us) = (it ≡ u) ⊎ Has it us

-- Neither ready nor running: skipped, done, failed or cancelled.
abbrev pub IsSettled : QueueItem → Type 0
IsSettled it = (is_ready it.state ≡ false) × (is_running it.state ≡ false)

Has-append : (it u : QueueItem) (its : List QueueItem) → Has it its → Has it (its ++ (u ∷ []))
Has-append it u [] h = absurd cc
Has-append it u (x ∷ its) (inl e) = inl e
Has-append it u (x ∷ its) (inr h) = inr (Has-append it u its h)

pub Has-add :
    (fs : Files) (cues : List (List ℕ)) (it : QueueItem) (its : List QueueItem) (next : ℕ)
    → Has it its
    → Has it (add_cues fs cues (its, next)).0
unfolding add_cues
Has-add fs [] it its next h = h
Has-add fs (cue ∷ cues) it its next h = elim (Bool-cases (has_path cue its)) [
  | inl known ↦ rw known (Has-add fs cues it its next h)
  | inr fresh ↦
      rw fresh (Has-add fs cues it _ (next + 1) (Has-append it (classify fs cue next) its h))
]

ready_settled : (u it : QueueItem) → it ≡ u → IsSettled it → is_ready u.state ≡ true → true ≡ false
ready_settled u it e s r = sym r ∙ ap (λ (x : QueueItem). is_ready x.state) (sym e) ∙ s.0

pub Has-remove :
    (id : ℕ) (it : QueueItem) (its : List QueueItem)
    → HitsReady id its
    → IsSettled it
    → Has it its
    → Has it (remove_by_id id its)
unfolding remove_by_id
Has-remove id it [] r s h = h
Has-remove id it (u ∷ its) r s (inl e) = elim (Bool-cases (u.id == id)) [
  | inl same ↦
      let no : true ≡ false =
        ready_settled u it e s (
          subst (λ (b : Bool). if b then (is_ready u.state ≡ true) else HitsReady id its) same r) in
      absurd cc
  | inr other ↦ rw other (inl e)
]
Has-remove id it (u ∷ its) r s (inr h) = elim (Bool-cases (u.id == id)) [
  | inl same ↦ rw same h
  | inr other ↦ rw other (
      inr (
        Has-remove id it its
          (subst (λ (b : Bool). if b then (is_ready u.state ≡ true) else HitsReady id its) other r)
          s h))
]

-- An item that is settled stays where the ready ones are cancelled and the running one advances.
pub Has-cancel :
    (it : QueueItem) (its : List QueueItem)
    → IsSettled it
    → Has it its
    → Has it (cancel_remaining_ready its)
unfolding cancel_remaining_ready cancel_ready
Has-cancel it [] s h = h
Has-cancel it (u ∷ its) s (inl e) =
    inl (e ∙ sym (rw (ap (λ (x : QueueItem). is_ready x.state) (sym e) ∙ s.0) refl))
Has-cancel it (u ∷ its) s (inr h) = inr (Has-cancel it its s h)

pub Has-progress :
    (label : List ℕ) (frac : ℕ) (it : QueueItem) (its : List QueueItem)
    → IsSettled it
    → Has it its
    → Has it (update_running_progress label frac its)
unfolding update_running_progress
Has-progress label frac it [] s h = h
Has-progress label frac it (u ∷ its) s (inl e) =
    rw (ap (λ (x : QueueItem). is_running x.state) (sym e) ∙ s.1) (inl e)
Has-progress label frac it (u ∷ its) s (inr h) = elim (Bool-cases (is_running u.state)) [
  | inl r ↦ rw r (inr h)
  | inr r ↦ rw r (inr (Has-progress label frac it its s h))
]

-- The assignment at an index whose item is not settled.
abbrev OpenAt : ℕ → List QueueItem → Type 0
OpenAt idx [] = Unit {0}
OpenAt zero (u ∷ us) = (is_ready u.state || is_running u.state) ≡ true
OpenAt (suc idx) (u ∷ us) = OpenAt idx us

-- An assignment that panics is left out.
abbrev pub Kept : QueueItem → Option (List QueueItem) → Type 0
Kept it none = Unit {0}
Kept it (some its) = Has it its

Kept-behind :
    (it u : QueueItem) (o : Option (List QueueItem))
    → (it ≡ u) ⊎ Kept it o
    → Kept it (elim o [ none ↦ none | some rest ↦ some (u ∷ rest) ])
Kept-behind it u none h = tt
Kept-behind it u (some rest) (inl e) = inl e
Kept-behind it u (some rest) (inr h) = inr h

open_settled :
    (u it : QueueItem)
    → it ≡ u
    → IsSettled it
    → (is_ready u.state || is_running u.state) ≡ true
    → true ≡ false
open_settled u it e s o =
    sym o
    ∙ ap (λ (x : QueueItem). is_ready x.state || is_running x.state) (sym e)
    ∙ rw (s.0, s.1) refl

pub Has-update :
    (idx : ℕ) (f : QueueItem → QueueItem) (it : QueueItem) (its : List QueueItem)
    → OpenAt idx its
    → IsSettled it
    → Has it its
    → Kept it (update_at idx f its)
unfolding update_at
Has-update idx f it [] o s h = absurd cc
Has-update zero f it (u ∷ its) o s (inl e) =
    let no : true ≡ false = open_settled u it e s o in absurd cc
Has-update zero f it (u ∷ its) o s (inr h) = inr h
Has-update (suc idx) f it (u ∷ its) o s (inl e) = Kept-behind it u (update_at idx f its) (inl e)
Has-update (suc idx) f it (u ∷ its) o s (inr h) =
    Kept-behind it u (update_at idx f its) (inr (Has-update idx f it its o s h))

pub RunsAt-open : (idx : ℕ) (its : List QueueItem) → RunsAt idx its → OpenAt idx its
RunsAt-open idx [] h = tt
RunsAt-open zero (u ∷ us) h = rw h.0 (ground arith)
RunsAt-open (suc idx) (u ∷ us) h = RunsAt-open idx us h.2

pub first_ready-open :
    (idx : ℕ) (its : List QueueItem) → first_ready its ≡ some idx → OpenAt idx its
unfolding first_ready
first_ready-open idx [] e = tt
first_ready-open zero (u ∷ us) e = ground arith
first_ready-open (suc idx) (u ∷ us) e = first_ready-open idx us (ground arith)

-- What a step leaves of an item that is settled.
abbrev pub StillHas : QueueItem → Option World → Type 0
StillHas it none = Unit {0}
StillHas it (some w) = Has it w.q.items
