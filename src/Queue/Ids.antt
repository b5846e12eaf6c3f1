-- ===== src/Queue/Ids.antt =====
-- The ids of the queue's items: what each operation does to their order.
use miniscram.Common.{
  ℕ, zero, suc, ◌+◌, ◌≤◌, ◌≡◌, arith, Option, none, some, List, [], ◌∷◌, ◌++◌, Bool-cases, inl, inr,
}
use miniscram.Queue.Items.{
  QueueItem, cancel_ready, cancel_remaining_ready, update_at, remove_by_id, update_running_progress,
  has_path,
}
use miniscram.Queue.Add.{Files, classify, add_cues}

-- The ids grow along the list, from `low` on and below `next`.
abbrev pub IsAscending : ℕ → ℕ → List QueueItem → Type 0
IsAscending low next [] = low ≤ next
IsAscending low next (it ∷ its) = (low ≤ it.id) × IsAscending (suc it.id) next its

IsAscending-le :
    (low low' next : ℕ) (its : List QueueItem)
    → low' ≤ low
    → IsAscending low next its
    → IsAscending low' next its
IsAscending-le low low' next [] le h = omega arith
IsAscending-le low low' next (it ∷ its) le h = (omega arith, h.1)

pub IsAscending-append :
    (low next : ℕ) (its : List QueueItem) (it : QueueItem)
    → it.id ≡ next
    → IsAscending low next its
    → IsAscending low (next + 1) (its ++ (it ∷ []))
IsAscending-append low next [] it e h = (omega arith, omega arith)
IsAscending-append low next (u ∷ its) it e h =
    (h.0, IsAscending-append (suc u.id) next its it e h.1)

pub IsAscending-remove :
    (low next id : ℕ) (its : List QueueItem)
    → IsAscending low next its
    → IsAscending low next (remove_by_id id its)
unfolding remove_by_id
IsAscending-remove low next id [] h = h
IsAscending-remove low next id (it ∷ its) h =
    ground
      (arith, IsAscending-le (suc it.id) low next its, IsAscending-remove (suc it.id) next id its)

-- What holds of the items behind an assignment that does not panic.
abbrev pub OnItems : (List QueueItem → Type 0) → Option (List QueueItem) → Type 0
OnItems P none = Unit {0}
OnItems P (some its) = P its

IsAscending-behind :
    (low next : ℕ) (it : QueueItem) (o : Option (List QueueItem))
    → low ≤ it.id
    → OnItems (IsAscending (suc it.id) next) o
    → OnItems (IsAscending low next) (elim o [ none ↦ none | some rest ↦ some (it ∷ rest) ])
IsAscending-behind low next it none le h = tt
IsAscending-behind low next it (some rest) le h = (le, h)

pub IsAscending-update :
    (low next idx : ℕ) (f : QueueItem → QueueItem) (its : List QueueItem)
    → ((it : QueueItem) → (f it).id ≡ it.id)
    → IsAscending low next its
    → OnItems (IsAscending low next) (update_at idx f its)
unfolding update_at
IsAscending-update low next zero f [] k h = tt
IsAscending-update low next (suc idx) f [] k h = tt
IsAscending-update low next zero f (it ∷ its) k h = rw (k it) h
IsAscending-update low next (suc idx) f (it ∷ its) k h =
    IsAscending-behind low next it (update_at idx f its) h.0
      (IsAscending-update (suc it.id) next idx f its k h.1)

pub IsAscending-cancel :
    (low next : ℕ) (its : List QueueItem)
    → IsAscending low next its
    → IsAscending low next (cancel_remaining_ready its)
unfolding cancel_remaining_ready cancel_ready
IsAscending-cancel low next [] h = h
IsAscending-cancel low next (it ∷ its) h = ground (arith, IsAscending-cancel (suc it.id) next its)

pub IsAscending-progress :
    (low next : ℕ) (label : List ℕ) (frac : ℕ) (its : List QueueItem)
    → IsAscending low next its
    → IsAscending low next (update_running_progress label frac its)
unfolding update_running_progress
IsAscending-progress low next label frac [] h = h
IsAscending-progress low next label frac (it ∷ its) h =
    ground (arith, IsAscending-progress (suc it.id) next label frac its)

classify_id : (fs : Files) (cue : List ℕ) (id : ℕ) → (classify fs cue id).id ≡ id
unfolding classify
classify_id fs cue id = ground arith

pub IsAscending-add :
    (fs : Files) (cues : List (List ℕ)) (its : List QueueItem) (low next : ℕ)
    → IsAscending low next its
    → IsAscending low (add_cues fs cues (its, next)).1 (add_cues fs cues (its, next)).0
unfolding add_cues
IsAscending-add fs [] its low next h = h
IsAscending-add fs (cue ∷ cues) its low next h = elim (Bool-cases (has_path cue its)) [
  | inl known ↦ rw known (IsAscending-add fs cues its low next h)
  | inr fresh ↦ rw fresh (
      IsAscending-add fs cues (its ++ (classify fs cue next ∷ [])) low (next + 1)
        (IsAscending-append low next its (classify fs cue next) (classify_id fs cue next) h))
]
