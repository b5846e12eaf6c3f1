-- ===== src/Queue/Running.antt =====
-- The running item: where it stands while the worker holds it, and what each operation does to it.
use miniscram.Common.{
  ℕ, zero, suc, ◌+◌, ◌≡◌, refl, arith, true, false, Option, none, some, List, [], ◌∷◌, ◌++◌, ◌==◌,
  if◌then◌else◌, Bool-cases, inl, inr,
}
use miniscram.Queue.Items.{
  QueueState, QueueItem, is_ready, is_running, first_ready, cancel_ready, cancel_remaining_ready,
  update_at, running_from, remove_by_id, update_running_progress, has_path,
}
use miniscram.Queue.Add.{Files, classify, add_cues}

abbrev pub NoneRunning : List QueueItem → Type 0
NoneRunning [] = Unit {0}
NoneRunning (it ∷ its) = (is_running it.state ≡ false) × NoneRunning its

-- The item at the index runs, no other does, and none before it is ready.
abbrev pub RunsAt : ℕ → List QueueItem → Type 0
RunsAt idx [] = true ≡ false
RunsAt zero (it ∷ its) = (is_running it.state ≡ true) × NoneRunning its
RunsAt (suc idx) (it ∷ its) =
    (is_running it.state ≡ false) × (is_ready it.state ≡ false) × RunsAt idx its

-- What an assignment leaves; a panic is excluded.
abbrev pub Lands : (List QueueItem → Type 0) → Option (List QueueItem) → Type 0
Lands P none = true ≡ false
Lands P (some its) = P its

classify_state :
    (fs : Files) (cue : List ℕ) (id : ℕ) → is_running (classify fs cue id).state ≡ false
unfolding classify is_running
classify_state fs cue id = ground arith

NoneRunning-append :
    (its : List QueueItem) (it : QueueItem)
    → is_running it.state ≡ false
    → NoneRunning its
    → NoneRunning (its ++ (it ∷ []))
NoneRunning-append [] it e h = (e, tt)
NoneRunning-append (u ∷ its) it e h = (h.0, NoneRunning-append its it e h.1)

RunsAt-append :
    (idx : ℕ) (its : List QueueItem) (it : QueueItem)
    → is_running it.state ≡ false
    → RunsAt idx its
    → RunsAt idx (its ++ (it ∷ []))
RunsAt-append idx [] it e h = cc
RunsAt-append zero (u ∷ its) it e h = (h.0, NoneRunning-append its it e h.1)
RunsAt-append (suc idx) (u ∷ its) it e h = (h.0, h.1, RunsAt-append idx its it e h.2)

pub NoneRunning-add :
    (fs : Files) (cues : List (List ℕ)) (its : List QueueItem) (next : ℕ)
    → NoneRunning its
    → NoneRunning (add_cues fs cues (its, next)).0
unfolding add_cues
NoneRunning-add fs [] its next h = h
NoneRunning-add fs (cue ∷ cues) its next h = elim (Bool-cases (has_path cue its)) [
  | inl known ↦ rw known (NoneRunning-add fs cues its next h)
  | inr fresh ↦ rw fresh (
      NoneRunning-add fs cues _ (next + 1)
        (NoneRunning-append its (classify fs cue next) (classify_state fs cue next) h))
]

pub RunsAt-add :
    (fs : Files) (cues : List (List ℕ)) (idx : ℕ) (its : List QueueItem) (next : ℕ)
    → RunsAt idx its
    → RunsAt idx (add_cues fs cues (its, next)).0
unfolding add_cues
RunsAt-add fs [] idx its next h = h
RunsAt-add fs (cue ∷ cues) idx its next h = elim (Bool-cases (has_path cue its)) [
  | inl known ↦ rw known (RunsAt-add fs cues idx its next h)
  | inr fresh ↦ rw fresh (
      RunsAt-add fs cues idx _ (next + 1)
        (RunsAt-append idx its (classify fs cue next) (classify_state fs cue next) h))
]

-- Picking the first ready item makes it the running one.
runs_behind :
    (it : QueueItem) (idx : ℕ) (o : Option (List QueueItem))
    → is_running it.state ≡ false
    → is_ready it.state ≡ false
    → Lands (RunsAt idx) o
    → Lands (RunsAt (suc idx)) (elim o [ none ↦ none | some rest ↦ some (it ∷ rest) ])
runs_behind it idx none e f h = h
runs_behind it idx (some rest) e f h = (e, f, h)

pub RunsAt-pick :
    (now idx : ℕ) (its : List QueueItem)
    → NoneRunning its
    → first_ready its ≡ some idx
    → Lands (RunsAt idx) (update_at idx (running_from now) its)
unfolding first_ready update_at running_from is_running
RunsAt-pick now idx [] h e = cc
RunsAt-pick now zero (it ∷ its) h e = (refl, h.1)
RunsAt-pick now (suc idx) (it ∷ its) h e =
    runs_behind it idx (update_at idx (running_from now) its) h.0 (ground arith)
      (RunsAt-pick now idx its h.1 (ground arith))

none_behind :
    (it : QueueItem) (o : Option (List QueueItem))
    → is_running it.state ≡ false
    → Lands NoneRunning o
    → Lands NoneRunning (elim o [ none ↦ none | some rest ↦ some (it ∷ rest) ])
none_behind it none e h = h
none_behind it (some rest) e h = (e, h)

-- An assignment that ends the running item.
pub NoneRunning-update :
    (idx : ℕ) (f : QueueItem → QueueItem) (its : List QueueItem)
    → ((it : QueueItem) → is_running (f it).state ≡ false)
    → RunsAt idx its
    → Lands NoneRunning (update_at idx f its)
unfolding update_at
NoneRunning-update idx f [] k h = cc
NoneRunning-update zero f (it ∷ its) k h = (k it, h.1)
NoneRunning-update (suc idx) f (it ∷ its) k h =
    none_behind it (update_at idx f its) h.0 (NoneRunning-update idx f its k h.2)

-- The item that `removeByID` finds, if any, is ready.
abbrev pub HitsReady : ℕ → List QueueItem → Type 0
HitsReady id [] = Unit {0}
HitsReady id (it ∷ its) = if it.id == id then (is_ready it.state ≡ true) else HitsReady id its

pub NoneRunning-remove :
    (id : ℕ) (its : List QueueItem) → NoneRunning its → NoneRunning (remove_by_id id its)
unfolding remove_by_id
NoneRunning-remove id [] h = h
NoneRunning-remove id (it ∷ its) h = ground (arith, NoneRunning-remove id its)

not_both : (s : QueueState) → is_running s ≡ true → is_ready s ≡ true → true ≡ false
unfolding is_running is_ready
not_both s e f = ground arith

pub RunsAt-remove :
    (id idx : ℕ) (its : List QueueItem)
    → HitsReady id its
    → RunsAt idx its
    → RunsAt idx (remove_by_id id its)
unfolding remove_by_id
RunsAt-remove id idx [] r h = h
RunsAt-remove id zero (it ∷ its) r h = ground (arith, not_both it.state, NoneRunning-remove id its)
RunsAt-remove id (suc idx) (it ∷ its) r h = ground (arith, RunsAt-remove id idx its)

pub NoneRunning-cancel :
    (its : List QueueItem) → NoneRunning its → NoneRunning (cancel_remaining_ready its)
unfolding cancel_remaining_ready cancel_ready is_running
NoneRunning-cancel [] h = h
NoneRunning-cancel (it ∷ its) h = ground (arith, NoneRunning-cancel its)

pub NoneRunning-progress :
    (label : List ℕ) (frac : ℕ) (its : List QueueItem)
    → NoneRunning its
    → NoneRunning (update_running_progress label frac its)
unfolding update_running_progress
NoneRunning-progress label frac [] h = h
NoneRunning-progress label frac (it ∷ its) h = ground (arith, NoneRunning-progress label frac its)

pub RunsAt-progress :
    (label : List ℕ) (frac idx : ℕ) (its : List QueueItem)
    → RunsAt idx its
    → RunsAt idx (update_running_progress label frac its)
unfolding update_running_progress
RunsAt-progress label frac idx [] h = h
RunsAt-progress label frac zero (it ∷ its) h = ground arith
RunsAt-progress label frac (suc idx) (it ∷ its) h =
    ground (arith, RunsAt-progress label frac idx its)
