-- ===== src/Queue/Holds.antt =====
-- queue.go: the invariant of the queue and its worker, and what the items keep of it.
use miniscram.Common.{ℕ, ◌≡◌, refl, arith, Bool, true, false, not, Option, none, some, List}
use miniscram.Queue.Items.{
  QueueItem, Status, ActionResult, is_running, failed_with, with_result, remove_by_id,
  update_running_progress,
}
use miniscram.Queue.Add.{Files, add_paths, add_cues}
use miniscram.Queue.Worker.{
  Worker, idle, at_top, starting, waiting, leaving, crashed, World, Action, add, remove, result,
  step, new_world, assigned, added, with_items,
}
use miniscram.Queue.Ids.{IsAscending, OnItems, IsAscending-add}
use miniscram.Queue.Running.{
  NoneRunning, RunsAt, Lands, HitsReady, NoneRunning-add, RunsAt-add, NoneRunning-remove,
  RunsAt-remove, NoneRunning-progress, RunsAt-progress,
}

-- Which item runs, by where the worker stands.
abbrev pub Holds : Worker → List QueueItem → Type 0
Holds idle its = NoneRunning its
Holds at_top its = NoneRunning its
Holds (starting idx) its = RunsAt idx its
Holds (waiting idx) its = RunsAt idx its
Holds leaving its = NoneRunning its
Holds crashed its = true ≡ false

abbrev pub is_idle : Worker → Bool
is_idle idle = true
is_idle _ = false

pub record Inv (w : World) : Type 0 where
  pub ids : IsAscending 0 w.q.next_id w.q.items
  pub place : Holds w.worker w.q.items
  pub owner : w.q.worker_running ≡ not (is_idle w.worker)

-- The three statuses that the runner reports.
abbrev pub IsFinal : Status → Type 0
IsFinal Status.other = true ≡ false
IsFinal _ = Unit {0}

-- The user's removals hit items that are ready when they are done, and a result has one of the
-- three statuses.
abbrev pub IsCurrent : World → Action → Type 0
IsCurrent w (remove id) = HitsReady id w.q.items
IsCurrent w (result res) = IsFinal res.status
IsCurrent w _ = Unit {0}

abbrev pub Keeps : Option World → Type 0
Keeps none = Unit {0}
Keeps (some w) = Inv w

pub new_world-Inv : Inv new_world
new_world-Inv = record { ids = omega arith; place = tt; owner = refl }

pub Holds-remove :
    (k : Worker) (id : ℕ) (its : List QueueItem)
    → HitsReady id its
    → Holds k its
    → Holds k (remove_by_id id its)
Holds-remove idle id its r h = NoneRunning-remove id its h
Holds-remove at_top id its r h = NoneRunning-remove id its h
Holds-remove (starting idx) id its r h = RunsAt-remove id idx its r h
Holds-remove (waiting idx) id its r h = RunsAt-remove id idx its r h
Holds-remove leaving id its r h = NoneRunning-remove id its h
Holds-remove crashed id its r h = h

pub Holds-progress :
    (k : Worker) (label : List ℕ) (frac : ℕ) (its : List QueueItem)
    → Holds k its
    → Holds k (update_running_progress label frac its)
Holds-progress idle label frac its h = NoneRunning-progress label frac its h
Holds-progress at_top label frac its h = NoneRunning-progress label frac its h
Holds-progress (starting idx) label frac its h = RunsAt-progress label frac idx its h
Holds-progress (waiting idx) label frac its h = RunsAt-progress label frac idx its h
Holds-progress leaving label frac its h = NoneRunning-progress label frac its h
Holds-progress crashed label frac its h = h

Holds-add :
    (k : Worker) (fs : Files) (cues : List (List ℕ)) (its : List QueueItem) (next : ℕ)
    → Holds k its
    → Holds k (add_cues fs cues (its, next)).0
Holds-add idle fs cues its next h = NoneRunning-add fs cues its next h
Holds-add at_top fs cues its next h = NoneRunning-add fs cues its next h
Holds-add (starting idx) fs cues its next h = RunsAt-add fs cues idx its next h
Holds-add (waiting idx) fs cues its next h = RunsAt-add fs cues idx its next h
Holds-add leaving fs cues its next h = NoneRunning-add fs cues its next h
Holds-add crashed fs cues its next h = h

pub failed_with-not_running :
    (reason : List ℕ) (it : QueueItem) → is_running (failed_with reason it).state ≡ false
unfolding failed_with is_running
failed_with-not_running reason it = refl

pub with_result-not_running :
    (res : ActionResult) (it : QueueItem)
    → IsFinal res.status
    → is_running (with_result res it).state ≡ false
unfolding with_result is_running
with_result-not_running res it h = ground arith

-- A step that puts other items, with the same next id, where the worker stands.
pub moved :
    (w : World) (o : Option (List QueueItem)) (k : Worker)
    → OnItems (IsAscending 0 w.q.next_id) o
    → Lands (Holds k) o
    → w.q.worker_running ≡ not (is_idle k)
    → Keeps (some (assigned w o k))
unfolding assigned with_items
moved w none k a h e = absurd cc
moved w (some its) k a h e = record { ids = a; place = h; owner = e }

pub step_add :
    (w : World) (fs : Files) (paths : List (List ℕ)) → Inv w → Keeps (step w (add fs paths))
unfolding step added add_paths
step_add w fs paths h = record {
  ids = IsAscending-add fs _ w.q.items 0 w.q.next_id h.ids;
  place = Holds-add w.worker fs _ w.q.items w.q.next_id h.place;
  owner = h.owner;
}

-- Without an owner no item runs.
pub free :
    (k : Worker) (its : List QueueItem) → Holds k its → not (is_idle k) ≡ false → NoneRunning its
free idle its h e = h
free at_top its h e = cc
free (starting idx) its h e = cc
free (waiting idx) its h e = cc
free leaving its h e = cc
free crashed its h e = cc
