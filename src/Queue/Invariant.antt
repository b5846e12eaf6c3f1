-- ===== src/Queue/Invariant.antt =====
-- What holds of the queue and its worker between two steps.
use mathlib.Core.Path.{subst}
use miniscram.Common.{
  ℕ, zero, suc, ◌≡◌, refl, sym, ap, ◌∙◌, arith, Bool, true, false, not, Option, none, some, List,
}
use miniscram.Queue.Items.{
  QueueItem, QueueModel, ActionResult, is_running, next_ready_index, first_ready, update_at,
  running_from, failed_with, with_result,
}
use miniscram.Queue.Worker.{
  Worker, idle, at_top, starting, waiting, leaving, crashed, World, Action, add, remove, stop,
  set_delete_scram, follow, progress, unused, clear_unused, enter, pick, start_fails, starts,
  result, leave, step, new_world, assigned, entered, picked, with_items,
}
use miniscram.Queue.Ids.{
  IsAscending-remove, IsAscending-update, IsAscending-cancel, IsAscending-progress,
}
use miniscram.Queue.Running.{RunsAt, RunsAt-pick, NoneRunning-update, NoneRunning-cancel}
use miniscram.Queue.Holds.{
  Holds, is_idle, Inv, IsFinal, IsCurrent, Keeps, new_world-Inv, Holds-remove, Holds-progress,
  failed_with-not_running, with_result-not_running, moved, step_add, free,
}

entered-Inv :
    (w : World) (left : ℕ) (owned : Bool)
    → w.q.worker_running ≡ owned
    → Inv w
    → Inv (entered w left owned)
unfolding entered
entered-Inv w left true e h = record { ids = h.ids; place = h.place; owner = h.owner }
entered-Inv w left false e h = record {
  ids = h.ids;
  place = free w.worker w.q.items h.place (sym h.owner ∙ e);
  owner = refl;
}

step_enter : (w : World) (n : ℕ) → w.spawned ≡ n → Inv w → Keeps (step w enter)
unfolding step
step_enter w zero e h = rw e tt
step_enter w (suc left) e h = rw e (entered-Inv w left w.q.worker_running refl h)

pub first_of_next :
    (q : QueueModel) (idx : ℕ) → next_ready_index q ≡ some idx → first_ready q.items ≡ some idx
unfolding next_ready_index
first_of_next q idx e = ground arith

picked-Inv :
    (w : World) (now : ℕ) (o : Option ℕ)
    → next_ready_index w.q ≡ o
    → w.worker ≡ at_top
    → Inv w
    → Inv (picked w now o)
unfolding picked running_from
picked-Inv w now none e k h = record {
  ids = h.ids;
  place = subst (λ (v : Worker). Holds v w.q.items) k h.place;
  owner = h.owner ∙ ap (λ (v : Worker). not (is_idle v)) k;
}
picked-Inv w now (some idx) e k h =
    moved w (update_at idx (running_from now) w.q.items) (starting idx)
      (IsAscending-update 0 w.q.next_id idx (running_from now) w.q.items (λ it. refl) h.ids)
      (RunsAt-pick now idx w.q.items (subst (λ (v : Worker). Holds v w.q.items) k h.place)
        (first_of_next w.q idx e))
      (h.owner ∙ ap (λ (v : Worker). not (is_idle v)) k)

step_pick : (w : World) (now : ℕ) (k : Worker) → w.worker ≡ k → Inv w → Keeps (step w (pick now))
unfolding step
step_pick w now at_top e h = rw e (picked-Inv w now (next_ready_index w.q) refl e h)
step_pick w now idle e h = rw e tt
step_pick w now (starting idx) e h = rw e tt
step_pick w now (waiting idx) e h = rw e tt
step_pick w now leaving e h = rw e tt
step_pick w now crashed e h = rw e tt

-- The running item is ended, and the worker returns to the top.
ended-Inv :
    (w : World) (idx : ℕ) (f : QueueItem → QueueItem)
    → ((it : QueueItem) → is_running (f it).state ≡ false)
    → ((it : QueueItem) → (f it).id ≡ it.id)
    → RunsAt idx w.q.items
    → w.q.worker_running ≡ true
    → Inv w
    → Inv (assigned w (update_at idx f w.q.items) at_top)
ended-Inv w idx f ends same place owned h =
    moved w (update_at idx f w.q.items) at_top
      (IsAscending-update 0 w.q.next_id idx f w.q.items same h.ids)
      (NoneRunning-update idx f w.q.items ends place) owned

owned_at : (w : World) (k : Worker) → w.worker ≡ k → Inv w → w.q.worker_running ≡ not (is_idle k)
owned_at w k e h = h.owner ∙ ap (λ (v : Worker). not (is_idle v)) e

pub held_at : (w : World) (k : Worker) → w.worker ≡ k → Inv w → Holds k w.q.items
held_at w k e h = subst (λ (v : Worker). Holds v w.q.items) e h.place

step_start_fails :
    (w : World) (reason : List ℕ) (k : Worker)
    → w.worker ≡ k
    → Inv w
    → Keeps (step w (start_fails reason))
unfolding step failed_with
step_start_fails w reason (starting idx) e h = rw e (
    ended-Inv w idx (failed_with reason) (failed_with-not_running reason) (λ it. refl)
      (held_at w (starting idx) e h) (owned_at w (starting idx) e h) h)
step_start_fails w reason idle e h = rw e tt
step_start_fails w reason at_top e h = rw e tt
step_start_fails w reason (waiting idx) e h = rw e tt
step_start_fails w reason leaving e h = rw e tt
step_start_fails w reason crashed e h = rw e tt

step_starts : (w : World) (k : Worker) → w.worker ≡ k → Inv w → Keeps (step w starts)
unfolding step
step_starts w (starting idx) e h = rw e (record {
  ids = h.ids;
  place = held_at w (starting idx) e h;
  owner = owned_at w (starting idx) e h;
})
step_starts w idle e h = rw e tt
step_starts w at_top e h = rw e tt
step_starts w (waiting idx) e h = rw e tt
step_starts w leaving e h = rw e tt
step_starts w crashed e h = rw e tt

with_result-id : (res : ActionResult) (it : QueueItem) → (with_result res it).id ≡ it.id
unfolding with_result
with_result-id res it = ground arith

step_result :
    (w : World) (res : ActionResult) (k : Worker)
    → IsFinal res.status
    → w.worker ≡ k
    → Inv w
    → Keeps (step w (result res))
unfolding step
step_result w res (waiting idx) final e h = rw e (
    ended-Inv w idx (with_result res) (λ it. with_result-not_running res it final)
      (with_result-id res) (held_at w (waiting idx) e h) (owned_at w (waiting idx) e h) h)
step_result w res idle final e h = rw e tt
step_result w res at_top final e h = rw e tt
step_result w res (starting idx) final e h = rw e tt
step_result w res leaving final e h = rw e tt
step_result w res crashed final e h = rw e tt

step_leave : (w : World) (k : Worker) → w.worker ≡ k → Inv w → Keeps (step w leave)
unfolding step
step_leave w leaving e h = rw e (record {
  ids = IsAscending-cancel 0 w.q.next_id w.q.items h.ids;
  place = NoneRunning-cancel w.q.items (held_at w leaving e h);
  owner = refl;
})
step_leave w idle e h = rw e tt
step_leave w at_top e h = rw e tt
step_leave w (starting idx) e h = rw e tt
step_leave w (waiting idx) e h = rw e tt
step_leave w crashed e h = rw e tt

step-Keeps : (w : World) (a : Action) → IsCurrent w a → Inv w → Keeps (step w a)
unfolding step with_items
step-Keeps w (add fs paths) c h = step_add w fs paths h
step-Keeps w (remove id) c h = record {
  ids = IsAscending-remove 0 w.q.next_id id w.q.items h.ids;
  place = Holds-remove w.worker id w.q.items c h.place;
  owner = h.owner;
}
step-Keeps w stop c h = record { ids = h.ids; place = h.place; owner = h.owner }
step-Keeps w (set_delete_scram b) c h = record { ids = h.ids; place = h.place; owner = h.owner }
step-Keeps w (follow b) c h = record { ids = h.ids; place = h.place; owner = h.owner }
step-Keeps w (progress label frac) c h = record {
  ids = IsAscending-progress 0 w.q.next_id label frac w.q.items h.ids;
  place = Holds-progress w.worker label frac w.q.items h.place;
  owner = h.owner;
}
step-Keeps w (unused u) c h = record { ids = h.ids; place = h.place; owner = h.owner }
step-Keeps w clear_unused c h = record { ids = h.ids; place = h.place; owner = h.owner }
step-Keeps w enter c h = step_enter w w.spawned refl h
step-Keeps w (pick now) c h = step_pick w now w.worker refl h
step-Keeps w (start_fails reason) c h = step_start_fails w reason w.worker refl h
step-Keeps w starts c h = step_starts w w.worker refl h
step-Keeps w (result res) c h = step_result w res w.worker c refl h
step-Keeps w leave c h = step_leave w w.worker refl h

-- Each step of the worker or the user, the removal of an item that is not ready and a result with
-- another status than the three excepted, keeps the queue in order: ids grow along the list, exactly the worker that has picked an item has a
-- running one, at its index, and `workerRunning` says whether there is a worker.
pub step-Inv :
    (w : World) (a : Action) {w' : World} → IsCurrent w a → step w a ≡ some w' → Inv w → Inv w'
step-Inv w a c e h = subst Keeps e (step-Keeps w a c h)

-- The worlds that such steps lead to.
pub data Reach (w : World) : World → Type 0 where
  here : Reach w w
  next : {v v' : World} (a : Action) → Reach w v → IsCurrent v a → step v a ≡ some v' → Reach w v'

-- Whatever the user and the worker do from an empty queue on, in whatever order, the ids grow along
-- the list, exactly the worker that has picked an item has a running one, at its index, and
-- `workerRunning` says whether there is a worker. Removals of items that are not ready, and results
-- with another status than the three, are excepted.
pub Reach-Inv : {w : World} → Reach new_world w → Inv w
Reach-Inv here = new_world-Inv
Reach-Inv (next {v} a r c e) = step-Inv v a c e (Reach-Inv r)
