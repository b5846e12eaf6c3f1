-- ===== src/Queue/History.antt =====
-- What has ended is not changed any more.
use mathlib.Core.Path.{subst}
use miniscram.Common.{ℕ, zero, suc, ◌≡◌, refl, Bool, true, false, Option, none, some, List}
use miniscram.Queue.Items.{
  QueueItem, ActionResult, next_ready_index, update_at, running_from, failed_with, with_result,
}
use miniscram.Queue.Add.{add_paths}
use miniscram.Queue.Worker.{
  Worker, idle, at_top, starting, waiting, leaving, crashed, World, Action, add, remove, stop,
  set_delete_scram, follow, progress, unused, clear_unused, enter, pick, start_fails, starts,
  result, leave, step, assigned, added, entered, picked, with_items,
}
use miniscram.Queue.Running.{RunsAt}
use miniscram.Queue.Invariant.{held_at, first_of_next}
use miniscram.Queue.Holds.{Inv, IsCurrent}
use miniscram.Queue.Settled.{
  Has, IsSettled, Has-add, Has-remove, Has-cancel, Has-progress, Kept, Has-update, RunsAt-open,
  first_ready-open, StillHas,
}

assigned-Has :
    (it : QueueItem) (w : World) (o : Option (List QueueItem)) (k : Worker)
    → Has it w.q.items
    → Kept it o
    → StillHas it (some (assigned w o k))
unfolding assigned with_items
assigned-Has it w none k h m = h
assigned-Has it w (some its) k h m = m

picked-Has :
    (it : QueueItem) (w : World) (now : ℕ) (o : Option ℕ)
    → next_ready_index w.q ≡ o
    → IsSettled it
    → Has it w.q.items
    → StillHas it (some (picked w now o))
unfolding picked
picked-Has it w now none e s h = h
picked-Has it w now (some idx) e s h =
    assigned-Has it w (update_at idx (running_from now) w.q.items) (starting idx) h (
      Has-update idx (running_from now) it w.q.items
        (first_ready-open idx w.q.items (first_of_next w.q idx e)) s h)

entered-Has :
    (it : QueueItem) (w : World) (left : ℕ) (owned : Bool)
    → Has it w.q.items
    → StillHas it (some (entered w left owned))
unfolding entered
entered-Has it w left true h = h
entered-Has it w left false h = h

step_enter-Has :
    (it : QueueItem) (w : World) (n : ℕ)
    → w.spawned ≡ n
    → Has it w.q.items
    → StillHas it (step w enter)
unfolding step
step_enter-Has it w zero e h = rw e tt
step_enter-Has it w (suc left) e h = rw e (entered-Has it w left w.q.worker_running h)

step_pick-Has :
    (it : QueueItem) (w : World) (now : ℕ) (k : Worker)
    → w.worker ≡ k
    → IsSettled it
    → Has it w.q.items
    → StillHas it (step w (pick now))
unfolding step
step_pick-Has it w now at_top e s h = rw e (picked-Has it w now (next_ready_index w.q) refl s h)
step_pick-Has it w now idle e s h = rw e tt
step_pick-Has it w now (starting idx) e s h = rw e tt
step_pick-Has it w now (waiting idx) e s h = rw e tt
step_pick-Has it w now leaving e s h = rw e tt
step_pick-Has it w now crashed e s h = rw e tt

-- The assignment at the running item's index.
ended-Has :
    (it : QueueItem) (w : World) (idx : ℕ) (f : QueueItem → QueueItem)
    → RunsAt idx w.q.items
    → IsSettled it
    → Has it w.q.items
    → StillHas it (some (assigned w (update_at idx f w.q.items) at_top))
ended-Has it w idx f r s h =
    assigned-Has it w (update_at idx f w.q.items) at_top h
      (Has-update idx f it w.q.items (RunsAt-open idx w.q.items r) s h)

step_fails-Has :
    (it : QueueItem) (w : World) (reason : List ℕ) (k : Worker)
    → w.worker ≡ k
    → Inv w
    → IsSettled it
    → Has it w.q.items
    → StillHas it (step w (start_fails reason))
unfolding step
step_fails-Has it w reason (starting idx) e i s h =
    rw e (ended-Has it w idx (failed_with reason) (held_at w (starting idx) e i) s h)
step_fails-Has it w reason idle e i s h = rw e tt
step_fails-Has it w reason at_top e i s h = rw e tt
step_fails-Has it w reason (waiting idx) e i s h = rw e tt
step_fails-Has it w reason leaving e i s h = rw e tt
step_fails-Has it w reason crashed e i s h = rw e tt

step_starts-Has :
    (it : QueueItem) (w : World) (k : Worker)
    → w.worker ≡ k
    → Has it w.q.items
    → StillHas it (step w starts)
unfolding step
step_starts-Has it w (starting idx) e h = rw e h
step_starts-Has it w idle e h = rw e tt
step_starts-Has it w at_top e h = rw e tt
step_starts-Has it w (waiting idx) e h = rw e tt
step_starts-Has it w leaving e h = rw e tt
step_starts-Has it w crashed e h = rw e tt

step_result-Has :
    (it : QueueItem) (w : World) (res : ActionResult) (k : Worker)
    → w.worker ≡ k
    → Inv w
    → IsSettled it
    → Has it w.q.items
    → StillHas it (step w (result res))
unfolding step
step_result-Has it w res (waiting idx) e i s h =
    rw e (ended-Has it w idx (with_result res) (held_at w (waiting idx) e i) s h)
step_result-Has it w res idle e i s h = rw e tt
step_result-Has it w res at_top e i s h = rw e tt
step_result-Has it w res (starting idx) e i s h = rw e tt
step_result-Has it w res leaving e i s h = rw e tt
step_result-Has it w res crashed e i s h = rw e tt

step_leave-Has :
    (it : QueueItem) (w : World) (k : Worker)
    → w.worker ≡ k
    → IsSettled it
    → Has it w.q.items
    → StillHas it (step w leave)
unfolding step
step_leave-Has it w leaving e s h = rw e (Has-cancel it w.q.items s h)
step_leave-Has it w idle e s h = rw e tt
step_leave-Has it w at_top e s h = rw e tt
step_leave-Has it w (starting idx) e s h = rw e tt
step_leave-Has it w (waiting idx) e s h = rw e tt
step_leave-Has it w crashed e s h = rw e tt

step-Has :
    (it : QueueItem) (w : World) (a : Action)
    → IsCurrent w a
    → Inv w
    → IsSettled it
    → Has it w.q.items
    → StillHas it (step w a)
unfolding step with_items added add_paths
step-Has it w (add fs paths) c i s h = Has-add fs _ it w.q.items w.q.next_id h
step-Has it w (remove id) c i s h = Has-remove id it w.q.items c s h
step-Has it w stop c i s h = h
step-Has it w (set_delete_scram b) c i s h = h
step-Has it w (follow b) c i s h = h
step-Has it w (progress label frac) c i s h = Has-progress label frac it w.q.items s h
step-Has it w (unused u) c i s h = h
step-Has it w clear_unused c i s h = h
step-Has it w enter c i s h = step_enter-Has it w w.spawned refl h
step-Has it w (pick now) c i s h = step_pick-Has it w now w.worker refl s h
step-Has it w (start_fails reason) c i s h = step_fails-Has it w reason w.worker refl i s h
step-Has it w starts c i s h = step_starts-Has it w w.worker refl h
step-Has it w (result res) c i s h = step_result-Has it w res w.worker refl i s h
step-Has it w leave c i s h = step_leave-Has it w w.worker refl s h

-- In a queue in order, no step of the worker or the user (the removal of an item that is not ready
-- and a result with another status than the three excepted) changes or removes an item that is skipped, done, failed or cancelled.
pub step-settled :
    (it : QueueItem) (w : World) (a : Action) {w' : World}
    → IsCurrent w a
    → step w a ≡ some w'
    → Inv w
    → IsSettled it
    → Has it w.q.items
    → Has it w'.q.items
step-settled it w a c e i s h = subst (StillHas it) e (step-Has it w a c i s h)
