-- ===== src/Runner/Owner.antt =====
-- queue.go: `workerRunning`, and whether the worker waits for a result, under every step.
use miniscram.Common.{
  ℕ, zero, suc, ◌≡◌, refl, sym, ◌∙◌, ap, Bool, true, false, not, Option, none, some, List, [], ◌∷◌,
}
use miniscram.Queue.Items.{
  QueueItem, ActionResult, next_ready_index, update_at, running_from, failed_with, with_result,
}
use miniscram.Queue.Add.{add_paths}
use miniscram.Queue.Worker.{
  Worker, idle, at_top, starting, waiting, leaving, crashed, World, Action, add, remove, stop,
  set_delete_scram, follow, progress, unused, clear_unused, enter, pick, start_fails, starts,
  result, leave, step, assigned, added, entered, picked, with_items,
}
use miniscram.Queue.Holds.{is_idle}

-- `workerRunning` says whether there is a worker.
abbrev pub IsOwned : World → Type 0
IsOwned w = w.q.worker_running ≡ not (is_idle w.worker)

-- The path that the worker waits for.
abbrev pub awaited : Worker → List ℕ → List (List ℕ)
awaited (waiting idx) cue = cue ∷ []
awaited _ cue = []

abbrev pub IsOwnedIf : Option World → Type 0
IsOwnedIf none = Unit
IsOwnedIf (some w) = IsOwned w

assigned-IsOwned :
    (w : World) (o : Option (List QueueItem)) (k : Worker)
    → w.q.worker_running ≡ true
    → is_idle k ≡ false
    → IsOwned (assigned w o k)
unfolding assigned with_items
assigned-IsOwned w none k h e = h
assigned-IsOwned w (some its) k h e = h ∙ ap not (sym e)

owns :
    (w : World) (k : Worker)
    → w.worker ≡ k
    → is_idle k ≡ false
    → IsOwned w
    → w.q.worker_running ≡ true
owns w k at e h = h ∙ ap (λ (v : Worker). not (is_idle v)) at ∙ ap not e

entered-IsOwned :
    (w : World) (left : ℕ) (b : Bool)
    → w.q.worker_running ≡ b
    → IsOwned w
    → IsOwned (entered w left b)
unfolding entered
entered-IsOwned w left true e h = h
entered-IsOwned w left false e h = refl

enter-IsOwned : (w : World) (n : ℕ) → w.spawned ≡ n → IsOwned w → IsOwnedIf (step w enter)
unfolding step
enter-IsOwned w zero e h = rw e tt
enter-IsOwned w (suc left) e h = rw e (entered-IsOwned w left w.q.worker_running refl h)

picked-IsOwned :
    (w : World) (now : ℕ) (o : Option ℕ) → w.worker ≡ at_top → IsOwned w → IsOwned (picked w now o)
unfolding picked
picked-IsOwned w now none at h = owns w at_top at refl h
picked-IsOwned w now (some idx) at h =
    assigned-IsOwned w (update_at idx (running_from now) w.q.items) (starting idx)
      (owns w at_top at refl h) refl

-- The steps that wait for the worker to stand somewhere.
pick-IsOwned :
    (w : World) (now : ℕ) (k : Worker) → w.worker ≡ k → IsOwned w → IsOwnedIf (step w (pick now))
unfolding step
pick-IsOwned w now at_top e h = rw e (picked-IsOwned w now (next_ready_index w.q) e h)
pick-IsOwned w now idle e h = rw e tt
pick-IsOwned w now (starting idx) e h = rw e tt
pick-IsOwned w now (waiting idx) e h = rw e tt
pick-IsOwned w now leaving e h = rw e tt
pick-IsOwned w now crashed e h = rw e tt

start_fails-IsOwned :
    (w : World) (reason : List ℕ) (k : Worker)
    → w.worker ≡ k
    → IsOwned w
    → IsOwnedIf (step w (start_fails reason))
unfolding step
start_fails-IsOwned w reason (starting idx) e h = rw e (
    assigned-IsOwned w (update_at idx (failed_with reason) w.q.items) at_top
      (owns w (starting idx) e refl h) refl)
start_fails-IsOwned w reason idle e h = rw e tt
start_fails-IsOwned w reason at_top e h = rw e tt
start_fails-IsOwned w reason (waiting idx) e h = rw e tt
start_fails-IsOwned w reason leaving e h = rw e tt
start_fails-IsOwned w reason crashed e h = rw e tt

starts-IsOwned : (w : World) (k : Worker) → w.worker ≡ k → IsOwned w → IsOwnedIf (step w starts)
unfolding step
starts-IsOwned w (starting idx) e h = rw e (owns w (starting idx) e refl h)
starts-IsOwned w idle e h = rw e tt
starts-IsOwned w at_top e h = rw e tt
starts-IsOwned w (waiting idx) e h = rw e tt
starts-IsOwned w leaving e h = rw e tt
starts-IsOwned w crashed e h = rw e tt

result-IsOwned :
    (w : World) (res : ActionResult) (k : Worker)
    → w.worker ≡ k
    → IsOwned w
    → IsOwnedIf (step w (result res))
unfolding step
result-IsOwned w res (waiting idx) e h = rw e (
    assigned-IsOwned w (update_at idx (with_result res) w.q.items) at_top
      (owns w (waiting idx) e refl h) refl)
result-IsOwned w res idle e h = rw e tt
result-IsOwned w res at_top e h = rw e tt
result-IsOwned w res (starting idx) e h = rw e tt
result-IsOwned w res leaving e h = rw e tt
result-IsOwned w res crashed e h = rw e tt

leave-IsOwned : (w : World) (k : Worker) → w.worker ≡ k → IsOwned w → IsOwnedIf (step w leave)
unfolding step
leave-IsOwned w leaving e h = rw e refl
leave-IsOwned w idle e h = rw e tt
leave-IsOwned w at_top e h = rw e tt
leave-IsOwned w (starting idx) e h = rw e tt
leave-IsOwned w (waiting idx) e h = rw e tt
leave-IsOwned w crashed e h = rw e tt

pub step-IsOwned : (w : World) (a : Action) → IsOwned w → IsOwnedIf (step w a)
unfolding step added add_paths with_items
step-IsOwned w (add fs paths) h = h
step-IsOwned w (remove id) h = h
step-IsOwned w stop h = h
step-IsOwned w (set_delete_scram b) h = h
step-IsOwned w (follow b) h = h
step-IsOwned w (progress label frac) h = h
step-IsOwned w (unused u) h = h
step-IsOwned w clear_unused h = h
step-IsOwned w enter h = enter-IsOwned w w.spawned refl h
step-IsOwned w (pick now) h = pick-IsOwned w now w.worker refl h
step-IsOwned w (start_fails reason) h = start_fails-IsOwned w reason w.worker refl h
step-IsOwned w starts h = starts-IsOwned w w.worker refl h
step-IsOwned w (result res) h = result-IsOwned w res w.worker refl h
step-IsOwned w leave h = leave-IsOwned w w.worker refl h
