-- ===== src/Runner/Waits.antt =====
-- queue.go: whether the worker waits for a result, under the steps that do not call the runner.
use miniscram.Common.{
  ℕ, zero, suc, ◌≡◌, refl, sym, ◌∙◌, Bool, true, false, not, Option, none, some, List, [],
}
use miniscram.Queue.Items.{QueueItem, next_ready_index, update_at, running_from}
use miniscram.Queue.Add.{add_paths}
use miniscram.Queue.Worker.{
  Worker, idle, at_top, starting, waiting, leaving, crashed, World, Action, add, remove, stop,
  set_delete_scram, follow, progress, unused, clear_unused, enter, pick, start_fails, starts,
  result, leave, step, assigned, added, entered, picked, with_items,
}
use miniscram.Queue.Holds.{is_idle}
use miniscram.Runner.Owner.{IsOwned, awaited}
use miniscram.Runner.Window.{cue_after, calls_runner}

-- The worker waits for the same as before.
abbrev pub IsSteady : Worker → List ℕ → List ℕ → Option World → Type 0
IsSteady k cue cue' none = Unit
IsSteady k cue cue' (some w) = awaited w.worker cue' ≡ awaited k cue

pub idle_awaits : (k : Worker) (cue : List ℕ) → false ≡ not (is_idle k) → awaited k cue ≡ []
idle_awaits idle cue e = refl
idle_awaits at_top cue e = cc
idle_awaits (starting idx) cue e = cc
idle_awaits (waiting idx) cue e = cc
idle_awaits leaving cue e = cc
idle_awaits crashed cue e = cc

entered-IsSteady :
    (w : World) (left : ℕ) (b : Bool) (cue : List ℕ)
    → w.q.worker_running ≡ b
    → IsOwned w
    → IsSteady w.worker cue cue (some (entered w left b))
unfolding entered
entered-IsSteady w left true cue e h = refl
entered-IsSteady w left false cue e h = sym (idle_awaits w.worker cue (sym e ∙ h))

enter-IsSteady :
    (w : World) (n : ℕ) (cue : List ℕ)
    → w.spawned ≡ n
    → IsOwned w
    → IsSteady w.worker cue cue (step w enter)
unfolding step
enter-IsSteady w zero cue e h = rw e tt
enter-IsSteady w (suc left) cue e h = rw e (entered-IsSteady w left w.q.worker_running cue refl h)

-- Picking an item ends without a wait.
assigned-awaits :
    (w : World) (o : Option (List QueueItem)) (idx : ℕ) (cue : List ℕ)
    → awaited (assigned w o (starting idx)).worker cue ≡ []
unfolding assigned with_items
assigned-awaits w none idx cue = refl
assigned-awaits w (some its) idx cue = refl

picked-awaits :
    (w : World) (now : ℕ) (o : Option ℕ) (cue : List ℕ) → awaited (picked w now o).worker cue ≡ []
unfolding picked
picked-awaits w now none cue = refl
picked-awaits w now (some idx) cue =
    assigned-awaits w (update_at idx (running_from now) w.q.items) idx cue

pick-IsSteady :
    (w : World) (now : ℕ) (k : Worker) (cue cue' : List ℕ)
    → w.worker ≡ k
    → IsSteady k cue cue' (step w (pick now))
unfolding step
pick-IsSteady w now at_top cue cue' e = rw e (picked-awaits w now (next_ready_index w.q) cue')
pick-IsSteady w now idle cue cue' e = rw e tt
pick-IsSteady w now (starting idx) cue cue' e = rw e tt
pick-IsSteady w now (waiting idx) cue cue' e = rw e tt
pick-IsSteady w now leaving cue cue' e = rw e tt
pick-IsSteady w now crashed cue cue' e = rw e tt

leave-IsSteady :
    (w : World) (k : Worker) (cue : List ℕ) → w.worker ≡ k → IsSteady k cue cue (step w leave)
unfolding step
leave-IsSteady w leaving cue e = rw e refl
leave-IsSteady w idle cue e = rw e tt
leave-IsSteady w at_top cue e = rw e tt
leave-IsSteady w (starting idx) cue e = rw e tt
leave-IsSteady w (waiting idx) cue e = rw e tt
leave-IsSteady w crashed cue e = rw e tt

pub step-IsSteady :
    (w : World) (a : Action) (cue : List ℕ)
    → calls_runner a ≡ false
    → IsOwned w
    → IsSteady w.worker cue (cue_after a w cue) (step w a)
unfolding step added add_paths with_items cue_after calls_runner
step-IsSteady w (add fs paths) cue apart h = refl
step-IsSteady w (remove id) cue apart h = refl
step-IsSteady w stop cue apart h = refl
step-IsSteady w (set_delete_scram b) cue apart h = refl
step-IsSteady w (follow b) cue apart h = refl
step-IsSteady w (progress label frac) cue apart h = refl
step-IsSteady w (unused u) cue apart h = refl
step-IsSteady w clear_unused cue apart h = refl
step-IsSteady w enter cue apart h = enter-IsSteady w w.spawned cue refl h
step-IsSteady w (pick now) cue apart h = pick-IsSteady w now w.worker cue _ refl
step-IsSteady w (start_fails reason) cue apart h = cc
step-IsSteady w starts cue apart h = cc
step-IsSteady w (result res) cue apart h = cc
step-IsSteady w leave cue apart h = leave-IsSteady w w.worker cue refl
