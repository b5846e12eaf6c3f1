-- ===== src/Queue/Worker.antt =====
-- queue.go: `drain` beside the actions of the user, one step for each stretch under the lock.
use miniscram.Common.{
  ℕ, zero, suc, ◌+◌, Bool, true, false, Option, none, some, List, [], ◌∷◌, ◌++◌, codes,
  if◌then◌else◌,
}
use miniscram.Text.{stem}
use miniscram.Queue.Items.{
  QueueItem, QueueModel, ActionResult, UnusedScram, next_ready_index, cancel_remaining_ready,
  update_at, running_from, failed_with, with_result, remove_by_id, update_running_progress,
  append_unused_scram, new_queue_model,
}
use miniscram.Queue.Add.{Files, add_paths}

-- Where the goroutine stands that set `workerRunning`: at the top of the loop, between picking an
-- item and `runner.Start`, waiting for the result, or between the end of the loop and the
-- deferred cleanup. `crashed` is an index out of range.
pub data Worker : Type 0 where
  idle : Worker
  at_top : Worker
  starting : ℕ → Worker
  waiting : ℕ → Worker
  leaving : Worker
  crashed : Worker

-- `spawned` counts the goroutines in front of `drain`'s first lock.
pub record World : Type 0 where
  pub q : QueueModel
  pub spawned : ℕ
  pub worker : Worker

-- `stop` is also what closing the window does to the queue. `follow` is each way in which the
-- user sets `autoFollow`.
pub data Action : Type 0 where
  add : Files → List (List ℕ) → Action
  remove : ℕ → Action
  stop : Action
  set_delete_scram : Bool → Action
  follow : Bool → Action
  progress : List ℕ → ℕ → Action
  unused : UnusedScram → Action
  clear_unused : Action
  enter : Action
  pick : ℕ → Action
  start_fails : List ℕ → Action
  starts : Action
  result : ActionResult → Action
  leave : Action

unfoldable pub with_items : QueueModel → List QueueItem → QueueModel
with_items q items = record q { items = items }

-- The worker behind an assignment to an item.
unfoldable pub assigned : World → Option (List QueueItem) → Worker → World
unfolding with_items
assigned w none next = record w { worker = crashed }
assigned w (some items) next = record w { q = with_items w.q items; worker = next }

-- `addPaths`, with the goroutine that it starts.
unfoldable pub added : World → QueueModel × List (List ℕ) × Bool → World
added w (q, loads, need) = record w { q = q; spawned = if need then w.spawned + 1 else w.spawned }

-- The first lock of `drain`: a second goroutine returns at once.
unfoldable pub entered : World → ℕ → Bool → World
entered w left true = record w { spawned = left }
entered w left false = record w {
  q = record w.q { worker_running = true };
  spawned = left;
  worker = at_top;
}

-- The lock at the top of the loop.
unfoldable pub picked : World → ℕ → Option ℕ → World
unfolding assigned
picked w now none = record w { worker = leaving }
picked w now (some idx) = assigned w (update_at idx (running_from now) w.q.items) (starting idx)

-- What an action does; `none` where the goroutine does not stand at it.
unfoldable pub step : World → Action → Option World
unfolding added entered picked assigned with_items
step w (add fs paths) = some (added w (add_paths fs paths w.q))
step w (remove id) = some (record w { q = with_items w.q (remove_by_id id w.q.items) })
step w stop = some (record w { q = record w.q { stopped = true } })
step w (set_delete_scram b) = some (record w { q = record w.q { delete_scram = b } })
step w (follow b) = some (record w { q = record w.q { auto_follow = b } })
step w (progress label frac) =
    some (record w { q = with_items w.q (update_running_progress label frac w.q.items) })
step w (unused u) =
    some (record w { q = record w.q { unused_scrams = append_unused_scram u w.q.unused_scrams } })
step w clear_unused = some (record w { q = record w.q { unused_scrams = [] } })
step w enter = elim w.spawned [ zero ↦ none | suc left ↦ some (entered w left w.q.worker_running) ]
step w (pick now) = elim w.worker [ at_top ↦ some (picked w now (next_ready_index w.q)) | _ ↦ none ]
step w (start_fails reason) = elim w.worker [
  | starting idx ↦ some (assigned w (update_at idx (failed_with reason) w.q.items) at_top)
  | _ ↦ none
]
step w starts = elim w.worker [ starting idx ↦ some (record w { worker = waiting idx }) | _ ↦ none ]
step w (result res) = elim w.worker [
  | waiting idx ↦ some (assigned w (update_at idx (with_result res) w.q.items) at_top)
  | _ ↦ none
]
step w leave = elim w.worker [
  | leaving ↦ some (record w {
    q = record w.q { items = cancel_remaining_ready w.q.items; worker_running = false };
    worker = idle;
  })
  | _ ↦ none
]

abbrev pub new_world : World
new_world = record { q = new_queue_model; spawned = 0; worker = idle }

-- The arguments of the subprocess that packs an item.
unfoldable pub pack_args : Bool → List ℕ → List (List ℕ)
pack_args delete_scram cue =
    let args = codes "pack" ∷ codes "--progress=json" ∷ cue ∷ [] in
    if delete_scram then args else args ++ (codes "--keep-source" ∷ [])

unfoldable pub pack_output : List ℕ → List ℕ
pack_output cue = stem cue ++ codes ".miniscram"
