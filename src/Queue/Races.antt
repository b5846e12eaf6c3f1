-- ===== src/Queue/Races.antt =====
-- Two orders of steps that lose work.
use miniscram.Common.{
  ℕ, suc, ◌≤◌, ◌≡◌, refl, arith, Bool, true, false, not, ◌&&◌, Option, none, some, List, [], ◌∷◌,
  ◌++◌, length,
}
use miniscram.Queue.Items.{
  QueueItem, ActionResult, is_ready, has_ready, cancel_ready, cancel_remaining_ready, update_at,
  with_result, remove_by_id,
}
use miniscram.Queue.Add.{Files, add_paths}
use miniscram.Queue.Worker.{
  idle, at_top, waiting, leaving, World, add, remove, result, leave, step, assigned, added,
  with_items,
}
use miniscram.Queue.Ids.{IsAscending}
use miniscram.Queue.Drain.{run}

no_ready_left : (its : List QueueItem) → has_ready (cancel_remaining_ready its) ≡ false
unfolding has_ready cancel_remaining_ready cancel_ready is_ready
no_ready_left [] = refl
no_ready_left (it ∷ its) = ground (arith, no_ready_left its)

not_needed : (b : Bool) → (not true && b) ≡ false
not_needed b = refl

-- Between the end of the worker's loop and its cleanup `workerRunning` is still set. Whatever is
-- added then starts no worker, and the cleanup leaves none of it ready, although nobody stopped
-- the queue.
pub added_while_leaving :
    (w : World) (fs : Files) (paths : List (List ℕ))
    → w.worker ≡ leaving
    → w.q.worker_running ≡ true
    → (w' : World) × (run w (add fs paths ∷ leave ∷ []) ≡ some w')
      × (w'.q.items ≡ cancel_remaining_ready (add_paths fs paths w.q).0.items)
      × (has_ready w'.q.items ≡ false)
      × (w'.spawned ≡ w.spawned)
      × (w'.worker ≡ idle)
unfolding step added add_paths
added_while_leaving w fs paths at running = (
  record {
    q = record (add_paths fs paths w.q).0 {
      items = cancel_remaining_ready (add_paths fs paths w.q).0.items;
      worker_running = false;
    };
    spawned = w.spawned;
    worker = idle;
  },
  rw (at, running) refl,
  refl,
  no_ready_left _,
  refl,
  refl,
)

-- The item behind the removed one gets the result; without one the index is out of range.
abbrev pub misdirected : List QueueItem → List QueueItem → ActionResult → Option (List QueueItem)
misdirected done [] res = none
misdirected done (u ∷ us) res = some (done ++ (with_result res u ∷ us))

update_behind :
    (done post : List QueueItem) (res : ActionResult)
    → update_at (length done) (with_result res) (done ++ post) ≡ misdirected done post res
unfolding update_at
update_behind [] [] res = refl
update_behind [] (u ∷ us) res = refl
update_behind (d ∷ done) [] res = rw (update_behind done [] res) refl
update_behind (d ∷ done) (u ∷ us) res = rw (update_behind done (u ∷ us) res) refl

remove_middle :
    (low next : ℕ) (done post : List QueueItem) (it : QueueItem)
    → IsAscending low next (done ++ (it ∷ post))
    → (low ≤ it.id) × (remove_by_id it.id (done ++ (it ∷ post)) ≡ done ++ post)
unfolding remove_by_id
remove_middle low next [] post it h = ground arith
remove_middle low next (d ∷ done) post it h =
    ground (arith, remove_middle (suc d.id) next done post it h.1)

-- If the running item is removed while its result is awaited, the result is written to the item
-- behind it, and if there is none, the worker panics on an index out of range.
pub removed_while_running :
    (w : World) (done post : List QueueItem) (it : QueueItem) (res : ActionResult)
    → w.worker ≡ waiting (length done)
    → w.q.items ≡ done ++ (it ∷ post)
    → IsAscending 0 w.q.next_id (done ++ (it ∷ post))
    → run w (remove it.id ∷ result res ∷ [])
      ≡ some (
          assigned
            (record w { q = with_items w.q (done ++ post) })
            (misdirected done post res)
            at_top)
unfolding step with_items
removed_while_running w done post it res at is h =
    rw (at, is, (remove_middle 0 w.q.next_id done post it h).1, update_behind done post res) refl
