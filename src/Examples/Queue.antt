-- ===== src/Examples/Queue.antt =====
-- The theorems on the job queue at small inputs.
use miniscram.Common.{
  ℕ, ◌≡◌, refl, arith, Bool, true, false, some, List, [], ◌∷◌, ◌++◌, codes, All, inl,
}
use miniscram.Queue.Items.{
  QueueState, ready, running, done, QueueItem, QueueModel, success, ActionResult, new_queue_model,
  has_ready, has_path, is_ready, count_state, cancel_remaining_ready, is_running, update_at,
  with_result,
}
use miniscram.Queue.Add.{Files, a_file, add_paths}
use miniscram.Queue.Worker.{
  World, idle, at_top, waiting, leaving, add, remove, stop, leave, result, step, new_world,
  assigned, with_items,
}
use miniscram.Queue.Invariant.{here, next, Reach-Inv}
use miniscram.Queue.Holds.{Inv}
use miniscram.Queue.Drain.{drain_finishes, run, drain_actions, handed}
use miniscram.Queue.Races.{added_while_leaving, removed_while_running, misdirected}
use miniscram.Queue.History.{step-settled}
use miniscram.Queue.Settled.{Has, IsSettled}
use miniscram.Queue.Paths.{IsDistinct, dropped_cues, add_paths-IsDistinct}

-- Every path is a file that is there, and no container is.
abbrev some_files : Files
some_files = record {
  exists = λ path. false;
  absolute = λ path. some path;
  stat = λ path. some a_file;
}

abbrev item : ℕ → QueueState → QueueItem
item id state = record {
  id = id;
  cue_path = id ∷ codes ".cue";
  basename = [];
  reason = [];
  state = state;
  label = [];
  fraction = 0;
  started_at = 0;
  duration_ms = 0;
}

abbrev queue_of : List QueueItem → Bool → QueueModel
queue_of items owned = record new_queue_model {
  items = items;
  next_id = 10;
  worker_running = owned;
}

abbrev one_running : World
one_running = record {
  q = queue_of (item 1 done ∷ item 2 running ∷ item 3 ready ∷ []) true;
  spawned = 0;
  worker = waiting 1;
}

one_running-Inv : Inv one_running
unfolding is_running is_ready
one_running-Inv = record {
  ids = (omega arith, (omega arith, (omega arith, omega arith)));
  place = (refl, refl, (refl, (refl, tt)));
  owner = refl;
}

abbrev success_result : ActionResult
success_result = record { status = success; error = []; duration_ms = 7 }

abbrev after_result : World
after_result = record {
  q =
      queue_of
        (item 1 done
          ∷ record (item 2 done) { fraction = 1000; duration_ms = 7 }
          ∷ item 3 ready
          ∷ [])
        true;
  spawned = 0;
  worker = at_top;
}

result_runs : step one_running (result success_result) ≡ some after_result
unfolding step update_at with_result assigned with_items
result_runs = refl

settled : IsSettled (item 1 done)
unfolding is_ready is_running
settled = (refl, refl)

step-settled_example : Has (item 1 done) after_result.q.items
step-settled_example =
    step-settled (item 1 done) one_running (result success_result) tt result_runs one_running-Inv
      settled (inl refl)

stop_runs :
    step new_world stop ≡ some (record new_world { q = record new_queue_model { stopped = true } })
unfolding step
stop_runs = refl

Reach-Inv_example : Inv (record new_world { q = record new_queue_model { stopped = true } })
Reach-Inv_example = Reach-Inv (next stop here tt stop_runs)

abbrev at_start : World
at_start = record {
  q = queue_of (item 1 done ∷ item 3 ready ∷ []) true;
  spawned = 0;
  worker = at_top;
}

one_ready : count_state is_ready at_start.q.items ≡ 1
unfolding count_state is_ready
one_ready = refl

drain_finishes_example :
    (w' : World) × (run at_start (drain_actions (success_result ∷ [])) ≡ some w')
    × (w'.worker ≡ idle)
    × (w'.q.worker_running ≡ false)
    × (w'.q.items ≡ handed (success_result ∷ []) at_start.q.items)
    × (has_ready w'.q.items ≡ false)
drain_finishes_example = drain_finishes (success_result ∷ []) at_start refl refl one_ready

abbrev at_end : World
at_end = record { q = queue_of (item 1 done ∷ []) true; spawned = 0; worker = leaving }

abbrev dropped : List (List ℕ)
dropped = codes "/new.cue" ∷ []

added_while_leaving_example :
    (w' : World) × (run at_end (add some_files dropped ∷ leave ∷ []) ≡ some w')
    × (w'.q.items ≡ cancel_remaining_ready (add_paths some_files dropped at_end.q).0.items)
    × (has_ready w'.q.items ≡ false)
    × (w'.spawned ≡ 0)
    × (w'.worker ≡ idle)
added_while_leaving_example = added_while_leaving at_end some_files dropped refl refl

removed_while_running_example :
    run one_running (remove 2 ∷ result success_result ∷ [])
    ≡ some (
        assigned
          (record one_running { q = with_items one_running.q (item 1 done ∷ item 3 ready ∷ []) })
          (misdirected (item 1 done ∷ []) (item 3 ready ∷ []) success_result)
          at_top)
removed_while_running_example =
    removed_while_running one_running (item 1 done ∷ []) (item 3 ready ∷ []) (item 2 running)
      success_result refl refl one_running-Inv.ids

distinct : IsDistinct at_end.q.items
unfolding has_path
distinct = (refl, tt)

add_paths-IsDistinct_example :
    (new : List QueueItem) × ((add_paths some_files dropped at_end.q).0.items
      ≡ at_end.q.items ++ new)
    × IsDistinct (add_paths some_files dropped at_end.q).0.items
    × All
        (λ cue. has_path cue (add_paths some_files dropped at_end.q).0.items ≡ true)
        (dropped_cues some_files dropped at_end.q)
add_paths-IsDistinct_example = add_paths-IsDistinct some_files dropped at_end.q distinct
