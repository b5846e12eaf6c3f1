-- ===== src/Runner/Window.antt =====
-- runner.go beside queue.go: the worker of the queue calls `Start` and receives from `done`
-- (`drain`); so do the buttons of the window and its frames (main.go).
use miniscram.Common.{
  ℕ, zero, suc, Bool, true, false, not, Option, none, some, List, [], ◌∷◌, codes, Result, ok, err,
  if◌then◌else◌,
}
use miniscram.Queue.Items.{QueueItem, ActionResult, next_ready_index}
use miniscram.Queue.Worker.{
  Worker, starting, World, Action, pick, start_fails, starts, result, step, new_world, pack_output,
}
use miniscram.Queue.Progress.{ProgressEvent}
use miniscram.Runner.State.{
  RunResult, Runner, new_runner, StartError, already_running, not_started, Launch, start,
  received_by,
}
use miniscram.Runner.Steps.{Event, receive, turn}

-- `cue` is the path in the copy of the item that the worker has picked. `looked` is whether a
-- frame has found no worker and is about to receive.
pub record Window : Type 0 where
  pub world : World
  pub runner : Runner
  pub cue : List ℕ
  pub looked : Bool

-- A stretch of the queue that is no call of the runner; the worker's call of `Start`, with its
-- error if it has one and the time; the worker's receive; a call of a button, a line, an exit or a
-- send; and the two steps of a frame, the look at `workerRunning` and the receive without waiting.
pub data Move : Type 0 where
  queue_step : Action → Move
  worker_start : Option (List ℕ) → ℕ → Move
  worker_receive : Move
  runner_event : Event → Move
  frame_looks : Move
  frame_receive : Move

unfoldable pub cue_at : ℕ → List ℕ → List QueueItem → List ℕ
cue_at idx cue [] = cue
cue_at zero cue (it ∷ its) = it.cue_path
cue_at (suc idx) cue (it ∷ its) = cue_at idx cue its

unfoldable pub cue_of : Option ℕ → List ℕ → List QueueItem → List ℕ
unfolding cue_at
cue_of none cue its = cue
cue_of (some idx) cue its = cue_at idx cue its

-- The copy after a step.
unfoldable pub cue_after : Action → World → List ℕ → List ℕ
unfolding cue_of
cue_after (pick now) w cue = cue_of (next_ready_index w.q) cue w.q.items
cue_after _ w cue = cue

unfoldable pub with_world : Window → Option World → Runner → List ℕ → Option Window
with_world v none r cue = none
with_world v (some w) r cue = some (record v { world = w; runner = r; cue = cue })

-- The steps of the queue that call the runner.
unfoldable pub calls_runner : Action → Bool
calls_runner (start_fails reason) = true
calls_runner starts = true
calls_runner (result res) = true
calls_runner _ = false

unfoldable pub message : StartError → List ℕ
message already_running = codes "an action is already running"
message (not_started reason) = reason

unfoldable pub pack_launch : List ℕ → ℕ → Launch
unfolding pack_output
pack_launch cue now = record {
  action = codes "pack";
  input = cue;
  output = pack_output cue;
  now = now;
}

-- What the worker does with the answer of `Start`.
unfoldable pub worker_started : Window → Result StartError Runner → Option Window
unfolding with_world message step
worker_started v (err e) = with_world v (step v.world (start_fails (message e))) v.runner v.cue
worker_started v (ok r) = with_world v (step v.world starts) r v.cue

-- The worker calls `Start` only with an item that it has picked.
unfoldable pub worker_starts : Window → Worker → Option (List ℕ) → ℕ → Option Window
unfolding worker_started pack_launch start
worker_starts v (starting idx) failure now =
    worker_started v (start failure (pack_launch v.cue now) v.runner)
worker_starts v _ failure now = none

-- What `recordResult` reads of a result.
unfoldable pub to_action_result : RunResult → ActionResult
to_action_result res = record {
  status = res.status;
  error = res.error;
  duration_ms = res.duration_ms;
}

unfoldable pub worker_receives : Window → Option RunResult → Option Window
unfolding with_world step to_action_result received_by
worker_receives v none = none
worker_receives v (some res) =
    with_world v (step v.world (result (to_action_result res))) (received_by (some res) v.runner)
      v.cue

-- The receive of the runner is left to the two receivers.
unfoldable pub is_receive : Event → Bool
is_receive receive = true
is_receive _ = false

unfoldable pub with_runner : Window → Option Runner → Option Window
with_runner v none = none
with_runner v (some r) = some (record v { runner = r })

-- `qWorker` in a frame that is not in front of its receive.
unfoldable pub frame_looked : Bool → Window → Option Window
frame_looked true v = none
frame_looked false v = some (record v { looked = not v.world.q.worker_running })

-- The receive, when the frame has found no worker.
unfoldable pub framed : Bool → Window → Option Window
unfolding received_by
framed false v = none
framed true v = some (record v { runner = received_by v.runner.done v.runner; looked = false })

unfoldable pub move : (List ℕ → Option ProgressEvent) → Window → Move → Option Window
unfolding calls_runner with_world step cue_after worker_starts worker_receives is_receive
    with_runner turn frame_looked framed
move unmarshal v (queue_step a) =
    if calls_runner a
    then none
    else with_world v (step v.world a) v.runner (cue_after a v.world v.cue)
move unmarshal v (worker_start failure now) = worker_starts v v.world.worker failure now
move unmarshal v worker_receive = worker_receives v v.runner.done
move unmarshal v (runner_event e) =
    if is_receive e then none else with_runner v (turn unmarshal v.runner e)
move unmarshal v frame_looks = frame_looked v.looked v
move unmarshal v frame_receive = framed v.looked v

abbrev pub new_window : Window
new_window = record { world = new_world; runner = new_runner; cue = []; looked = false }

-- The moves in a row.
abbrev pub moves : (List ℕ → Option ProgressEvent) → Window → List Move → Option Window
moves unmarshal v [] = some v
moves unmarshal v (m ∷ ms) = elim (move unmarshal v m) [
  | none ↦ none
  | some v' ↦ moves unmarshal v' ms
]
