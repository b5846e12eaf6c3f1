-- ===== src/Examples/Runner.antt =====
-- The theorems on the runner at small runs.
use miniscram.Common.{ℕ, ◌≡◌, refl, Option, none, some, List, [], ◌∷◌, length, codes, bytes_equal}
use miniscram.Text.{ext, equal_fold, trim_space, stem}
use miniscram.Queue.Items.{next_ready_index, has_ready, has_path, success, update_at, with_result}
use miniscram.Queue.Worker.{starting, waiting, at_top, add, enter, pick, assigned, step}
use miniscram.Queue.Progress.{ProgressEvent}
use miniscram.Runner.State.{RunningState, RunResult, Runner, new_runner, Launch}
use miniscram.Runner.Steps.{Event, start_call, line, exit, send, turn, Reached, begun, then_event}
use miniscram.Runner.Balance.{IsBalanced, Reached-IsBalanced}
use miniscram.Runner.Window.{
  Window, Move, queue_step, worker_start, worker_receive, runner_event, frame_looks,
  to_action_result, move, moves, new_window,
}
use miniscram.Runner.Stale.{stale_result}
use miniscram.Queue.Add.{Files, a_file, add_paths, add_cues, sort_dropped, classify}

abbrev no_event : List ℕ → Option ProgressEvent
no_event text = none

abbrev verifying : Launch
verifying = record { action = codes "verify"; input = codes "a"; output = []; now = 5 }

abbrev next_runner : Runner → Event → Runner
next_runner r e = elim (turn no_event r e) [ none ↦ r | some r' ↦ r' ]

abbrev first_runner : Runner
first_runner = next_runner new_runner (start_call none verifying)

abbrev second_runner : Runner
second_runner = next_runner first_runner (line (codes " x "))

abbrev third_runner : Runner
third_runner = next_runner second_runner (exit (some (codes "exit status 4")) none 9)

third_runner-Reached : Reached no_event third_runner
unfolding turn trim_space
third_runner-Reached =
    then_event (exit (some (codes "exit status 4")) none 9)
      (then_event (line (codes " x ")) (then_event (start_call none verifying) begun refl) refl)
      refl

Reached-IsBalanced_example : IsBalanced length third_runner
Reached-IsBalanced_example = Reached-IsBalanced length no_event third_runner third_runner-Reached

-- A cue sheet b.cue with a scram beside it.
abbrev some_files : Files
some_files = record {
  exists = λ path. bytes_equal path (codes "b.scram");
  absolute = λ path. some path;
  stat = λ path. some a_file;
}

-- A process of a button has ended, and then a cue sheet is dropped on the window.
abbrev before_drop : List Move
before_drop =
    runner_event (start_call none verifying)
    ∷ runner_event (exit none none 9)
    ∷ runner_event (send 0)
    ∷ queue_step (add some_files (codes "b.cue" ∷ []))
    ∷ queue_step enter
    ∷ queue_step (pick 10)
    ∷ []

abbrev with_result_of_button : Window
with_result_of_button = elim (moves no_event new_window before_drop) [
  | none ↦ new_window
  | some v ↦ v
]

abbrev button_result : RunResult
button_result = record {
  action = codes "verify";
  input = codes "a";
  output = [];
  duration_ms = 4;
  status = success;
  error = [];
  output_size = 0;
}

button_run :
    (with_result_of_button.world.worker ≡ starting 0)
    × (with_result_of_button.runner.state ≡ none)
    × (with_result_of_button.runner.done ≡ some button_result)
unfolding move step add_paths bytes_equal has_ready add_cues sort_dropped equal_fold ext has_path
    classify stem next_ready_index update_at
button_run = (refl, refl, refl)

stale_result_example :
    (r : Runner) × (moves no_event with_result_of_button
        (worker_start none 20 ∷ worker_receive ∷ [])
      ≡ some (record {
        world =
            assigned
              (record with_result_of_button.world { worker = waiting 0 })
              (update_at 0
                (with_result (to_action_result button_result))
                with_result_of_button.world.q.items)
              at_top;
        runner = r;
        cue = with_result_of_button.cue;
        looked = with_result_of_button.looked;
      }))
    × ((s : RunningState) × (r.state ≡ some s) × (s.input ≡ with_result_of_button.cue))
    × (r.done ≡ none)
stale_result_example =
    stale_result no_event with_result_of_button 0 20 button_result button_run.0 button_run.1
      button_run.2

-- A cue sheet is dropped on the window, and the worker starts its process.
abbrev next_window : Window → Move → Window
next_window v m = elim (move no_event v m) [ none ↦ v | some v' ↦ v' ]

abbrev dropped_window : Window
dropped_window = next_window new_window (queue_step (add some_files (codes "b.cue" ∷ [])))

abbrev owned_window : Window
owned_window = next_window dropped_window (queue_step enter)

abbrev picked_window : Window
picked_window = next_window owned_window (queue_step (pick 10))

abbrev packing_window : Window
packing_window = next_window picked_window (worker_start none 11)

packs_item : packing_window.world.worker ≡ waiting 0
unfolding move step add_paths bytes_equal has_ready add_cues sort_dropped equal_fold ext has_path
    classify stem next_ready_index update_at
packs_item = refl

-- A frame has looked, and before its receive a cue sheet that was dropped is packed.
abbrev before_receive : List Move
before_receive =
    frame_looks
    ∷ queue_step (add some_files (codes "b.cue" ∷ []))
    ∷ queue_step enter
    ∷ queue_step (pick 10)
    ∷ worker_start none 11
    ∷ runner_event (exit none none 15)
    ∷ runner_event (send 0)
    ∷ []

abbrev packed_window : Window
packed_window = elim (moves no_event new_window before_receive) [ none ↦ new_window | some v ↦ v ]

abbrev packed_result : RunResult
packed_result = record {
  action = codes "pack";
  input = codes "b.cue";
  output = codes "b.miniscram";
  duration_ms = 4;
  status = success;
  error = [];
  output_size = 0;
}
