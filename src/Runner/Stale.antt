-- ===== src/Runner/Stale.antt =====
-- runner.go beside queue.go: a result that the worker of the queue takes for another's.
use miniscram.Common.{ℕ, ◌≡◌, refl, Option, none, some, List, [], ◌∷◌}
use miniscram.Queue.Items.{update_at, with_result}
use miniscram.Queue.Worker.{starting, waiting, at_top, step, assigned}
use miniscram.Queue.Progress.{ProgressEvent}
use miniscram.Runner.State.{RunningState, RunResult, Runner, start, start_on, launched, received_by}
use miniscram.Runner.Window.{
  Window, worker_start, worker_receive, worker_starts, worker_started, worker_receives, with_world,
  to_action_result, pack_launch, move, moves,
}

-- When the worker starts the process of an item while the result of an earlier process stands in
-- the channel, it receives that result at once, and writes it to the item, whose own process goes
-- on.
pub stale_result :
    (unmarshal : List ℕ → Option ProgressEvent) (v : Window) (idx now : ℕ) (res : RunResult)
    → v.world.worker ≡ starting idx
    → v.runner.state ≡ none
    → v.runner.done ≡ some res
    → (r : Runner) × (moves unmarshal v (worker_start none now ∷ worker_receive ∷ [])
        ≡ some (record {
          world =
              assigned
                (record v.world { worker = waiting idx })
                (update_at idx (with_result (to_action_result res)) v.world.q.items)
                at_top;
          runner = r;
          cue = v.cue;
          looked = v.looked;
        }))
      × ((s : RunningState) × (r.state ≡ some s) × (s.input ≡ v.cue))
      × (r.done ≡ none)
unfolding move worker_starts worker_started worker_receives start start_on launched with_world step
    received_by pack_launch assigned
stale_result unmarshal v idx now res at free full = (
  received_by (some res) (launched (pack_launch v.cue now) v.runner),
  rw (at, free, full) refl,
  (_, refl, refl),
  refl,
)
