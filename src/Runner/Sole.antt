-- ===== src/Runner/Sole.antt =====
-- runner.go beside queue.go, when no button starts a process: what the worker receives.
use miniscram.Common.{
  ℕ, ◌≤◌, ◌≡◌, refl, sym, ◌∙◌, ap, ap₂, arith, Bool, true, false, Option, none, some, List, [], ◌∷◌,
  ◌++◌, length, length-append,
}
use miniscram.Queue.Worker.{Worker}
use miniscram.Queue.Progress.{ProgressEvent}
use miniscram.Runner.State.{RunningState, RunResult, Runner, received_by}
use miniscram.Runner.Steps.{start_call}
use miniscram.Runner.Window.{Window, Move, runner_event, frame_receive, move, new_window}
use miniscram.Runner.Calm.{inputs, input_of_result, input_of_state, pending}

-- The result in the channel is the only pending one.
only_done :
    (st : Option RunningState) (rs : List RunResult) (res : RunResult) (xs : List (List ℕ))
    → length xs ≤ 1
    → input_of_state st ++ (inputs rs ++ (res.input ∷ [])) ≡ xs
    → (st ≡ none) × (rs ≡ [])
only_done none [] res xs few e = (refl, refl)
only_done (some s) rs res xs few e =
    absurd (omega (arith, ap length e, length-append (inputs rs) (res.input ∷ [])))
only_done none (r ∷ rs) res xs few e =
    absurd (omega (arith, ap length e, length-append (inputs rs) (res.input ∷ [])))

pub received-pending :
    (r : Runner) (res : RunResult) (xs : List (List ℕ))
    → length xs ≤ 1
    → r.done ≡ some res
    → pending r ≡ xs
    → pending (received_by (some res) r) ≡ []
unfolding received_by
received-pending r res xs few full e =
    let (still, unsent) = only_done r.state r.sending res xs few (
      ap
        (λ (d : Option RunResult).
          input_of_state r.state ++ (inputs r.sending ++ input_of_result d))
        (sym full)
      ∙ e) in
    ap₂ (λ (st : Option RunningState) (rs : List RunResult). input_of_state st ++ (inputs rs ++ []))
      still unsent

-- A start by a button, and the receive of a frame when a worker has come since the frame looked.
abbrev pub is_intruding : Window → Move → Bool
is_intruding v (runner_event (start_call failure l)) = true
is_intruding v frame_receive = v.world.q.worker_running
is_intruding v _ = false

-- The windows that such moves lead to.
pub data Calls (unmarshal : List ℕ → Option ProgressEvent) : Window → Type 0 where
  opened : Calls unmarshal new_window
  moved :
      {v v' : Window} (m : Move)
      → Calls unmarshal v
      → is_intruding v m ≡ false
      → move unmarshal v m ≡ some v'
      → Calls unmarshal v'
