-- ===== src/Runner/Frames.antt =====
-- runner.go beside queue.go: one process without a received result, under the steps of the queue,
-- the calls of the buttons and the frames.
use miniscram.Common.{
  ℕ, ◌≤◌, ◌≡◌, refl, sym, ◌∙◌, arith, Bool, true, false, Option, none, some, List, [], ◌∷◌, ◌++◌,
  length, Bool-cases, inl, inr,
}
use mathlib.Core.Path.{subst}
use miniscram.Queue.Items.{QueueItem}
use miniscram.Queue.Worker.{
  Worker, idle, at_top, starting, waiting, leaving, crashed, World, Action, step, assigned,
  with_items,
}
use miniscram.Queue.Progress.{ProgressEvent}
use miniscram.Runner.State.{RunningState, RunResult, Runner, received_by}
use miniscram.Runner.Window.{
  Window, queue_step, cue_after, with_world, calls_runner, with_runner, frame_looked, framed, move,
}
use miniscram.Runner.Owner.{IsOwned, IsOwnedIf, awaited, step-IsOwned}
use miniscram.Runner.Waits.{IsSteady, idle_awaits, step-IsSteady}
use miniscram.Runner.Calm.{inputs, input_of_result, input_of_state, pending, IsCalm}

-- The worker waits exactly for the one process without a received result, if there is one, and
-- no result was dropped.
abbrev pub IsSole : Window → Type 0
IsSole v =
    IsOwned v.world × (pending v.runner ≡ awaited v.world.worker v.cue) × (v.runner.dropped ≡ [])

abbrev pub IsSoleIf : Option Window → Type 0
IsSoleIf none = Unit
IsSoleIf (some v) = IsSole v

pub awaited-few : (k : Worker) (cue : List ℕ) → length (awaited k cue) ≤ 1
awaited-few (waiting idx) cue = omega arith
awaited-few idle cue = omega arith
awaited-few at_top cue = omega arith
awaited-few (starting idx) cue = omega arith
awaited-few leaving cue = omega arith
awaited-few crashed cue = omega arith

pub at_top-awaits :
    (w : World) (o : Option (List QueueItem)) (cue : List ℕ)
    → awaited (assigned w o at_top).worker cue ≡ []
unfolding assigned with_items
at_top-awaits w none cue = refl
at_top-awaits w (some its) cue = refl

-- A stretch of the queue.
pub with_world-IsSole :
    (v : Window) (o : Option World) (cue : List ℕ)
    → IsOwnedIf o
    → IsSteady v.world.worker v.cue cue o
    → IsSole v
    → IsSoleIf (with_world v o v.runner cue)
unfolding with_world
with_world-IsSole v none cue owned steady h = tt
with_world-IsSole v (some w) cue owned steady h = (owned, h.1 ∙ sym steady, h.2)

pub queue_step-IsSole :
    (unmarshal : List ℕ → Option ProgressEvent) (v : Window) (a : Action)
    → IsSole v
    → IsSoleIf (move unmarshal v (queue_step a))
unfolding move
queue_step-IsSole unmarshal v a h = elim (Bool-cases (calls_runner a)) [
  | inl e ↦ rw e tt
  | inr e ↦ rw e (
      with_world-IsSole v (step v.world a) (cue_after a v.world v.cue) (step-IsOwned v.world a h.0)
        (step-IsSteady v.world a v.cue e h.0) h)
]

-- A call, a line, an exit or a send.
pub with_runner-IsSole :
    (v : Window) (o : Option Runner) → IsCalm v.runner o → IsSole v → IsSoleIf (with_runner v o)
unfolding with_runner
with_runner-IsSole v none calm h = tt
with_runner-IsSole v (some r) calm h = (h.0, calm.0 ∙ h.1, calm.1 ∙ h.2)

-- The receive of a frame finds nothing.
pub nothing_done :
    (st : Option RunningState) (rs : List RunResult) (d : Option RunResult)
    → input_of_state st ++ (inputs rs ++ input_of_result d) ≡ []
    → (st ≡ none) × (rs ≡ []) × (d ≡ none)
nothing_done none [] none e = (refl, refl, refl)
nothing_done (some s) rs d e = cc
nothing_done none (res ∷ rs) d e = cc
nothing_done none [] (some res) e = cc

pub frame_looked-IsSole : (v : Window) (b : Bool) → IsSole v → IsSoleIf (frame_looked b v)
unfolding frame_looked
frame_looked-IsSole v true h = tt
frame_looked-IsSole v false h = h

pub framed-IsSole :
    (v : Window) (b : Bool) → v.world.q.worker_running ≡ false → IsSole v → IsSoleIf (framed b v)
unfolding framed received_by
framed-IsSole v false e h = tt
framed-IsSole v true e h =
    let nothing : pending v.runner ≡ [] = h.1 ∙ idle_awaits v.world.worker v.cue (sym e ∙ h.0) in
    let found : v.runner.done ≡ none =
      (nothing_done v.runner.state v.runner.sending v.runner.done nothing).2 in
    subst
      (λ (d : Option RunResult).
        IsSole (record v { runner = received_by d v.runner; looked = false }))
      (sym found) h
