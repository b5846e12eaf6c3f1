-- ===== src/Runner/Starts.antt =====
-- runner.go beside queue.go: the call of `Start` by the worker, with one process without a received
-- result.
use miniscram.Common.{ℕ, ◌≡◌, sym, ◌∙◌, ap, ap₂, not, Option, none, some, List, [], ◌∷◌, ◌++◌, ok}
use mathlib.Core.Path.{subst}
use miniscram.Queue.Items.{update_at, failed_with}
use miniscram.Queue.Worker.{
  Worker, idle, at_top, starting, waiting, leaving, crashed, World, start_fails, step,
}
use miniscram.Queue.Holds.{is_idle}
use miniscram.Runner.State.{RunningState, RunResult, Runner, Launch, start, start_on, launched}
use miniscram.Runner.Window.{Window, with_world, pack_launch, worker_started, worker_starts}
use miniscram.Runner.Owner.{awaited, step-IsOwned}
use miniscram.Runner.Waits.{IsSteady}
use miniscram.Runner.Calm.{inputs, input_of_result, pending}
use miniscram.Runner.Frames.{IsSole, IsSoleIf, at_top-awaits, with_world-IsSole, nothing_done}

-- The worker's call of `Start`.
start_fails-IsSteady :
    (w : World) (reason : List ℕ) (cue : List ℕ) (idx : ℕ)
    → w.worker ≡ starting idx
    → IsSteady (starting idx) cue cue (step w (start_fails reason))
unfolding step
start_fails-IsSteady w reason cue idx e =
    rw e (at_top-awaits w (update_at idx (failed_with reason) w.q.items) cue)

launched-pending :
    (l : Launch) (r : Runner) → pending r ≡ [] → pending (launched l r) ≡ l.input ∷ []
unfolding launched
launched-pending l r e =
    let (still, unsent, empty) = nothing_done r.state r.sending r.done e in
    ap₂ (λ (rs : List RunResult) (d : Option RunResult). l.input ∷ (inputs rs ++ input_of_result d))
      unsent empty

launched-IsSole :
    (v : Window) (idx now : ℕ)
    → v.world.worker ≡ starting idx
    → pending v.runner ≡ []
    → IsSole v
    → IsSoleIf (worker_started v (ok (launched (pack_launch v.cue now) v.runner)))
unfolding worker_started step with_world launched pack_launch
launched-IsSole v idx now at free h = rw at (
  h.0 ∙ ap (λ (k : Worker). not (is_idle k)) at,
  launched-pending (pack_launch v.cue now) v.runner free,
  h.2,
)

refused-IsSole :
    (v : Window) (idx : ℕ) (reason : List ℕ)
    → v.world.worker ≡ starting idx
    → IsSole v
    → IsSoleIf (with_world v (step v.world (start_fails reason)) v.runner v.cue)
refused-IsSole v idx reason at h =
    with_world-IsSole v (step v.world (start_fails reason)) v.cue
      (step-IsOwned v.world (start_fails reason) h.0)
      (subst (λ (k : Worker). IsSteady k v.cue v.cue (step v.world (start_fails reason))) (sym at)
        (start_fails-IsSteady v.world reason v.cue idx at))
      h

worker_started-IsSole :
    (v : Window) (idx now : ℕ) (failure : Option (List ℕ)) (o : Option RunningState)
    → v.world.worker ≡ starting idx
    → pending v.runner ≡ []
    → IsSole v
    → IsSoleIf (worker_started v (start_on o failure (pack_launch v.cue now) v.runner))
unfolding worker_started start_on
worker_started-IsSole v idx now failure (some s) at free h = refused-IsSole v idx _ at h
worker_started-IsSole v idx now (some reason) none at free h = refused-IsSole v idx reason at h
worker_started-IsSole v idx now none none at free h = launched-IsSole v idx now at free h

pub worker_starts-IsSole :
    (v : Window) (k : Worker) (failure : Option (List ℕ)) (now : ℕ)
    → v.world.worker ≡ k
    → IsSole v
    → IsSoleIf (worker_starts v k failure now)
unfolding worker_starts start
worker_starts-IsSole v (starting idx) failure now at h =
    worker_started-IsSole v idx now failure v.runner.state at
      (h.1 ∙ ap (λ (k : Worker). awaited k v.cue) at) h
worker_starts-IsSole v idle failure now at h = tt
worker_starts-IsSole v at_top failure now at h = tt
worker_starts-IsSole v (waiting idx) failure now at h = tt
worker_starts-IsSole v leaving failure now at h = tt
worker_starts-IsSole v crashed failure now at h = tt
