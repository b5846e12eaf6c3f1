-- ===== src/Runner/Calm.antt =====
-- runner.go: the processes without a received result, when there is one at most.
use miniscram.Common.{
  ℕ, zero, suc, ◌≤◌, ◌≡◌, refl, sym, ap, arith, Bool, true, false, Option, none, some, List, [],
  ◌∷◌, ◌++◌, length, Bool-cases, inl, inr,
}
use miniscram.Text.{is_some, trim_space, is_empty}
use miniscram.Queue.Progress.{ProgressEvent}
use miniscram.Runner.State.{
  RunningState, RunResult, Runner, cancelling_run, cancel_run, line_of, read_stderr, classified,
  waited, sent,
}
use miniscram.Runner.Steps.{
  behind, pulled, Event, start_call, cancel_call, line, exit, send, receive, sent_from, turn,
}

abbrev pub inputs : List RunResult → List (List ℕ)
inputs [] = []
inputs (res ∷ rs) = res.input ∷ inputs rs

abbrev pub input_of_result : Option RunResult → List (List ℕ)
input_of_result none = []
input_of_result (some res) = res.input ∷ []

abbrev pub input_of_state : Option RunningState → List (List ℕ)
input_of_state none = []
input_of_state (some s) = s.input ∷ []

-- The inputs of the process that runs and of the results in front of the send and in the channel.
abbrev pub pending : Runner → List (List ℕ)
pending r = input_of_state r.state ++ (inputs r.sending ++ input_of_result r.done)

-- Nothing is dropped or received, and the same inputs are pending.
abbrev pub IsCalm : Runner → Option Runner → Type 0
IsCalm r none = Unit
IsCalm r (some r') = (pending r' ≡ pending r) × (r'.dropped ≡ r.dropped)

abbrev rest_of : Runner → List (List ℕ)
rest_of r = inputs r.sending ++ input_of_result r.done

cancelling_run-IsCalm :
    (r : Runner) (o : Option RunningState) (p : Option ℕ)
    → r.state ≡ o
    → IsCalm r (some (cancelling_run r o p))
unfolding cancelling_run
cancelling_run-IsCalm r none p e = (refl, refl)
cancelling_run-IsCalm r (some s) none e = (refl, refl)
cancelling_run-IsCalm r (some s) (some p) e =
    (sym (ap (λ (o : Option RunningState). input_of_state o ++ rest_of r) e), refl)

line_of-input_of_state :
    (text : List ℕ) (o : Option RunningState) → input_of_state (line_of text o) ≡ input_of_state o
unfolding line_of
line_of-input_of_state text none = refl
line_of-input_of_state text (some s) = refl

read_stderr-IsCalm : (text : List ℕ) (r : Runner) → IsCalm r (some (read_stderr text r))
unfolding read_stderr
read_stderr-IsCalm text r = elim (Bool-cases (is_empty (trim_space text))) [
  | inl e ↦ rw e (refl, refl)
  | inr e ↦ rw e (
    ap (λ (xs : List (List ℕ)). xs ++ rest_of r) (line_of-input_of_state (trim_space text) r.state),
    refl,
  )
]

waited-IsCalm :
    (unmarshal : List ℕ → Option ProgressEvent) (r : Runner) (o : Option RunningState)
    (failure : Option (List ℕ)) (size : Option ℕ) (now : ℕ)
    → r.state ≡ o
    → IsCalm r (some (waited unmarshal o failure size now r))
unfolding waited classified
waited-IsCalm unmarshal r none failure size now e =
    (sym (ap (λ (o : Option RunningState). input_of_state o ++ rest_of r) e), refl)
waited-IsCalm unmarshal r (some s) failure size now e =
    (sym (ap (λ (o : Option RunningState). input_of_state o ++ rest_of r) e), refl)

-- Sending the only pending result.
sent-IsCalm :
    (i : ℕ) (r : Runner) (st : Option RunningState) (rs : List RunResult) (d : Option RunResult)
    → r.state ≡ st
    → r.sending ≡ rs
    → r.done ≡ d
    → length (input_of_state st ++ (inputs rs ++ input_of_result d)) ≤ 1
    → IsCalm r (sent_from (pulled i rs) r)
unfolding sent_from pulled behind sent
sent-IsCalm i r st [] d e k l h = tt
sent-IsCalm i r (some s) (res ∷ rs) d e k l h = absurd (omega arith)
sent-IsCalm i r none (res ∷ res' ∷ rs) d e k l h = absurd (omega arith)
sent-IsCalm i r none (res ∷ []) (some other) e k l h = absurd (omega arith)
sent-IsCalm zero r none (res ∷ []) none e k l h =
    rw l (ap (λ (rs : List RunResult). input_of_state r.state ++ (inputs rs ++ [])) (sym k), refl)
sent-IsCalm (suc i) r none (res ∷ []) none e k l h = tt

-- The calls of a button that start a process, and the receives, are excepted.
abbrev pub is_inner : Event → Bool
is_inner (start_call failure l) = false
is_inner receive = false
is_inner _ = true

pub turn-IsCalm :
    (unmarshal : List ℕ → Option ProgressEvent) (r : Runner) (e : Event)
    → is_inner e ≡ true
    → length (pending r) ≤ 1
    → IsCalm r (turn unmarshal r e)
unfolding turn cancel_run
turn-IsCalm unmarshal r (start_call failure l) inner few = cc
turn-IsCalm unmarshal r receive inner few = cc
turn-IsCalm unmarshal r cancel_call inner few = cancelling_run-IsCalm r r.state r.cmd refl
turn-IsCalm unmarshal r (line text) inner few = read_stderr-IsCalm text r
turn-IsCalm unmarshal r (exit failure size now) inner few = elim (Bool-cases (is_some r.cmd)) [
  | inl e ↦ rw e (waited-IsCalm unmarshal r r.state failure size now refl)
  | inr e ↦ rw e tt
]
turn-IsCalm unmarshal r (send i) inner few =
    sent-IsCalm i r r.state r.sending r.done refl refl refl few
