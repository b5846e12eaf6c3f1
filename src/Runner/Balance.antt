-- ===== src/Runner/Balance.antt =====
-- runner.go: every process that is started has one result.
use miniscram.Common.{
  ℕ, zero, suc, ◌+◌, ◌≡◌, refl, sym, ◌∙◌, ap, arith, Option, none, some, List, [], ◌∷◌, Bool-cases,
  inl, inr,
}
use mathlib.Core.Path.{subst}
use miniscram.Text.{is_some, trim_space, is_empty}
use miniscram.Queue.Progress.{ProgressEvent}
use miniscram.Runner.State.{
  RunningState, RunResult, Runner, Launch, launched, start_on, start, cancelling_run, cancel_run,
  line_of, read_stderr, classified, waited, sent, received_by,
}
use miniscram.Runner.Steps.{
  behind, pulled, Event, start_call, cancel_call, line, exit, send, receive, or_same, sent_from,
  turn, Reached, begun, then_event,
}

-- A number for each input, summed over the inputs and over the results.
abbrev pub total : (List ℕ → ℕ) → List (List ℕ) → ℕ
total f [] = 0
total f (input ∷ inputs) = f input + total f inputs

abbrev pub of_results : (List ℕ → ℕ) → List RunResult → ℕ
of_results f [] = 0
of_results f (res ∷ rs) = f res.input + of_results f rs

abbrev pub of_result : (List ℕ → ℕ) → Option RunResult → ℕ
of_result f none = 0
of_result f (some res) = f res.input

abbrev pub of_state : (List ℕ → ℕ) → Option RunningState → ℕ
of_state f none = 0
of_state f (some s) = f s.input

-- The processes that were started are the one that runs and those with a result.
abbrev pub IsBalanced : (List ℕ → ℕ) → Runner → Type 0
IsBalanced f r =
    (total f r.started
      ≡ of_state f r.state
        + of_results f r.sending
        + of_result f r.done
        + of_results f r.received
        + of_results f r.dropped)
    × (is_some r.cmd ≡ is_some r.state)

abbrev IsPulled : (List ℕ → ℕ) → List RunResult → Option (RunResult × List RunResult) → Type 0
IsPulled f rs none = Unit
IsPulled f rs (some (res, rest)) = of_results f rs ≡ f res.input + of_results f rest

abbrev IsBalancedIf : (List ℕ → ℕ) → Option Runner → Type 0
IsBalancedIf f none = Unit
IsBalancedIf f (some r) = IsBalanced f r

module _ (f : List ℕ → ℕ) where
  start-IsBalanced :
      (failure : Option (List ℕ)) (l : Launch) (r : Runner) (o : Option RunningState)
      → r.state ≡ o
      → IsBalanced f r
      → IsBalanced f (or_same r (start_on o failure l r))
  unfolding or_same start_on launched is_some
  start-IsBalanced failure l r (some s) e h = h
  start-IsBalanced (some message) l r none e h = h
  start-IsBalanced none l r none e h = (omega (arith, h.0, ap (of_state f) e), refl)

  cancelling_run-IsBalanced :
      (r : Runner) (o : Option RunningState) (p : Option ℕ)
      → r.state ≡ o
      → IsBalanced f r
      → IsBalanced f (cancelling_run r o p)
  unfolding cancelling_run is_some
  cancelling_run-IsBalanced r none p e h = h
  cancelling_run-IsBalanced r (some s) none e h = h
  cancelling_run-IsBalanced r (some s) (some p) e h =
      (omega (arith, h.0, ap (of_state f) e), h.1 ∙ ap is_some e)

  line_of-input :
      (text : List ℕ) (o : Option RunningState)
      → (of_state f (line_of text o) ≡ of_state f o) × (is_some (line_of text o) ≡ is_some o)
  unfolding line_of is_some
  line_of-input text none = (refl, refl)
  line_of-input text (some s) = (refl, refl)

  lined-IsBalanced :
      (text : List ℕ) (r : Runner)
      → IsBalanced f r
      → IsBalanced f (record r { state = line_of text r.state })
  lined-IsBalanced text r h =
      let (same, there) = line_of-input text r.state in (omega (arith, h.0, same), h.1 ∙ sym there)

  read_stderr-IsBalanced :
      (text : List ℕ) (r : Runner) → IsBalanced f r → IsBalanced f (read_stderr text r)
  unfolding read_stderr
  read_stderr-IsBalanced text r h = elim (Bool-cases (is_empty (trim_space text))) [
    | inl e ↦ rw e h
    | inr e ↦ rw e (lined-IsBalanced (trim_space text) r h)
  ]

  waited-IsBalanced :
      (unmarshal : List ℕ → Option ProgressEvent) (r : Runner) (o : Option RunningState)
      (failure : Option (List ℕ)) (size : Option ℕ) (now : ℕ)
      → r.state ≡ o
      → IsBalanced f r
      → IsBalanced f (waited unmarshal o failure size now r)
  unfolding waited classified is_some
  waited-IsBalanced unmarshal r none failure size now e h =
      (omega (arith, h.0, ap (of_state f) e), refl)
  waited-IsBalanced unmarshal r (some s) failure size now e h =
      (omega (arith, h.0, ap (of_state f) e), refl)

  behind-IsPulled :
      (res : RunResult) (rs : List RunResult) (o : Option (RunResult × List RunResult))
      → IsPulled f rs o
      → IsPulled f (res ∷ rs) (behind res o)
  unfolding behind
  behind-IsPulled res rs none h = tt
  behind-IsPulled res rs (some (other, rest)) h = omega (arith, h)

  pulled-IsPulled : (i : ℕ) (rs : List RunResult) → IsPulled f rs (pulled i rs)
  unfolding pulled
  pulled-IsPulled i [] = tt
  pulled-IsPulled zero (res ∷ rs) = refl
  pulled-IsPulled (suc i) (res ∷ rs) = behind-IsPulled res rs (pulled i rs) (pulled-IsPulled i rs)

  sent-IsBalanced :
      (res : RunResult) (rest : List RunResult) (o : Option RunResult) (r : Runner)
      → r.done ≡ o
      → of_results f r.sending ≡ f res.input + of_results f rest
      → IsBalanced f r
      → IsBalanced f (sent res o (record r { sending = rest }))
  unfolding sent
  sent-IsBalanced res rest none r e k h = (omega (arith, h.0, k, ap (of_result f) e), h.1)
  sent-IsBalanced res rest (some other) r e k h = (omega (arith, h.0, k, ap (of_result f) e), h.1)

  received_by-IsBalanced :
      (o : Option RunResult) (r : Runner)
      → r.done ≡ o
      → IsBalanced f r
      → IsBalanced f (received_by o r)
  unfolding received_by
  received_by-IsBalanced none r e h = h
  received_by-IsBalanced (some res) r e h = (omega (arith, h.0, ap (of_result f) e), h.1)

  sent_from-IsBalanced :
      (o : Option (RunResult × List RunResult)) (r : Runner)
      → IsPulled f r.sending o
      → IsBalanced f r
      → IsBalancedIf f (sent_from o r)
  unfolding sent_from
  sent_from-IsBalanced none r k h = tt
  sent_from-IsBalanced (some (res, rest)) r k h = sent-IsBalanced res rest r.done r refl k h

  turn-IsBalanced :
      (unmarshal : List ℕ → Option ProgressEvent) (r : Runner) (e : Event)
      → IsBalanced f r
      → IsBalancedIf f (turn unmarshal r e)
  unfolding turn start cancel_run
  turn-IsBalanced unmarshal r (start_call failure l) h = start-IsBalanced failure l r r.state refl h
  turn-IsBalanced unmarshal r cancel_call h = cancelling_run-IsBalanced r r.state r.cmd refl h
  turn-IsBalanced unmarshal r (line text) h = read_stderr-IsBalanced text r h
  turn-IsBalanced unmarshal r (exit failure size now) h = elim (Bool-cases (is_some r.cmd)) [
    | inl e ↦ rw e (waited-IsBalanced unmarshal r r.state failure size now refl h)
    | inr e ↦ rw e tt
  ]
  turn-IsBalanced unmarshal r (send i) h =
      sent_from-IsBalanced (pulled i r.sending) r (pulled-IsPulled i r.sending) h
  turn-IsBalanced unmarshal r receive h = received_by-IsBalanced r.done r refl h

  -- Whatever the order of the calls, the lines, the exits, the sends and the receives: the inputs
  -- of the processes that were started are, each as often, that of the process that runs and those
  -- of the results that wait for their send, stand in the channel, were received or were dropped,
  -- for they have the same sum under every numbering of inputs. A process runs exactly when there
  -- is a state.
  pub Reached-IsBalanced :
      (unmarshal : List ℕ → Option ProgressEvent) (r : Runner)
      → Reached unmarshal r
      → IsBalanced f r
  unfolding is_some
  Reached-IsBalanced unmarshal r begun = (refl, refl)
  Reached-IsBalanced unmarshal r (then_event {r = r0} e before done) =
      subst (IsBalancedIf f) done
        (turn-IsBalanced unmarshal r0 e (Reached-IsBalanced unmarshal r0 before))
