-- ===== src/Runner/Steps.antt =====
-- runner.go: the calls of the window, the goroutines `readStderr` and `wait`, and the receivers of
-- `done`, in any order.
use miniscram.Common.{
  ℕ, zero, suc, Option, none, some, List, [], ◌∷◌, Result, ok, err, ◌≡◌, if◌then◌else◌,
}
use miniscram.Text.{is_some}
use miniscram.Queue.Progress.{ProgressEvent}
use miniscram.Runner.State.{
  RunResult, Runner, new_runner, StartError, Launch, start, cancel_run, read_stderr, waited, sent,
  received_by,
}

unfoldable pub behind :
    RunResult → Option (RunResult × List RunResult) → Option (RunResult × List RunResult)
behind res none = none
behind res (some (other, rest)) = some (other, res ∷ rest)

-- The result at a place, and the others.
unfoldable pub pulled : ℕ → List RunResult → Option (RunResult × List RunResult)
unfolding behind
pulled i [] = none
pulled zero (res ∷ rs) = some (res, rs)
pulled (suc i) (res ∷ rs) = behind res (pulled i rs)

-- `exit` has the error of the process, the size of the file at the output path and the time.
pub data Event : Type 0 where
  start_call : Option (List ℕ) → Launch → Event
  cancel_call : Event
  line : List ℕ → Event
  exit : Option (List ℕ) → Option ℕ → ℕ → Event
  send : ℕ → Event
  receive : Event

-- A refused start changes nothing.
unfoldable pub or_same : Runner → Result StartError Runner → Runner
or_same r (err e) = r
or_same r (ok r') = r'

unfoldable pub sent_from : Option (RunResult × List RunResult) → Runner → Option Runner
unfolding sent
sent_from none r = none
sent_from (some (res, rest)) r = some (sent res r.done (record r { sending = rest }))

-- What an event does; `none` where no goroutine stands at it.
unfoldable pub turn : (List ℕ → Option ProgressEvent) → Runner → Event → Option Runner
unfolding is_some or_same start cancel_run read_stderr waited pulled sent_from received_by
turn unmarshal r (start_call failure l) = some (or_same r (start failure l r))
turn unmarshal r cancel_call = some (cancel_run r)
turn unmarshal r (line text) = some (read_stderr text r)
turn unmarshal r (exit failure size now) =
    if is_some r.cmd then some (waited unmarshal r.state failure size now r) else none
turn unmarshal r (send i) = sent_from (pulled i r.sending) r
turn unmarshal r receive = some (received_by r.done r)

-- The runners that events lead to.
pub data Reached (unmarshal : List ℕ → Option ProgressEvent) : Runner → Type 0 where
  begun : Reached unmarshal new_runner
  then_event :
      {r r' : Runner} (e : Event)
      → Reached unmarshal r
      → turn unmarshal r e ≡ some r'
      → Reached unmarshal r'
