-- ===== src/Runner/State.antt =====
-- runner.go: `actionRunner`. Each function is a stretch under the mutex, or the send behind it.
-- `unmarshal` is `encoding/json`; what a process writes, its exit and its output are arguments.
use miniscram.Common.{
  ℕ, ◌-◌, Bool, true, false, Option, none, some, List, [], ◌∷◌, length, if◌then◌else◌, Result, err,
  ok,
}
use miniscram.Text.{trim_space, is_empty}
use miniscram.Queue.Items.{Status, success, fail, cancel}
use miniscram.Queue.Progress.{ProgressEvent, pretty_progress_line}

pub record RunningState : Type 0 where
  pub action : List ℕ
  pub input : List ℕ
  pub output : List ℕ
  pub started_at : ℕ
  pub last_line : List ℕ
  pub cancelling : Bool

-- `actionResult`, with its times in milliseconds.
pub record RunResult : Type 0 where
  pub action : List ℕ
  pub input : List ℕ
  pub output : List ℕ
  pub duration_ms : ℕ
  pub status : Status
  pub error : List ℕ
  pub output_size : ℕ

-- `cmd` is the number of the process. `sending` are the results of the goroutines between the
-- unlock of `wait` and its send, `done` is the channel with its one place. The last three fields
-- are the history: the inputs of the processes that were started, the results that were received,
-- and those that the send has dropped.
pub record Runner : Type 0 where
  pub cmd : Option ℕ
  pub state : Option RunningState
  pub sending : List RunResult
  pub done : Option RunResult
  pub started : List (List ℕ)
  pub received : List RunResult
  pub dropped : List RunResult

-- `newActionRunner`.
abbrev pub new_runner : Runner
new_runner = record {
  cmd = none;
  state = none;
  sending = [];
  done = none;
  started = [];
  received = [];
  dropped = [];
}

pub data StartError : Type 0 where
  already_running : StartError
  not_started : List ℕ → StartError

-- What `Start` is called with.
pub record Launch : Type 0 where
  pub action : List ℕ
  pub input : List ℕ
  pub output : List ℕ
  pub now : ℕ

unfoldable pub launched : Launch → Runner → Runner
launched l r = record r {
  cmd = some (length r.started);
  state = some (record {
    action = l.action;
    input = l.input;
    output = l.output;
    started_at = l.now;
    last_line = [];
    cancelling = false;
  });
  started = l.input ∷ r.started;
}

unfoldable pub start_on :
    Option RunningState → Option (List ℕ) → Launch → Runner → Result StartError Runner
unfolding launched
start_on (some s) failure l r = err already_running
start_on none (some message) l r = err (not_started message)
start_on none none l r = ok (launched l r)

-- `Start`; the option is the error of the pipe or of the process.
unfoldable pub start : Option (List ℕ) → Launch → Runner → Result StartError Runner
unfolding start_on
start failure l r = start_on r.state failure l r

-- `Cancel`, besides the signal.
unfoldable pub cancelling_run : Runner → Option RunningState → Option ℕ → Runner
cancelling_run r (some s) (some p) = record r { state = some (record s { cancelling = true }) }
cancelling_run r _ _ = r

unfoldable pub cancel_run : Runner → Runner
unfolding cancelling_run
cancel_run r = cancelling_run r r.state r.cmd

-- A line in `readStderr`. The reader of an ended process may still have lines, and then they
-- count for the process that runs.
unfoldable pub line_of : List ℕ → Option RunningState → Option RunningState
line_of line none = none
line_of line (some s) = some (record s { last_line = line })

unfoldable pub read_stderr : List ℕ → Runner → Runner
unfolding trim_space is_empty line_of
read_stderr text r =
    let line = trim_space text in
    if is_empty line then r else record r { state = line_of line r.state }

-- The message of a failure.
unfoldable pub or_message : List ℕ → List ℕ → List ℕ
unfolding is_empty
or_message line message = if is_empty line then message else line

module _ (unmarshal : List ℕ → Option ProgressEvent) where
  -- The status, the error and the size of the output, after the error of the process and the size
  -- of the file at the output path.
  unfoldable pub outcome_of : RunningState → Option (List ℕ) → Option ℕ → Bool → Status × List ℕ × ℕ
  unfolding pretty_progress_line or_message is_empty
  outcome_of s failure size true = (cancel, [], 0)
  outcome_of s (some message) size false =
      (fail, or_message (pretty_progress_line unmarshal s.last_line) message, 0)
  outcome_of s none none false = (success, [], 0)
  outcome_of s none (some n) false = (success, [], if is_empty s.output then 0 else n)

  unfoldable pub classified : RunningState → Option (List ℕ) → Option ℕ → ℕ → RunResult
  unfolding outcome_of
  classified s failure size now =
      let (status, error, output_size) = outcome_of s failure size s.cancelling in
      record {
        action = s.action;
        input = s.input;
        output = s.output;
        duration_ms = now - s.started_at;
        status = status;
        error = error;
        output_size = output_size;
      }

  -- `wait` up to the send.
  unfoldable pub waited : Option RunningState → Option (List ℕ) → Option ℕ → ℕ → Runner → Runner
  unfolding classified
  waited none failure size now r = record r { cmd = none; state = none }
  waited (some s) failure size now r = record r {
    cmd = none;
    state = none;
    sending = classified s failure size now ∷ r.sending;
  }

-- The send, which drops a result when the channel is full.
unfoldable pub sent : RunResult → Option RunResult → Runner → Runner
sent res none r = record r { done = some res }
sent res (some other) r = record r { dropped = res ∷ r.dropped }

-- The receive.
unfoldable pub received_by : Option RunResult → Runner → Runner
received_by none r = r
received_by (some res) r = record r { done = none; received = res ∷ r.received }
