-- ===== src/Queue/Items.antt =====
-- queue.go: the items of the queue, and the methods that read or change one of them.
use miniscram.Common.{
  ℕ, zero, suc, Bool, true, false, ◌||◌, Option, none, some, List, [], ◌∷◌, ◌++◌, bytes_equal, ltb,
  ◌==◌, if◌then◌else◌,
}

pub data QueueState : Type 0 where
  ready skipped running done failed cancelled : QueueState

-- A `Fraction` is counted in thousandths, a time in milliseconds.
pub record QueueItem : Type 0 where
  pub id : ℕ
  pub cue_path : List ℕ
  pub basename : List ℕ
  pub reason : List ℕ
  pub state : QueueState
  pub label : List ℕ
  pub fraction : ℕ
  pub started_at : ℕ
  pub duration_ms : ℕ

pub record UnusedScram : Type 0 where
  pub path : List ℕ
  pub size : ℕ

-- `queueModel` without its mutex: a definition here is what one holder of the lock does.
pub record QueueModel : Type 0 where
  pub items : List QueueItem
  pub next_id : ℕ
  pub delete_scram : Bool
  pub stopped : Bool
  pub auto_follow : Bool
  pub worker_running : Bool
  pub unused_scrams : List UnusedScram

abbrev pub new_queue_model : QueueModel
new_queue_model = record {
  items = [];
  next_id = 0;
  delete_scram = true;
  stopped = false;
  auto_follow = true;
  worker_running = false;
  unused_scrams = [];
}

unfoldable pub is_ready : QueueState → Bool
is_ready ready = true
is_ready _ = false

unfoldable pub is_running : QueueState → Bool
is_running running = true
is_running _ = false

unfoldable pub is_skipped : QueueState → Bool
is_skipped skipped = true
is_skipped _ = false

-- `hasPath`, over the items.
unfoldable pub has_path : List ℕ → List QueueItem → Bool
has_path path [] = false
has_path path (it ∷ its) = bytes_equal it.cue_path path || has_path path its

-- `hasReady`.
unfoldable pub has_ready : List QueueItem → Bool
unfolding is_ready
has_ready [] = false
has_ready (it ∷ its) = is_ready it.state || has_ready its

unfoldable pub first_ready : List QueueItem → Option ℕ
unfolding is_ready
first_ready [] = none
first_ready (it ∷ its) =
    let rest = first_ready its in
    if is_ready it.state then some 0 else elim rest [ none ↦ none | some n ↦ some (suc n) ]

-- `nextReadyIndex`; `none` is -1.
unfoldable pub next_ready_index : QueueModel → Option ℕ
unfolding first_ready
next_ready_index q = if q.stopped then none else first_ready q.items

-- `cancelRemainingReady`.
unfoldable pub cancel_ready : QueueItem → QueueItem
unfolding is_ready
cancel_ready it = if is_ready it.state then record it { state = cancelled } else it

unfoldable pub cancel_remaining_ready : List QueueItem → List QueueItem
unfolding cancel_ready
cancel_remaining_ready [] = []
cancel_remaining_ready (it ∷ its) = cancel_ready it ∷ cancel_remaining_ready its

-- An assignment to `q.items[idx]`; `none` is the panic of an index out of range.
unfoldable pub update_at : ℕ → (QueueItem → QueueItem) → List QueueItem → Option (List QueueItem)
update_at idx f [] = none
update_at zero f (it ∷ its) = some (f it ∷ its)
update_at (suc idx) f (it ∷ its) = elim (update_at idx f its) [
  | none ↦ none
  | some rest ↦ some (it ∷ rest)
]

-- `markRunning` and `markFailed`, on the item.
unfoldable pub running_from : ℕ → QueueItem → QueueItem
running_from now it = record it { state = running; started_at = now }

unfoldable pub failed_with : List ℕ → QueueItem → QueueItem
failed_with reason it = record it { state = failed; reason = reason }

-- The fields of `actionResult` that the queue reads. `other` is any other status.
pub data Status : Type 0 where
  success fail cancel other : Status

pub record ActionResult : Type 0 where
  pub status : Status
  pub error : List ℕ
  pub duration_ms : ℕ

-- The `switch` of `recordResult`.
by_status : Status → List ℕ → QueueItem → QueueItem
by_status success error it = record it { state = done; fraction = 1000 }
by_status fail error it = record it { state = failed; reason = error }
by_status cancel error it = record it { state = cancelled }
by_status other error it = it

-- `recordResult`, on the item.
unfoldable pub with_result : ActionResult → QueueItem → QueueItem
unfolding by_status
with_result res it = by_status res.status res.error (record it { duration_ms = res.duration_ms })

-- `removeByID`, over the items: the first item with the id goes.
unfoldable pub remove_by_id : ℕ → List QueueItem → List QueueItem
remove_by_id id [] = []
remove_by_id id (it ∷ its) =
    let rest = remove_by_id id its in if it.id == id then its else it ∷ rest

-- `UpdateRunningProgress`, over the items: the first running one is changed.
unfoldable pub update_running_progress : List ℕ → ℕ → List QueueItem → List QueueItem
unfolding is_running
update_running_progress label frac [] = []
update_running_progress label frac (it ∷ its) =
    let rest = update_running_progress label frac its in
    if is_running it.state
    then (record it {
      label = label;
      fraction = if ltb it.fraction frac then frac else it.fraction;
    })
      ∷ its
    else it ∷ rest

-- `appendUnusedScram`, over the entries.
unfoldable pub has_scram : List ℕ → List UnusedScram → Bool
has_scram path [] = false
has_scram path (u ∷ us) = bytes_equal u.path path || has_scram path us

unfoldable pub append_unused_scram : UnusedScram → List UnusedScram → List UnusedScram
unfolding has_scram
append_unused_scram u us = if has_scram u.path us then us else us ++ (u ∷ [])

-- `Snapshot`.
pub record QueueSnapshot : Type 0 where
  pub items : List QueueItem
  pub delete_scram : Bool
  pub worker_running : Bool
  pub ready_count : ℕ
  pub skipped_count : ℕ
  pub unused_scrams : List UnusedScram

unfoldable pub count_state : (QueueState → Bool) → List QueueItem → ℕ
count_state p [] = 0
count_state p (it ∷ its) = let rest = count_state p its in if p it.state then suc rest else rest

unfoldable pub snapshot : QueueModel → QueueSnapshot
unfolding count_state is_ready is_skipped
snapshot q = record {
  items = q.items;
  delete_scram = q.delete_scram;
  worker_running = q.worker_running;
  ready_count = count_state is_ready q.items;
  skipped_count = count_state is_skipped q.items;
  unused_scrams = q.unused_scrams;
}
