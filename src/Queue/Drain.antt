-- ===== src/Queue/Drain.antt =====
-- A worker that is not disturbed packs every ready item and ends.
use miniscram.Common.{
  ℕ, suc, ◌≡◌, refl, sym, ap, ◌∙◌, arith, false, Option, none, some, List, [], ◌∷◌, length,
  Bool-cases, inl, inr, if◌then◌else◌,
}
use miniscram.Queue.Items.{
  QueueItem, QueueModel, ActionResult, is_ready, has_ready, next_ready_index, first_ready,
  cancel_ready, cancel_remaining_ready, update_at, running_from, with_result, count_state,
}
use miniscram.Queue.Worker.{
  Worker, idle, at_top, starting, waiting, World, Action, pick, starts, result, leave, step,
  assigned, picked, with_items,
}

-- The actions of `drain` for one result after the other, up to its cleanup.
abbrev pub drain_actions : List ActionResult → List Action
drain_actions [] = pick 0 ∷ leave ∷ []
drain_actions (res ∷ rs) = pick 0 ∷ starts ∷ result res ∷ drain_actions rs

abbrev pub run : World → List Action → Option World
run w [] = some w
run w (a ∷ as') = elim (step w a) [ none ↦ none | some w' ↦ run w' as' ]

-- The results handed to the ready items in their order; nothing else is changed.
abbrev pub handed : List ActionResult → List QueueItem → List QueueItem
handed [] its = its
handed (res ∷ rs) [] = []
handed (res ∷ rs) (it ∷ its) =
    let given = with_result res (running_from 0 it) ∷ handed rs its in
    let kept = it ∷ handed (res ∷ rs) its in if is_ready it.state then given else kept

handed-passed :
    (rs : List ActionResult) (it : QueueItem) (its : List QueueItem)
    → is_ready it.state ≡ false
    → handed rs (it ∷ its) ≡ it ∷ handed rs its
handed-passed [] it its e = refl
handed-passed (res ∷ rs) it its e = rw e refl

given_is_ready :
    (res : ActionResult) (it : QueueItem)
    → is_ready (with_result res (running_from 0 it)).state ≡ false
unfolding with_result running_from is_ready
given_is_ready res it = ground arith

-- The picked item with its result.
record Round (res : ActionResult) (its : List QueueItem) (n : ℕ) : Type 0 where
  idx : ℕ
  its' : List QueueItem
  its'' : List QueueItem
  first : first_ready its ≡ some idx
  one : update_at idx (running_from 0) its ≡ some its'
  two : update_at idx (with_result res) its' ≡ some its''
  left : count_state is_ready its'' ≡ n
  hands : (rs : List ActionResult) → handed (res ∷ rs) its ≡ handed rs its''

round :
    (res : ActionResult) (its : List QueueItem) (n : ℕ)
    → count_state is_ready its ≡ suc n
    → Round res its n
unfolding first_ready update_at count_state
round res [] n e = absurd (omega arith)
round res (it ∷ its) n e = elim (Bool-cases (is_ready it.state)) [
  | inl r ↦ record {
    idx = 0;
    its' = running_from 0 it ∷ its;
    its'' = with_result res (running_from 0 it) ∷ its;
    first = rw r refl;
    one = refl;
    two = refl;
    left = rw (given_is_ready res it) (ground arith);
    hands = λ rs. rw r (sym (handed-passed rs _ its (given_is_ready res it)));
  }
  | inr r ↦
      let rest : Round res its n = round res its n (ground arith) in
      record {
        idx = suc rest.idx;
        its' = it ∷ rest.its';
        its'' = it ∷ rest.its'';
        first = rw (r, rest.first) refl;
        one = rw rest.one refl;
        two = rw rest.two refl;
        left = rw r rest.left;
        hands = λ rs. rw r (ap (◌∷◌ it) (rest.hands rs) ∙ sym (handed-passed rs it rest.its'' r));
      }
]

no_first : (its : List QueueItem) → count_state is_ready its ≡ 0 → first_ready its ≡ none
unfolding first_ready count_state
no_first [] e = refl
no_first (it ∷ its) e = ground (arith, no_first its)

none_cancelled :
    (its : List QueueItem) → count_state is_ready its ≡ 0 → cancel_remaining_ready its ≡ its
unfolding cancel_remaining_ready cancel_ready count_state
none_cancelled [] e = refl
none_cancelled (it ∷ its) e = elim (Bool-cases (is_ready it.state)) [
  | inl r ↦ absurd (ground arith)
  | inr r ↦ rw r (ap (◌∷◌ it) (none_cancelled its (ground arith)))
]

no_ready : (its : List QueueItem) → count_state is_ready its ≡ 0 → has_ready its ≡ false
unfolding has_ready count_state
no_ready [] e = refl
no_ready (it ∷ its) e = ground (arith, no_ready its)

-- A world whose worker is at the top of the loop, with the items.
abbrev at_items : QueueModel → ℕ → List QueueItem → World
at_items q spawned its = record { q = with_items q its; spawned = spawned; worker = at_top }

next_open :
    (q : QueueModel) (its : List QueueItem)
    → q.stopped ≡ false
    → next_ready_index (with_items q its) ≡ first_ready its
unfolding next_ready_index with_items
next_open q its e = rw e refl

run_round :
    (q : QueueModel) (spawned : ℕ) (res : ActionResult) (its its' its'' : List QueueItem) (idx : ℕ)
    (rest : List Action)
    → next_ready_index (with_items q its) ≡ some idx
    → update_at idx (running_from 0) its ≡ some its'
    → update_at idx (with_result res) its' ≡ some its''
    → run (at_items q spawned its) (pick 0 ∷ starts ∷ result res ∷ rest)
      ≡ run (at_items q spawned its'') rest
unfolding step picked assigned with_items
run_round q spawned res its its' its'' idx rest next one two =
    let w : World = at_items q spawned its in
    let w' : World = record { q = with_items q its'; spawned = spawned; worker = waiting idx } in
    ap (λ (o : Option ℕ). run (picked w 0 o) (starts ∷ result res ∷ rest)) next
    ∙ ap
        (λ (o : Option (List QueueItem)).
          run (assigned w o (starting idx)) (starts ∷ result res ∷ rest))
        one
    ∙ ap (λ (o : Option (List QueueItem)). run (assigned w' o at_top) rest) two

run_end :
    (q : QueueModel) (spawned : ℕ) (its : List QueueItem)
    → next_ready_index (with_items q its) ≡ none
    → run (at_items q spawned its) (pick 0 ∷ leave ∷ [])
      ≡ some (record {
        q = record q { items = cancel_remaining_ready its; worker_running = false };
        spawned = spawned;
        worker = idle;
      })
unfolding step picked with_items
run_end q spawned its next =
    ap (λ (o : Option ℕ). run (picked (at_items q spawned its) 0 o) (leave ∷ [])) next

drain_items :
    (rs : List ActionResult) (q : QueueModel) (spawned : ℕ) (its : List QueueItem)
    → q.stopped ≡ false
    → count_state is_ready its ≡ length rs
    → (run (at_items q spawned its) (drain_actions rs)
        ≡ some (record {
          q = record q { items = handed rs its; worker_running = false };
          spawned = spawned;
          worker = idle;
        }))
      × (has_ready (handed rs its) ≡ false)
drain_items [] q spawned its open_queue e = (
  run_end q spawned its (next_open q its open_queue ∙ no_first its e)
      ∙ ap
          (λ (xs : List QueueItem). some (record {
            q = record q { items = xs; worker_running = false };
            spawned = spawned;
            worker = idle;
          }))
          (none_cancelled its e),
  no_ready its e,
)
drain_items (res ∷ rs) q spawned its open_queue e =
    let r : Round res its (length rs) = round res its (length rs) e in
    let (runs, left) = drain_items rs q spawned r.its'' open_queue r.left in
    (
      run_round q spawned res its r.its' r.its'' r.idx (drain_actions rs)
            (next_open q its open_queue ∙ r.first) r.one r.two
          ∙ rw (r.hands rs) runs,
      rw (r.hands rs) left,
    )

-- A worker at the top of its loop, on a queue that is not stopped, that gets a result for each
-- ready item: it hands the results to those items in their order, changes no other item, and
-- ends with no item ready and `workerRunning` false.
pub drain_finishes :
    (rs : List ActionResult) (w : World)
    → w.worker ≡ at_top
    → w.q.stopped ≡ false
    → count_state is_ready w.q.items ≡ length rs
    → (w' : World) × (run w (drain_actions rs) ≡ some w')
      × (w'.worker ≡ idle)
      × (w'.q.worker_running ≡ false)
      × (w'.q.items ≡ handed rs w.q.items)
      × (has_ready w'.q.items ≡ false)
unfolding with_items
drain_finishes rs w top open_queue e =
    let (runs, left) = drain_items rs w.q w.spawned w.q.items open_queue e in
    (
      _,
      ap (λ (k : Worker). run (record w { worker = k }) (drain_actions rs)) top ∙ runs,
      refl,
      refl,
      refl,
      left,
    )
