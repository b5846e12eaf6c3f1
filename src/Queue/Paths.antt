-- ===== src/Queue/Paths.antt =====
-- The paths in the queue: what `addPaths` adds.
use mathlib.Core.List.{append_assoc, append-nil}
use miniscram.Common.{
  ℕ, ◌+◌, ◌≡◌, refl, sym, ap, ◌∙◌, arith, true, false, ◌||◌, List, [], ◌∷◌, ◌++◌, All, bytes_equal,
  bytes_equal_refl, Bool-cases, inl, inr,
}
use miniscram.Queue.Items.{QueueItem, QueueModel, has_path}
use miniscram.Queue.Add.{Files, classify, add_cues, add_paths, sort_dropped}

-- No two items have the same path.
abbrev pub IsDistinct : List QueueItem → Type 0
IsDistinct [] = Unit {0}
IsDistinct (it ∷ its) = (has_path it.cue_path its ≡ false) × IsDistinct its

classify_path : (fs : Files) (cue : List ℕ) (id : ℕ) → (classify fs cue id).cue_path ≡ cue
unfolding classify
classify_path fs cue id = ground arith

has_path-append :
    (path : List ℕ) (its : List QueueItem) (it : QueueItem)
    → has_path path (its ++ (it ∷ [])) ≡ (has_path path its || bytes_equal it.cue_path path)
unfolding has_path
has_path-append path [] it = ground arith
has_path-append path (u ∷ its) it = ground (arith, has_path-append path its it)

bytes_equal_comm : (xs ys : List ℕ) → bytes_equal xs ys ≡ bytes_equal ys xs
unfolding bytes_equal
bytes_equal_comm [] [] = refl
bytes_equal_comm [] (y ∷ ys) = refl
bytes_equal_comm (x ∷ xs) [] = refl
bytes_equal_comm (x ∷ xs) (y ∷ ys) = ground (arith, bytes_equal_comm xs ys)

IsDistinct-append :
    (its : List QueueItem) (it : QueueItem)
    → has_path it.cue_path its ≡ false
    → IsDistinct its
    → IsDistinct (its ++ (it ∷ []))
unfolding has_path
IsDistinct-append [] it e h = (refl, tt)
IsDistinct-append (u ∷ its) it e h = (
  has_path-append u.cue_path its it
      ∙ rw (bytes_equal_comm it.cue_path u.cue_path) (ground (arith, h.0)),
  IsDistinct-append its it (ground arith) h.1,
)

has_path-more :
    (path : List ℕ) (its more : List QueueItem)
    → has_path path its ≡ true
    → has_path path (its ++ more) ≡ true
unfolding has_path
has_path-more path [] more h = cc
has_path-more path (u ∷ its) more h = ground (arith, has_path-more path its more)

-- What holds behind the second loop.
record Adds (cues : List (List ℕ)) (its its' : List QueueItem) : Type 0 where
  pub new : List QueueItem
  pub kept : its' ≡ its ++ new
  pub distinct : IsDistinct its'
  pub queued : All (λ cue. has_path cue its' ≡ true) cues

add_cues-Adds :
    (fs : Files) (cues : List (List ℕ)) (its : List QueueItem) (next : ℕ)
    → IsDistinct its
    → Adds cues its (add_cues fs cues (its, next)).0
unfolding add_cues
add_cues-Adds fs [] its next h = record {
  new = [];
  kept = sym (append-nil its);
  distinct = h;
  queued = tt;
}
add_cues-Adds fs (cue ∷ cues) its next h = elim (Bool-cases (has_path cue its)) [
  | inl known ↦
      let r : Adds cues its (add_cues fs cues (its, next)).0 = add_cues-Adds fs cues its next h in
      rw known (record {
        new = r.new;
        kept = r.kept;
        distinct = r.distinct;
        queued = (rw r.kept (has_path-more cue its r.new known), r.queued);
      })
  | inr fresh ↦
      let it : QueueItem = classify fs cue next in
      let named : it.cue_path ≡ cue = classify_path fs cue next in
      let r : Adds cues (its ++ (it ∷ [])) (add_cues fs cues (its ++ (it ∷ []), next + 1)).0 =
        add_cues-Adds fs cues (its ++ (it ∷ [])) (next + 1)
          (IsDistinct-append its it (ap (λ (p : List ℕ). has_path p its) named ∙ fresh) h) in
      rw fresh (record {
        new = it ∷ r.new;
        kept = r.kept ∙ append_assoc its (it ∷ []) r.new;
        distinct = r.distinct;
        queued = (
          rw r.kept (
              has_path-more cue (its ++ (it ∷ [])) r.new
                (has_path-append cue its it ∙ rw (named, bytes_equal_refl cue) (ground arith))),
          r.queued,
        );
      })
]

-- The cue sheets among dropped paths.
abbrev pub dropped_cues : Files → List (List ℕ) → QueueModel → List (List ℕ)
dropped_cues fs paths q =
    (sort_dropped fs paths
      (record { cues = []; miniscrams = []; auto_follow = q.auto_follow })).cues

-- On a queue of distinct paths `addPaths` keeps the items, adds new ones behind them so that each
-- dropped cue sheet is there, and keeps the paths distinct.
pub add_paths-IsDistinct :
    (fs : Files) (paths : List (List ℕ)) (q : QueueModel)
    → IsDistinct q.items
    → (new : List QueueItem) × ((add_paths fs paths q).0.items ≡ q.items ++ new)
      × IsDistinct (add_paths fs paths q).0.items
      × All (λ cue. has_path cue (add_paths fs paths q).0.items ≡ true) (dropped_cues fs paths q)
unfolding add_paths
add_paths-IsDistinct fs paths q h =
    let r : Adds (dropped_cues fs paths q) q.items
        (add_cues fs (dropped_cues fs paths q) (q.items, q.next_id)).0 =
      add_cues-Adds fs (dropped_cues fs paths q) q.items q.next_id h in
    (r.new, r.kept, r.distinct, r.queued)
