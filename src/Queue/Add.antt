-- ===== src/Queue/Add.antt =====
-- queue.go: `classify`, `walkForCues` and `addPaths`.
use miniscram.Common.{
  ℕ, ◌+◌, Bool, true, false, not, ◌&&◌, ◌||◌, Option, none, some, List, [], ◌∷◌, ◌++◌, codes, ltb,
  ◌==◌, if◌then◌else◌,
}
use miniscram.Text.{ext, stem, base, equal_fold, has_prefix}
use miniscram.Queue.Items.{QueueState, ready, skipped, QueueItem, QueueModel, has_path, has_ready}

-- What `filepath.WalkDir` finds in a directory, in its lexical order. A directory that cannot be
-- read has no entries.
mutual
  pub data Node : Type 0 where
    file : List ℕ → Node
    dir : List ℕ → Forest → Node

  pub data Forest : Type 0 where
    empty : Forest
    entry : Node → Forest → Forest

-- A path that `os.Stat` finds.
pub data Kind : Type 0 where
  a_file : Kind
  a_dir : Forest → Kind

-- The file system and the working directory at one time. `absolute` is `filepath.Abs` and
-- `filepath.Clean`.
pub record Files : Type 0 where
  pub exists : List ℕ → Bool
  pub absolute : List ℕ → Option (List ℕ)
  pub stat : List ℕ → Option Kind

unfoldable pub new_item : ℕ → List ℕ → List ℕ → QueueState → QueueItem
new_item id cue reason state = record {
  id = id;
  cue_path = cue;
  basename = base cue;
  reason = reason;
  state = state;
  label = [];
  fraction = 0;
  started_at = 0;
  duration_ms = 0;
}

-- `classify`.
unfoldable pub classify : Files → List ℕ → ℕ → QueueItem
unfolding new_item
classify fs cue id =
    if not (fs.exists (stem cue ++ codes ".scram"))
    then new_item id cue (codes "no sibling .scram") skipped
    else if fs.exists (stem cue ++ codes ".miniscram")
    then new_item id cue (codes "already packed") skipped
    else new_item id cue [] ready

unfoldable pub is_cue : List ℕ → Bool
is_cue name = equal_fold (ext name) (codes ".cue")

-- The callback of `walkForCues`, below the root: a directory whose name starts with a dot is
-- skipped.
unfoldable mutual
  pub walk_node : List ℕ → Node → List (List ℕ)
  walk_node path (file name) = if is_cue name then (path ++ (47 ∷ name)) ∷ [] else []
  walk_node path (dir name entries) =
      let inside = walk_forest (path ++ (47 ∷ name)) entries in
      if has_prefix name (codes ".") then [] else inside

  pub walk_forest : List ℕ → Forest → List (List ℕ)
  walk_forest path empty = []
  walk_forest path (entry n ns) = walk_node path n ++ walk_forest path ns

-- The order of `sort.Strings`.
unfoldable pub before : List ℕ → List ℕ → Bool
before [] t = true
before (c ∷ s) [] = false
before (c ∷ s) (d ∷ t) = ltb c d || (c == d && before s t)

unfoldable pub insert_path : List ℕ → List (List ℕ) → List (List ℕ)
unfolding before
insert_path s [] = s ∷ []
insert_path s (t ∷ ts) = let rest = insert_path s ts in if before s t then s ∷ t ∷ ts else t ∷ rest

unfoldable pub sort_paths : List (List ℕ) → List (List ℕ)
unfolding insert_path
sort_paths [] = []
sort_paths (s ∷ ss) = insert_path s (sort_paths ss)

-- `walkForCues`.
unfoldable pub walk_for_cues : List ℕ → Forest → List (List ℕ)
unfolding walk_forest sort_paths
walk_for_cues root entries = sort_paths (walk_forest root entries)

-- What the first loop of `addPaths` collects.
pub record Dropped : Type 0 where
  pub cues : List (List ℕ)
  pub miniscrams : List (List ℕ)
  pub auto_follow : Bool

unfoldable pub sort_kind : Kind → List ℕ → Dropped → Dropped
unfolding is_cue
sort_kind (a_dir entries) path d = record d { cues = d.cues ++ walk_for_cues path entries }
sort_kind a_file path d =
    if is_cue path
    then record d { cues = d.cues ++ (path ∷ []) }
    else if equal_fold (ext path) (codes ".miniscram")
    then record d { miniscrams = d.miniscrams ++ (path ∷ []); auto_follow = false }
    else d

-- One round: a path that is not found is left out.
unfoldable pub sort_path : Files → List ℕ → Dropped → Dropped
unfolding sort_kind
sort_path fs p d = elim (fs.absolute p) [
  | none ↦ d
  | some path ↦ elim (fs.stat path) [ none ↦ d | some kind ↦ sort_kind kind path d ]
]

unfoldable pub sort_dropped : Files → List (List ℕ) → Dropped → Dropped
unfolding sort_path
sort_dropped fs [] d = d
sort_dropped fs (p ∷ ps) d = sort_dropped fs ps (sort_path fs p d)

-- The second loop, over the items and the next id.
unfoldable pub add_cues : Files → List (List ℕ) → List QueueItem × ℕ → List QueueItem × ℕ
add_cues fs [] s = s
add_cues fs (cue ∷ cues) (items, next) =
    let known = add_cues fs cues (items, next) in
    let longer = add_cues fs cues (items ++ (classify fs cue next ∷ []), next + 1) in
    if has_path cue items then known else longer

-- `addPaths` up to the release of the lock: the model, the .miniscram files to load, and whether a
-- worker is started. `added` is the difference of the ids.
unfoldable pub add_paths : Files → List (List ℕ) → QueueModel → QueueModel × List (List ℕ) × Bool
add_paths fs paths q =
    let d =
      sort_dropped fs paths (record { cues = []; miniscrams = []; auto_follow = q.auto_follow }) in
    let (items, next) = add_cues fs d.cues (q.items, q.next_id) in
    (
      record q {
        items = items;
        next_id = next;
        auto_follow = d.auto_follow;
        stopped = if ltb q.next_id next && has_ready items then false else q.stopped;
      },
      d.miniscrams,
      not q.worker_running && has_ready items,
    )
