-- ===== src/Cue/Resolve.antt =====
-- cue.go: `ResolveCue`. `join` is `filepath.Join` with the sheet's directory, and `stat` gives the
-- size of a file that is there.
use miniscram.Common.{
  ℕ, ◌+◌, ◌*◌, ◌/◌, ◌%◌, ◌<◌, ◌^◌, ◌≡◌, refl, ap, ◌∙◌, arith, Bool, Option, some, List, [], ◌∷◌,
  map, ◌==◌, ℤ, pos, ◌+ℤ◌, add_i32, to_i32, Result, ok, err, or_err, guard, ◌>>=◌, >>=-eq-ok,
  ok-injective, Ensures, Ensures->>=, Ensures-guard, Ensures-or_err, Ensures-ok, to_i32_fits,
  pos-+ℤ-pos,
}
use miniscram.Disc.{Track}
use miniscram.Cue.Parse.{CueError, parse_cue}

pub record ResolvedFile : Type 0 where
  pub path : List ℕ
  pub size : ℕ

pub data ResolveError : Type 0 where
  not_open : ResolveError
  not_parsed : CueError → ResolveError
  no_file : ℤ → List ℕ → ResolveError
  odd_size : ℤ → List ℕ → ℕ → ResolveError

pub record CueResolved : Type 0 where
  pub tracks : List Track
  pub files : List ResolvedFile

unfoldable pub located : ℤ → ℕ → Track → Track
located lba size t = record t { first_lba = lba; size = pos size }

unfoldable pub cue_result : {A : Type 0} → Result CueError A → Result ResolveError A
cue_result (err e) = err (not_parsed e)
cue_result (ok a) = ok a

unfoldable pub with_first : Track → ResolvedFile → CueResolved → CueResolved
with_first t f rest = record { tracks = t ∷ rest.tracks; files = f ∷ rest.files }

module _ (join : List ℕ → List ℕ) (stat : List ℕ → Option ℕ) where
  -- The loop over the tracks, from the cumulative LBA on.
  unfoldable pub resolve_from : ℤ → List Track → Result ResolveError CueResolved
  unfolding located with_first
  resolve_from lba [] = ok (record { tracks = []; files = [] })
  resolve_from lba (t ∷ ts) = do
    size ← or_err (stat (join t.filename)) (no_file t.number t.filename)
    _ ← guard (size % 2352 == 0) (odd_size t.number t.filename size)
    rest ← resolve_from (add_i32 lba (to_i32 (pos (size / 2352)))) ts
    ok (with_first (located lba size t) (record { path = join t.filename; size = size }) rest)

  -- `ResolveCue` of a sheet with a text.
  unfoldable pub resolve_cue :
      (List ℕ → List (List ℕ) × Bool) → Option (List ℕ) → Result ResolveError CueResolved
  unfolding parse_cue cue_result resolve_from
  resolve_cue scan_lines opened = do
    text ← or_err opened not_open
    ts ← cue_result (parse_cue scan_lines text)
    resolve_from (pos 0) ts

-- The tracks stand one behind another from `sector` on, each with its file.
abbrev pub Consecutive : ℕ → List Track → List ResolvedFile → Type 0
Consecutive sector [] [] = Unit
Consecutive sector [] (f ∷ fs) = ⊥
Consecutive sector (t ∷ ts) [] = ⊥
Consecutive sector (t ∷ ts) (f ∷ fs) =
    (t.first_lba ≡ pos sector)
    × (t.size ≡ pos f.size)
    × (f.size % 2352 ≡ 0)
    × Consecutive (sector + f.size / 2352) ts fs

abbrev pub total_size : List ResolvedFile → ℕ
total_size [] = 0
total_size (f ∷ fs) = f.size + total_size fs

-- The disc ends below sector 2 ^ 31.
abbrev pub FitsDisc : ℕ → List ResolvedFile → Type 0
FitsDisc sector files = sector * 2352 + total_size files < 2352 * 2 ^ 31

-- What a resolved sheet has in common with the parsed tracks.
abbrev pub unlocated : Track → Track
unlocated t = record t { first_lba = pos 0; size = pos 0 }

abbrev pub IsResolved : (List ℕ → List ℕ) → ℤ → ℕ → List Track → CueResolved → Type 0
IsResolved join lba sector ts r =
    (map unlocated r.tracks ≡ map unlocated ts)
    × (map (λ (f : ResolvedFile). f.path) r.files ≡ map (λ (t : Track). join t.filename) ts)
    × (lba ≡ pos sector → FitsDisc sector r.files → Consecutive sector r.tracks r.files)

advance :
    (sector size : ℕ)
    → size % 2352 ≡ 0
    → sector * 2352 + size < 2352 * 2 ^ 31
    → add_i32 (pos sector) (to_i32 (pos (size / 2352))) ≡ pos (sector + size / 2352)
unfolding add_i32
advance sector size even small =
    let part : to_i32 (pos (size / 2352)) ≡ pos (size / 2352) =
      to_i32_fits (pos (size / 2352)) (omega arith, omega arith) in
    ap (λ (z : ℤ). to_i32 (pos sector +ℤ z)) part
    ∙ ap to_i32 (pos-+ℤ-pos sector (size / 2352))
    ∙ to_i32_fits (pos (sector + size / 2352)) (omega arith, omega arith)

cue_result-ok : {A : Type 0} (r : Result CueError A) {a : A} → cue_result r ≡ ok a → r ≡ ok a
unfolding cue_result
cue_result-ok (err e) h = cc
cue_result-ok (ok b) h = ap ok (ok-injective h)

module _ (join : List ℕ → List ℕ) (stat : List ℕ → Option ℕ) where
  resolve_from-IsResolved :
      (lba : ℤ) (sector : ℕ) (ts : List Track)
      → Ensures (IsResolved join lba sector ts) (resolve_from join stat lba ts)
  unfolding resolve_from
  resolve_from-IsResolved lba sector [] = (refl, refl, λ e fits. tt)
  resolve_from-IsResolved lba sector (t ∷ ts) =
      Ensures-or_err (IsResolved join lba sector (t ∷ ts)) (stat (join t.filename)) _ _
        (λ size there.
          Ensures-guard (IsResolved join lba sector (t ∷ ts)) (size % 2352 == 0) _ _ (λ even.
            let whole : size % 2352 ≡ 0 = ground arith in
            let later = add_i32 lba (to_i32 (pos (size / 2352))) in
            let next = sector + size / 2352 in
            Ensures->>= (IsResolved join later next ts) (IsResolved join lba sector (t ∷ ts))
              (resolve_from join stat later ts) _ (resolve_from-IsResolved later next ts)
              (λ rest (same, paths, consecutive). (
                ap (◌∷◌ (unlocated t)) same,
                ap (◌∷◌ (join t.filename)) paths,
                λ e fits. (
                  e,
                  refl,
                  whole,
                  consecutive
                      (ap (λ (z : ℤ). add_i32 z (to_i32 (pos (size / 2352)))) e
                        ∙ advance sector size whole (omega arith))
                      (omega arith),
                ),
              ))))

  -- A resolved sheet has the parsed tracks in their order, each with its own file in the sheet's
  -- directory. When the disc ends below sector 2 ^ 31, the tracks stand one behind another from
  -- sector 0 on, each as long as its file, which has whole sectors.
  pub resolve_cue-IsResolved :
      (scan_lines : List ℕ → List (List ℕ) × Bool) (text : List ℕ) (r : CueResolved)
      → resolve_cue join stat scan_lines (some text) ≡ ok r
      → FitsDisc 0 r.files
      → (ts : List Track) × (parse_cue scan_lines text ≡ ok ts)
        × (map unlocated r.tracks ≡ map unlocated ts)
        × (map (λ (f : ResolvedFile). f.path) r.files ≡ map (λ (t : Track). join t.filename) ts)
        × Consecutive 0 r.tracks r.files
  unfolding resolve_cue
  resolve_cue-IsResolved scan_lines text r e fits =
      let (ts, found, done) =
        >>=-eq-ok (cue_result (parse_cue scan_lines text)) (resolve_from join stat (pos 0)) e in
      let (same, paths, consecutive) =
        Ensures-ok (IsResolved join (pos 0) 0 ts) (resolve_from join stat (pos 0) ts)
          (resolve_from-IsResolved (pos 0) 0 ts) done in
      (ts, cue_result-ok (parse_cue scan_lines text) found, same, paths, consecutive refl fits)
