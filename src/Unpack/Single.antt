-- ===== src/Unpack/Single.antt =====
-- unpack.go: a single bin file as the source of all tracks.
use miniscram.Common.{
  ℕ, ◌+◌, ◌≡◌, refl, sym, ap, ap₂, ◌∙◌, arith, Option, some, List, [], ◌∷◌, ◌++◌, All, length, take,
  drop, take_all, take_add, drop-drop, ℤ, pos, negsuc, ◌≤ℤ◌, eqb_ℤ, eqb_ℤ-eq, pos_part, add_i64,
  add_i64-pos, ◌<◌, ◌^◌, Result, ok, or_err, guard, ◌>>=◌, >>=-eq-ok, or_err-eq-ok, guard-eq-ok,
  ok-injective,
}
use miniscram.Disc.{Track}
use miniscram.Container.Offsets.{bin_size}
use miniscram.Unpack.Source.{
  SourceError, Source, no_bin, size_differs, lay_out, section, use_single, track_bytes,
}

abbrev pub total_bytes : List Track → ℕ
total_bytes [] = 0
total_bytes (t ∷ ts) = pos_part t.size + total_bytes ts

abbrev pub HasSize : Track → Type 0
HasSize t = pos 0 ≤ℤ t.size

size_part : (z : ℤ) → pos 0 ≤ℤ z → z ≡ pos (pos_part z)
size_part (pos n) h = refl
size_part (negsuc n) h = absurd (omega arith)

bin_size-total_bytes :
    (ts : List Track)
    → All HasSize ts
    → total_bytes ts < 2 ^ 63
    → bin_size ts ≡ pos (total_bytes ts)
unfolding bin_size
bin_size-total_bytes [] h few = refl
bin_size-total_bytes (t ∷ ts) (h, hs) few =
    ap₂ add_i64 (size_part t.size h) (bin_size-total_bytes ts hs (omega arith))
    ∙ add_i64-pos (pos_part t.size) (total_bytes ts) few

module _ (files : List ℕ → Option (List ℕ)) (join : List ℕ → List ℕ → List ℕ)
    (dir_of base_of : List ℕ → List ℕ) (glob : List ℕ → List (List ℕ)) where
  -- The bytes that are hashed, one track after the other.
  abbrev pub all_bytes : List ℕ → List Track → Result SourceError (List ℕ)
  all_bytes dir [] = ok []
  all_bytes dir (t ∷ ts) = do
    bytes ← track_bytes files join dir_of base_of glob dir t
    rest ← all_bytes dir ts
    ok (bytes ++ rest)

  lay_out-all_bytes :
      (dir base content : List ℕ) (off : ℕ) (ts : List Track)
      → files (join dir base) ≡ some content
      → All HasSize ts
      → off + total_bytes ts < 2 ^ 63
      → all_bytes dir (lay_out base (pos off) ts) ≡ ok (take (total_bytes ts) (drop off content))
  unfolding lay_out track_bytes section
  lay_out-all_bytes dir base content off [] there h few = refl
  lay_out-all_bytes dir base content off (t ∷ ts) there (h, hs) few =
      let next : add_i64 (pos off) t.size ≡ pos (off + pos_part t.size) =
        ap (add_i64 (pos off)) (size_part t.size h)
        ∙ add_i64-pos off (pos_part t.size) (omega arith) in
      let later =
        lay_out-all_bytes dir base content (off + pos_part t.size) ts there hs (omega arith) in
      let size = pos_part t.size in
      let bytes = take size (drop off content) in
      let read : track_bytes files join dir_of base_of glob dir
            (record t { filename = base; file_offset = pos off })
          ≡ ok bytes =
        rw there refl in
      ap₂ (λ (first rest : Result SourceError (List ℕ)). first >>= λ x. rest >>= λ xs. ok (x ++ xs))
        read (ap (λ (z : ℤ). all_bytes dir (lay_out base z ts)) next ∙ later)
      ∙ ap ok (
          ap (λ (xs : List ℕ). bytes ++ take (total_bytes ts) xs) (sym (drop-drop off size content))
          ∙ take_add size (total_bytes ts) (drop off content))

  -- When one bin file is the source of all tracks, no size is negative, their sum is less than 2^63,
  -- and the directory and the base name of the path, joined, name the file that the path names, the
  -- bytes that are hashed for the tracks are, one behind another, exactly the file.
  pub use_single-all_bytes :
      (path : List ℕ) (tracks : List Track) (source : Source)
      → use_single files join dir_of base_of glob path tracks ≡ ok source
      → files (join (dir_of path) (base_of path)) ≡ files path
      → All HasSize tracks
      → total_bytes tracks < 2 ^ 63
      → (content : List ℕ) × (files path ≡ some content)
        × (source.paths ≡ path ∷ [])
        × (all_bytes source.dir source.tracks ≡ ok content)
  unfolding use_single
  use_single-all_bytes path tracks source e there sizes few =
      let (content, opened, more) = >>=-eq-ok (or_err (files path) (no_bin path)) _ e in
      let found : files path ≡ some content = or_err-eq-ok (files path) (no_bin path) opened in
      let (u, fits, end) =
        >>=-eq-ok
          (guard (eqb_ℤ (pos (length content)) (bin_size tracks))
            (size_differs path (length content) (bin_size tracks)))
          _ more in
      let same : source ≡ record {
        dir = dir_of path;
        paths = path ∷ [];
        tracks = lay_out (base_of path) (pos 0) tracks;
      } =
        sym (ok-injective end) in
      let whole : length content ≡ total_bytes tracks = ap pos_part (
        eqb_ℤ-eq (pos (length content)) (bin_size tracks) (guard-eq-ok _ _ fits)
        ∙ bin_size-total_bytes tracks sizes few) in
      (
        content,
        found,
        ap (λ (s : Source). s.paths) same,
        ap (λ (s : Source). all_bytes s.dir s.tracks) same
            ∙ lay_out-all_bytes (dir_of path) (base_of path) content 0 tracks (there ∙ found) sizes
                (omega arith)
            ∙ ap ok (take_all (total_bytes tracks) content (omega arith)),
      )
