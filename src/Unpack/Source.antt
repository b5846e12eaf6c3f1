-- ===== src/Unpack/Source.antt =====
-- unpack.go: `resolveBinSource`; pack.go: `hashTracks` and `compareHashes`. `files` gives the bytes
-- of a file that is there, `hashes` its digests; `join`, `dir_of` and `base_of` are
-- `filepath.Join`, `Dir` and `Base`, and `glob` lists the *.bin files of a directory.
use miniscram.Common.{
  ℕ, suc, Bool, true, false, not, ◌&&◌, ◌||◌, Option, none, some, List, [], ◌∷◌, ◌++◌, length, take,
  drop, bytes_equal, if◌then◌else◌, ℤ, pos, negsuc, add_i64, eqb_ℤ, ltb_ℤ, pos_part, Result, ok,
  err, or_err, guard, ◌>>=◌,
}
use miniscram.Disc.{FileHashes, Track}
use miniscram.Text.{is_empty, is_some}
use miniscram.Container.Offsets.{bin_size, assign_file_offsets}

pub data SourceError : Type 0 where
  no_bin : List ℕ → SourceError
  size_differs : List ℕ → ℕ → ℤ → SourceError
  no_bins : SourceError
  several_bins : ℕ → SourceError
  not_opened : List ℕ → SourceError
  track_differs : ℤ → List ℕ → SourceError

-- The tracks with the places of their bytes, the directory of these and the files to stream.
pub record Source : Type 0 where
  pub dir : List ℕ
  pub paths : List (List ℕ)
  pub tracks : List Track

-- What one digest differs in.
pub data Diff : Type 0 where
  md5_differs sha1_differs sha256_differs : Diff

unfoldable pub differs : List ℕ → List ℕ → Diff → List Diff
differs got want d = if bytes_equal got want then [] else d ∷ []

-- `compareHashes`: without differences it returns nil.
unfoldable pub compare_hashes : FileHashes → FileHashes → List Diff
unfolding differs
compare_hashes got want =
    differs got.md5 want.md5 md5_differs
    ++ differs got.sha1 want.sha1 sha1_differs
    ++ differs got.sha256 want.sha256 sha256_differs

unfoldable pub same_hashes : FileHashes → FileHashes → Bool
unfolding compare_hashes
same_hashes got want = elim (compare_hashes got want) [ [] ↦ true | d ∷ ds ↦ false ]

-- The tracks one behind another in a single file.
unfoldable pub lay_out : List ℕ → ℤ → List Track → List Track
unfolding add_i64
lay_out base off [] = []
lay_out base off (t ∷ ts) =
    (record t { filename = base; file_offset = off }) ∷ lay_out base (add_i64 off t.size) ts

-- The entry of `fileTotals`.
unfoldable pub file_total : List ℕ → List Track → ℤ
unfolding add_i64
file_total name [] = pos 0
file_total name (t ∷ ts) =
    let rest = file_total name ts in
    if bytes_equal t.filename name then add_i64 t.size rest else rest

unfoldable pub is_seen_name : List ℕ → List (List ℕ) → Bool
is_seen_name name [] = false
is_seen_name name (other ∷ seen) = bytes_equal other name || is_seen_name name seen

-- The bytes of a section reader, or a failed read at a negative offset.
unfoldable pub section : ℤ → ℤ → List ℕ → Option (List ℕ)
section (pos off) size content = some (take (pos_part size) (drop off content))
section (negsuc off) size content = if ltb_ℤ (pos 0) size then none else some []

module _ (files : List ℕ → Option (List ℕ)) (join : List ℕ → List ℕ → List ℕ)
    (dir_of base_of : List ℕ → List ℕ) (glob : List ℕ → List (List ℕ)) where
  -- `useSingle`.
  unfoldable pub use_single : List ℕ → List Track → Result SourceError Source
  unfolding bin_size lay_out
  use_single path tracks = do
    content ← or_err (files path) (no_bin path)
    _ ←
        guard (eqb_ℤ (pos (length content)) (bin_size tracks))
          (size_differs path (length content) (bin_size tracks))
    ok (record {
      dir = dir_of path;
      paths = path ∷ [];
      tracks = lay_out (base_of path) (pos 0) tracks;
    })

  unfoldable pub all_present : List ℕ → List Track → Bool
  unfolding is_some
  all_present dir [] = true
  all_present dir (t ∷ ts) = is_some (files (join dir t.filename)) && all_present dir ts

  -- The loop over the named files; `all` is every track.
  unfoldable pub named_paths :
      List ℕ → List Track → List (List ℕ) → List Track → Result SourceError (List (List ℕ))
  unfolding file_total is_seen_name
  named_paths dir all seen [] = ok []
  named_paths dir all seen (t ∷ ts) = elim (is_seen_name t.filename seen) [
    | true ↦ named_paths dir all seen ts
    | false ↦ (do
      content ← or_err (files (join dir t.filename)) (no_bin t.filename)
      _ ←
          guard (eqb_ℤ (pos (length content)) (file_total t.filename all))
            (size_differs t.filename (length content) (file_total t.filename all))
      rest ← named_paths dir all (t.filename ∷ seen) ts
      ok (join dir t.filename ∷ rest))
  ]

  unfoldable pub use_named : List ℕ → List Track → Result SourceError Source
  unfolding named_paths assign_file_offsets
  use_named dir tracks = do
    paths ← named_paths dir (assign_file_offsets tracks) [] (assign_file_offsets tracks)
    ok (record { dir = dir; paths = paths; tracks = assign_file_offsets tracks })

  -- `resolveBinSource`.
  unfoldable pub resolve_bin_source : List ℕ → List ℕ → List Track → Result SourceError Source
  unfolding use_single use_named all_present is_empty
  resolve_bin_source dir bin_path tracks =
      if not (is_empty bin_path)
      then use_single bin_path tracks
      else if all_present dir tracks
      then use_named dir tracks
      else elim (glob dir) [
        | [] ↦ err no_bins
        | bin ∷ [] ↦ use_single bin tracks
        | bin ∷ other ∷ bins ↦ err (several_bins (suc (suc (length bins))))
      ]

  -- What `hashTracks` reads of one track.
  unfoldable pub track_bytes : List ℕ → Track → Result SourceError (List ℕ)
  unfolding section
  track_bytes dir t = do
    content ← or_err (files (join dir t.filename)) (not_opened t.filename)
    or_err (section t.file_offset t.size content) (not_opened t.filename)

  -- `hashTracks`.
  unfoldable pub hash_tracks :
      (List ℕ → FileHashes) → List ℕ → List Track → Result SourceError (List FileHashes)
  unfolding track_bytes
  hash_tracks hashes dir [] = ok []
  hash_tracks hashes dir (t ∷ ts) = do
    bytes ← track_bytes dir t
    rest ← hash_tracks hashes dir ts
    ok (hashes bytes ∷ rest)

-- The comparison of the digests of all tracks.
unfoldable pub compare_tracks : List FileHashes → List Track → Result SourceError (Unit {0})
unfolding same_hashes
compare_tracks [] ts = ok tt
compare_tracks (got ∷ gots) [] = ok tt
compare_tracks (got ∷ gots) (t ∷ ts) = do
  _ ← guard (same_hashes got t.hashes) (track_differs t.number t.filename)
  compare_tracks gots ts
