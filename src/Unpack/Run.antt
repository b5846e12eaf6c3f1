-- ===== src/Unpack/Run.antt =====
-- unpack.go: `Unpack` and `Verify`. The files are as they are at the start; temporary files are
-- written, closed and renamed without errors.
use miniscram.Common.{
  ℕ, Bool, true, false, not, ◌||◌, Option, none, some, List, [], ◌∷◌, ◌++◌, if◌then◌else◌, Result,
  ok, err, or_err, guard, ◌>>=◌,
}
use miniscram.Disc.{FileHashes, Track, Manifest}
use miniscram.Text.{is_some}
use miniscram.Delta.{DeltaError, apply_delta, apply_left}
use miniscram.Unpack.Files.{files_with, files_without}
use miniscram.Builder.Regions.{derived_session_gaps}
use miniscram.Builder.Build.{BuildError, BuildParams, build_epsilon_hat}
use miniscram.Container.File.{ContainerError, read_container}
use miniscram.Unpack.Source.{
  SourceError, Source, same_hashes, resolve_bin_source, hash_tracks, compare_tracks,
}

pub record UnpackOptions : Type 0 where
  pub container_path : List ℕ
  pub output_path : List ℕ
  pub check_output : Bool
  pub force : Bool
  pub bin_path : List ℕ

pub data UnpackError : Type 0 where
  output_exists : UnpackError
  no_container : UnpackError
  bad_container : ContainerError → UnpackError
  bad_source : SourceError → UnpackError
  no_stream : UnpackError
  not_built : BuildError → UnpackError
  not_applied : DeltaError → UnpackError
  output_differs : UnpackError

-- What becomes of the output path: it is as it was, or it holds what a delta that fails half way
-- has made of the prediction, or what a delta that is applied has made of it, or nothing.
pub data Output : Type 0 where
  untouched : Output
  half_patched : List ℕ → Output
  written : List ℕ → Output
  removed : Output

-- The files afterwards.
unfoldable pub files_left :
    (List ℕ → List ℕ) → List ℕ → Output → (List ℕ → Option (List ℕ)) → List ℕ → Option (List ℕ)
unfolding files_with files_without
files_left file_of path untouched files = files
files_left file_of path (half_patched content) files = files_with file_of path content files
files_left file_of path (written content) files = files_with file_of path content files
files_left file_of path removed files = files_without file_of path files

pub record Outcome : Type 0 where
  pub result : Result UnpackError (Unit {0})
  pub output : Output

-- The error of a step becomes the caller's.
unfoldable pub failing : {E A : Type 0} → (E → UnpackError) → Result E A → Result UnpackError A
failing wrap (err e) = err (wrap e)
failing wrap (ok a) = ok a

-- `OpenBinStream` read to its end.
unfoldable pub stream : (List ℕ → Option (List ℕ)) → List (List ℕ) → Option (List ℕ)
stream files [] = some []
stream files (path ∷ paths) = elim (files path) [
  | none ↦ none
  | some content ↦ elim (stream files paths) [ none ↦ none | some rest ↦ some (content ++ rest) ]
]

unfoldable pub open_bin_stream : (List ℕ → Option (List ℕ)) → List (List ℕ) → Option (List ℕ)
unfolding stream
open_bin_stream files [] = none
open_bin_stream files (path ∷ paths) = stream files (path ∷ paths)

unfoldable pub build_params : Manifest → List Track → BuildParams
unfolding derived_session_gaps
build_params m tracks = record {
  leadin_lba = m.leadin_lba;
  write_offset = m.write_offset_bytes;
  scram_size = m.scram.size;
  tracks = tracks;
  session_gaps = derived_session_gaps tracks;
}

-- The result of the delta on the prediction, `left` being the file after it, and the digests.
unfoldable pub patched :
    (List ℕ → FileHashes) → Bool → Manifest → List ℕ → Result DeltaError (List ℕ) → Outcome
unfolding same_hashes
patched hashes check m left (err e) = record {
  result = err (not_applied e);
  output = half_patched left;
}
patched hashes false m left (ok out) = record { result = ok tt; output = written out }
patched hashes true m left (ok out) =
    if same_hashes (hashes out) m.scram.hashes
    then record { result = ok tt; output = written out }
    else record { result = err output_differs; output = removed }

-- The steps behind the prediction.
unfoldable pub finished :
    (List ℕ → FileHashes) → Bool → Result UnpackError (Manifest × List ℕ × List ℕ) → Outcome
unfolding patched apply_delta apply_left
finished hashes check (err e) = record { result = err e; output = untouched }
finished hashes check (ok (m, delta, image)) =
    patched hashes check m (apply_left image delta) (apply_delta image delta)

-- The end of `Verify`: the digests of the temporary file, which is there when `Unpack` succeeds.
unfoldable pub checked_again :
    (List ℕ → FileHashes) → Manifest → Outcome → Result UnpackError (Unit {0})
unfolding same_hashes
checked_again hashes m o = do
  _ ← o.result
  elim o.output [
    | written out ↦ guard (same_hashes (hashes out) m.scram.hashes) output_differs
    | _ ↦ err no_container
  ]

module _ (inflate : List ℕ → Option (List ℕ)) (hashes : List ℕ → FileHashes)
    (files : List ℕ → Option (List ℕ)) (join : List ℕ → List ℕ → List ℕ)
    (dir_of base_of : List ℕ → List ℕ) (glob : List ℕ → List (List ℕ)) where
  unfoldable pub open_container : List ℕ → Result UnpackError (Manifest × List ℕ)
  unfolding read_container failing
  open_container path = do
    file ← or_err (files path) no_container
    failing bad_container (read_container inflate file)

  -- The bytes to stream, once the digests of the tracks are checked.
  unfoldable pub checked_source : List ℕ → List ℕ → Manifest → Result SourceError Source
  unfolding resolve_bin_source hash_tracks compare_tracks
  checked_source container_path bin_path m = do
    source ←
        resolve_bin_source files join dir_of base_of glob (dir_of container_path) bin_path m.tracks
    per_track ← hash_tracks files join dir_of base_of glob hashes source.dir source.tracks
    _ ← compare_tracks per_track source.tracks
    ok source

  -- The steps between reading the container and renaming the prediction.
  unfoldable pub predict :
      List ℕ → List ℕ → Manifest × List ℕ → Result UnpackError (Manifest × List ℕ × List ℕ)
  unfolding checked_source open_bin_stream build_params build_epsilon_hat failing
  predict container_path bin_path (m, delta) = do
    source ← failing bad_source (checked_source container_path bin_path m)
    bin ← or_err (open_bin_stream files source.paths) no_stream
    built ← failing not_built (build_epsilon_hat (build_params m source.tracks) bin none)
    ok (m, delta, built.image)

  -- The steps up to the renaming.
  unfoldable pub predicted : UnpackOptions → Result UnpackError (Manifest × List ℕ × List ℕ)
  unfolding open_container predict is_some
  predicted opts = do
    _ ← guard (opts.force || not (is_some (files opts.output_path))) output_exists
    opened ← open_container opts.container_path
    predict opts.container_path opts.bin_path opened

  -- `Unpack`.
  unfoldable pub unpack : UnpackOptions → Outcome
  unfolding predicted finished
  unpack opts = finished hashes opts.check_output (predicted opts)

  -- `Verify`, whose output is a temporary file.
  unfoldable pub verify : List ℕ → List ℕ → List ℕ → Result UnpackError (Unit {0})
  unfolding open_container unpack checked_again
  verify container_path bin_path temporary = do
    opened ← open_container container_path
    checked_again hashes opened.0 (
        unpack (record {
          container_path = container_path;
          output_path = temporary;
          check_output = false;
          force = true;
          bin_path = bin_path;
        }))
