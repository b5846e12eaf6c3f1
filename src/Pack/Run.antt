-- ===== src/Pack/Run.antt =====
-- pack.go: `Pack`. The files are as they are at the start; temporary files and the container are
-- written without errors.
use miniscram.Common.{
  ℕ, Bool, true, false, Option, none, some, List, [], ◌∷◌, length, if◌then◌else◌, ℤ, pos, eqb_ℤ,
  Result, ok, err, or_err, guard, ◌>>=◌, map,
}
use miniscram.Layout.{lba_leadin_start, total_lbas}
use miniscram.Disc.{FileHashes, Track, any_data_track, has_multiple_sessions}
use miniscram.Delta.{append_all, new_delta_encoder, close}
use miniscram.Builder.Regions.{derived_session_gaps}
use miniscram.Builder.Build.{BuildError, panicked, build_epsilon_hat, check_layout_mismatch}
use miniscram.Chunks.Hash.{HashPanic}
use miniscram.Container.File.{write_container}
use miniscram.Cue.Resolve.{ResolvedFile, ResolveError, resolve_cue}
use miniscram.Pack.Offset.{PackError, detect_write_offset, check_constant_offset}
use miniscram.Pack.Sessions.{apply_session_gaps}
use miniscram.Unpack.Source.{SourceError, hash_tracks, size_differs, track_differs}
use miniscram.Unpack.Files.{files_with}
use miniscram.Unpack.Run.{UnpackError, bad_source, open_bin_stream, verify}

pub record PackOptions : Type 0 where
  pub cue_path : List ℕ
  pub scram_path : List ℕ
  pub output_path : List ℕ
  pub leadin_lba : ℤ

pub data PackFailure : Type 0 where
  not_resolved : ResolveError → PackFailure
  audio_only_disc : PackFailure
  no_scram : PackFailure
  bad_scram : PackError → PackFailure
  not_hashed : SourceError → PackFailure
  no_bin_stream : PackFailure
  build_failed : BuildError → PackFailure
  layout_mismatch : List ℤ → PackFailure
  bad_digest : HashPanic → PackFailure
  verify_mismatch : UnpackError → PackFailure

-- What stands at the output path afterwards.
pub data Container : Type 0 where
  not_written : Container
  kept : List ℕ → Container
  deleted : Container

pub record PackOutcome : Type 0 where
  pub result : Result PackFailure (Unit {0})
  pub output : Container

unfoldable pub failing_with : {E A : Type 0} → (E → PackFailure) → Result E A → Result PackFailure A
failing_with wrap (err e) = err (wrap e)
failing_with wrap (ok a) = ok a

-- The digests, stored with the tracks.
unfoldable pub with_hashes : List Track → List FileHashes → List Track
with_hashes [] hs = []
with_hashes (t ∷ ts) [] = t ∷ ts
with_hashes (t ∷ ts) (h ∷ hs) = (record t { hashes = h }) ∷ with_hashes ts hs

unfoldable pub or_leadin_start : ℤ → ℤ
or_leadin_start leadin = if eqb_ℤ leadin (pos 0) then lba_leadin_start else leadin

-- The gaps of a disc with more than one session.
unfoldable pub with_gaps : List ℕ → ℤ → ℤ → List Track → Result PackError (List Track)
unfolding has_multiple_sessions apply_session_gaps
with_gaps scram leadin wo tracks =
    if has_multiple_sessions tracks then apply_session_gaps scram leadin wo tracks else ok tracks

unfoldable pub is_some_mismatch : Option (List ℤ) → Result PackFailure (Unit {0})
is_some_mismatch none = ok tt
is_some_mismatch (some lbas) = err (layout_mismatch lbas)

-- `buildHatAndDelta`: the bytes of the delta.
unfoldable pub build_hat_and_delta :
    ℤ → ℤ → List Track → List ℕ → List ℕ → Result PackFailure (List ℕ)
unfolding build_epsilon_hat check_layout_mismatch failing_with is_some_mismatch derived_session_gaps
build_hat_and_delta leadin wo tracks bin scram = do
  built ← failing_with build_failed (
      build_epsilon_hat
        (record {
          leadin_lba = leadin;
          write_offset = wo;
          scram_size = pos (length scram);
          tracks = tracks;
          session_gaps = derived_session_gaps tracks;
        })
        bin (some scram))
  total ← or_err (total_lbas (pos (length scram)) wo) (build_failed panicked)
  _ ← is_some_mismatch (check_layout_mismatch built.err_lbas built.mismatched total)
  ok (close (append_all new_delta_encoder built.records)).0

-- Errors that wrap `errBinHashMismatch`.
unfoldable pub is_bin_mismatch : UnpackError → Bool
is_bin_mismatch (bad_source (size_differs path got want)) = true
is_bin_mismatch (bad_source (track_differs number name)) = true
is_bin_mismatch _ = false

-- What the verification leaves of a container.
unfoldable pub verified : List ℕ → Result UnpackError (Unit {0}) → PackOutcome
unfolding is_bin_mismatch
verified container (ok u) = record { result = ok tt; output = kept container }
verified container (err e) = record {
  result = err (verify_mismatch e);
  output = if is_bin_mismatch e then kept container else deleted;
}

-- The variables that the program is built and started with, and the directory entry that a path
-- names: `a` and `./a` name the same.
pub record Build : Type 0 where
  pub tool_version : List ℕ
  pub now : ℤ
  pub temporary : List ℕ
  pub file_of : List ℕ → List ℕ

module _ (deflate : List ℕ → List ℕ) (inflate : List ℕ → Option (List ℕ))
    (hashes : List ℕ → FileHashes) (files : List ℕ → Option (List ℕ))
    (join : List ℕ → List ℕ → List ℕ) (dir_of base_of : List ℕ → List ℕ)
    (glob : List ℕ → List (List ℕ)) (scan_lines : List ℕ → List (List ℕ) × Bool)
    (build : Build) where
  size_of : List ℕ → Option ℕ
  size_of path = elim (files path) [ none ↦ none | some content ↦ some (length content) ]

  -- The steps up to the container's bytes.
  unfoldable pub pack_container : PackOptions → Result PackFailure (List ℕ)
  unfolding size_of resolve_cue any_data_track detect_write_offset check_constant_offset with_gaps
      hash_tracks with_hashes open_bin_stream build_hat_and_delta write_container failing_with
      or_leadin_start
  pack_container opts =
      let leadin = or_leadin_start opts.leadin_lba in
      let cue_dir = dir_of opts.cue_path in
      do
        resolved ←
            failing_with not_resolved
              (resolve_cue (join cue_dir) size_of scan_lines (files opts.cue_path))
        _ ← guard (any_data_track resolved.tracks) audio_only_disc
        scram ← or_err (files opts.scram_path) no_scram
        wo ← failing_with bad_scram (detect_write_offset scram leadin)
        _ ← failing_with bad_scram (check_constant_offset scram leadin)
        tracks ← failing_with bad_scram (with_gaps scram leadin wo resolved.tracks)
        per_track ←
            failing_with not_hashed
              (hash_tracks files join dir_of base_of glob hashes cue_dir tracks)
        bin ←
            or_err (open_bin_stream files (map (λ (f : ResolvedFile). f.path) resolved.files))
              no_bin_stream
        delta ← build_hat_and_delta leadin wo (with_hashes tracks per_track) bin scram
        failing_with bad_digest (
            write_container deflate
              (record {
                tool_version = build.tool_version;
                created_unix = build.now;
                write_offset_bytes = wo;
                leadin_lba = leadin;
                scram = record { size = pos (length scram); hashes = hashes scram };
                tracks = with_hashes tracks per_track;
              })
              delta)

  -- The verification of a container that is written.
  unfoldable pub pack_verified : PackOptions → Result PackFailure (List ℕ) → PackOutcome
  unfolding verified verify files_with
  pack_verified opts (err e) = record { result = err e; output = not_written }
  pack_verified opts (ok container) = verified container (
      verify inflate hashes (files_with build.file_of opts.output_path container files) join dir_of
        base_of glob opts.output_path [] build.temporary)

  -- `Pack`.
  unfoldable pub pack : PackOptions → PackOutcome
  unfolding pack_container pack_verified
  pack opts = pack_verified opts (pack_container opts)
