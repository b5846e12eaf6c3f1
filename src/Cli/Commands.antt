-- ===== src/Cli/Commands.antt =====
-- main.go: `run`, `runPack`, `runUnpack` and `runVerify`. `files` gives the bytes of a file that is
-- there and `can_remove` says whether `os.Remove` of a file that is there succeeds. The texts that
-- are printed are not modelled.
use miniscram.Common.{ℕ, Bool, true, false, ◌&&◌, Option, List, if◌then◌else◌, Result, ok, err}
use miniscram.Layout.{lba_leadin_start}
use miniscram.Disc.{FileHashes}
use miniscram.Text.{is_some}
use miniscram.Unpack.Files.{files_with, files_without}
use miniscram.Unpack.Run.{UnpackOptions, files_left, unpack, verify}
use miniscram.Pack.Run.{
  PackOptions, PackFailure, audio_only_disc, Container, not_written, kept, deleted, PackOutcome,
  Build, pack,
}
use miniscram.Cli.Args.{exit_ok}
use miniscram.Cli.Plans.{Files, PackPlan, pack_plan, unpack_options, verify_options}
use miniscram.Cli.Exits.{Ending, exits, pack_exit, unpacked_exit}

-- `os.Remove`, whose error changes nothing.
unfoldable pub remove_file : (List ℕ → List ℕ) → (List ℕ → Bool) → List ℕ → Files → Files
unfolding is_some files_without
remove_file file_of can_remove path files =
    if is_some (files path) && can_remove path then files_without file_of path files else files

-- What `Pack` leaves.
unfoldable pub files_after : (List ℕ → List ℕ) → List ℕ → Container → Files → Files
unfolding files_with files_without
files_after file_of path not_written files = files
files_after file_of path (kept content) files = files_with file_of path content files
files_after file_of path deleted files = files_without file_of path files

pub record Finished : Type 0 where
  pub ending : Ending
  pub files : Files

unfoldable pub is_audio_only : PackFailure → Bool
is_audio_only audio_only_disc = true
is_audio_only _ = false

-- `runPack` behind the call of `Pack`.
unfoldable pub after_pack :
    (List ℕ → List ℕ)
    → (List ℕ → Bool)
    → PackPlan
    → Files
    → Result PackFailure (Unit {0})
    → Finished
unfolding is_audio_only remove_file pack_exit
after_pack file_of can_remove plan left (err e) = record {
  ending = pack_exit e;
  files =
      if is_audio_only e && plan.remove_unused
      then remove_file file_of can_remove plan.scram_path left
      else left;
}
after_pack file_of can_remove plan left (ok u) = record {
  ending = exits exit_ok;
  files = if plan.keep_source then left else remove_file file_of can_remove plan.scram_path left;
}

unfoldable pub pack_options : PackPlan → PackOptions
pack_options plan = record {
  cue_path = plan.cue_path;
  scram_path = plan.scram_path;
  output_path = plan.out;
  leadin_lba = lba_leadin_start;
}

-- What a command leaves: files, or nothing new.
pub data Ran : Type 0 where
  packed : Finished → Ran
  unpacked : Ending → Files → Ran
  ended : Ending → Ran

-- What `Pack` and `runPack` leave.
unfoldable pub run_plan :
    (List ℕ → List ℕ) → (List ℕ → Bool) → Files → PackPlan → PackOutcome → Finished
unfolding after_pack files_after
run_plan file_of can_remove files plan o =
    after_pack file_of can_remove plan (files_after file_of plan.out o.output files) o.result

module _ (deflate : List ℕ → List ℕ) (inflate : List ℕ → Option (List ℕ))
    (hashes : List ℕ → FileHashes) (files : Files) (join : List ℕ → List ℕ → List ℕ)
    (dir_of base_of : List ℕ → List ℕ) (glob : List ℕ → List (List ℕ))
    (scan_lines : List ℕ → List (List ℕ) × Bool) (build : Build) (can_remove : List ℕ → Bool) where
  -- `runPack` with its variables, or with the exit code of a usage error.
  unfoldable pub run_planned : Result ℕ PackPlan → Finished
  unfolding run_plan pack pack_options
  run_planned (err code) = record { ending = exits code; files = files }
  run_planned (ok plan) = run_plan build.file_of can_remove files plan (
      pack deflate inflate hashes files join dir_of base_of glob scan_lines build
        (pack_options plan))

  -- `runPack`.
  unfoldable pub run_pack : List (List ℕ) → Finished
  unfolding pack_plan run_planned
  run_pack args = run_planned (pack_plan files args)

  unfoldable pub run_unpacked : Result ℕ UnpackOptions → Ran
  unfolding unpack unpacked_exit files_left
  run_unpacked (err code) = ended (exits code)
  run_unpacked (ok opts) =
      let o = unpack inflate hashes files join dir_of base_of glob opts in
      unpacked (unpacked_exit o.result) (files_left build.file_of opts.output_path o.output files)

  -- `runUnpack`.
  unfoldable pub run_unpack : List (List ℕ) → Ran
  unfolding unpack_options run_unpacked
  run_unpack args = run_unpacked (unpack_options args)

  unfoldable pub run_verified : Result ℕ (List ℕ × List ℕ) → Ending
  unfolding verify unpacked_exit
  run_verified (err code) = exits code
  run_verified (ok (container_path, bin_path)) =
      unpacked_exit (
        verify inflate hashes files join dir_of base_of glob container_path bin_path
          build.temporary)

  -- `runVerify`.
  unfoldable pub run_verify : List (List ℕ) → Ending
  unfolding verify_options run_verified
  run_verify args = run_verified (verify_options args)
