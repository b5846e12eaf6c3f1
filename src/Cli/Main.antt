-- ===== src/Cli/Main.antt =====
-- main.go: `run`.
use miniscram.Common.{ℕ, Bool, ◌||◌, Option, List, [], ◌∷◌, bytes_equal, if◌then◌else◌, codes, ℤ}
use miniscram.Disc.{FileHashes, Manifest}
use miniscram.Pack.Run.{Build}
use miniscram.Cli.Args.{exit_ok, exit_usage}
use miniscram.Cli.Exits.{Ending, exits}
use miniscram.Cli.Plans.{Files}
use miniscram.Cli.Commands.{Ran, packed, ended, run_pack, run_unpack, run_verify}
use miniscram.Cli.Inspect.{RecordOut, run_inspect}

-- The texts of help.go.
pub data Topic : Type 0 where
  top_help pack_help unpack_help verify_help inspect_help : Topic

pub data Answer : Type 0 where
  helped : Topic → Ending → Answer
  version_printed : Ending → Answer
  ran : Ran → Answer
  listing : Ending × List ℕ → Answer

-- The text behind `help`.
unfoldable pub help_topic : List (List ℕ) → Topic
help_topic [] = top_help
help_topic (name ∷ more) =
    if bytes_equal name (codes "pack")
    then pack_help
    else if bytes_equal name (codes "unpack")
    then unpack_help
    else if bytes_equal name (codes "verify")
    then verify_help
    else if bytes_equal name (codes "inspect")
    then inspect_help
    else top_help

-- The commands by their names.
pub data Command : Type 0 where
  do_pack do_unpack do_verify do_inspect do_help do_version unknown : Command

unfoldable pub command : List ℕ → Command
command name =
    if bytes_equal name (codes "pack")
    then do_pack
    else if bytes_equal name (codes "unpack")
    then do_unpack
    else if bytes_equal name (codes "verify")
    then do_verify
    else if bytes_equal name (codes "inspect")
    then do_inspect
    else if bytes_equal name (codes "help")
        || bytes_equal name (codes "--help")
        || bytes_equal name (codes "-h")
    then do_help
    else if bytes_equal name (codes "--version")
    then do_version
    else unknown

module _ (deflate : List ℕ → List ℕ) (inflate : List ℕ → Option (List ℕ))
    (hashes : List ℕ → FileHashes) (files : Files) (join : List ℕ → List ℕ → List ℕ)
    (dir_of base_of : List ℕ → List ℕ) (glob : List ℕ → List (List ℕ))
    (scan_lines : List ℕ → List (List ℕ) × Bool) (build : Build) (can_remove : List ℕ → Bool)
    (utc : ℤ → List ℕ) (sort_records : List (ℕ × ℕ) → List (ℕ × ℕ))
    (marshal : Manifest → List RecordOut → List ℕ) where
  unfoldable pub run_command : Command → List (List ℕ) → Answer
  unfolding run_pack run_unpack run_verify run_inspect help_topic
  run_command do_pack args = ran (
      packed (
        run_pack deflate inflate hashes files join dir_of base_of glob scan_lines build can_remove
          args))
  run_command do_unpack args = ran (
      run_unpack deflate inflate hashes files join dir_of base_of glob scan_lines build can_remove
        args)
  run_command do_verify args = ran (
      ended (
        run_verify deflate inflate hashes files join dir_of base_of glob scan_lines build can_remove
          args))
  run_command do_inspect args = listing (run_inspect utc sort_records marshal inflate files args)
  run_command do_help args = helped (help_topic args) (exits exit_ok)
  run_command do_version args = version_printed (exits exit_ok)
  run_command unknown args = helped top_help (exits exit_usage)

  -- `run`.
  unfoldable pub run : List (List ℕ) → Answer
  unfolding command run_command
  run [] = helped top_help (exits exit_usage)
  run (name ∷ args) = run_command (command name) args
