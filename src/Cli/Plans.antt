-- ===== src/Cli/Plans.antt =====
-- main.go: how `runPack`, `runUnpack` and `runVerify` read their arguments.
use miniscram.Common.{
  ℕ, Bool, true, not, ◌||◌, Option, List, [], ◌∷◌, ◌++◌, if◌then◌else◌, codes, Result, ok, guard,
  ◌>>=◌,
}
use miniscram.Text.{stem, is_empty, is_some}
use miniscram.Unpack.Run.{UnpackOptions}
use miniscram.Cli.Flags.{FlagSet, bool_flag, text_flag, Setting, bool_var, text_var}
use miniscram.Cli.Args.{exit_usage, parse_subcommand, require_one_positional}

abbrev pub Files : Type 0
Files = List ℕ → Option (List ℕ)

unfoldable pub pick_first : List ℕ → List ℕ → List ℕ
unfolding is_empty
pick_first a b = if is_empty a then b else a

unfoldable pub default_pack_output : List ℕ → List ℕ
unfolding stem
default_pack_output cue_path = stem cue_path ++ codes ".miniscram"

unfoldable pub default_unpack_output : List ℕ → List ℕ
unfolding stem
default_unpack_output container_path = stem container_path ++ codes ".scram"

unfoldable pub or_default : List ℕ → List ℕ → List ℕ
unfolding is_empty
or_default path default = if is_empty path then default else path

unfoldable pub pack_flags : FlagSet
pack_flags =
    (codes "o", text_flag)
    ∷ (codes "output", text_flag)
    ∷ (codes "keep-source", bool_flag)
    ∷ (codes "remove-unused-scram", bool_flag)
    ∷ (codes "f", bool_flag)
    ∷ (codes "force", bool_flag)
    ∷ []

unfoldable pub unpack_flags : FlagSet
unpack_flags =
    (codes "o", text_flag)
    ∷ (codes "output", text_flag)
    ∷ (codes "f", bool_flag)
    ∷ (codes "force", bool_flag)
    ∷ (codes "bin", text_flag)
    ∷ []

unfoldable pub verify_flags : FlagSet
verify_flags = (codes "bin", text_flag) ∷ []

-- The variables of `runPack` in front of the call of `Pack`.
pub record PackPlan : Type 0 where
  pub cue_path : List ℕ
  pub scram_path : List ℕ
  pub out : List ℕ
  pub keep_source : Bool
  pub remove_unused : Bool

unfoldable pub is_forced : List Setting → Bool
unfolding bool_var
is_forced xs = bool_var (codes "f") xs || bool_var (codes "force") xs

unfoldable pub chosen_output : List ℕ → List Setting → List ℕ
unfolding or_default pick_first text_var
chosen_output default xs =
    or_default (pick_first (text_var (codes "o") xs) (text_var (codes "output") xs)) default

-- `runPack` up to the call of `Pack`; an error is the exit code.
unfoldable pub pack_plan : Files → List (List ℕ) → Result ℕ PackPlan
unfolding parse_subcommand require_one_positional pack_flags is_forced chosen_output
    default_pack_output stem is_some bool_var
pack_plan files args = do
  parsed ← parse_subcommand pack_flags args
  cue_path ← require_one_positional parsed.positional
  _ ←
      guard
        (is_forced parsed.settings
          || not (is_some (files (chosen_output (default_pack_output cue_path) parsed.settings))))
        exit_usage
  ok (record {
    cue_path = cue_path;
    scram_path = stem cue_path ++ codes ".scram";
    out = chosen_output (default_pack_output cue_path) parsed.settings;
    keep_source = bool_var (codes "keep-source") parsed.settings;
    remove_unused = bool_var (codes "remove-unused-scram") parsed.settings;
  })

-- `runUnpack` up to the call of `Unpack`.
unfoldable pub unpack_options : List (List ℕ) → Result ℕ UnpackOptions
unfolding parse_subcommand require_one_positional unpack_flags is_forced chosen_output
    default_unpack_output text_var
unpack_options args = do
  parsed ← parse_subcommand unpack_flags args
  container_path ← require_one_positional parsed.positional
  ok (record {
    container_path = container_path;
    output_path = chosen_output (default_unpack_output container_path) parsed.settings;
    check_output = true;
    force = is_forced parsed.settings;
    bin_path = text_var (codes "bin") parsed.settings;
  })

-- The container and the bin file of `runVerify`.
unfoldable pub verify_options : List (List ℕ) → Result ℕ (List ℕ × List ℕ)
unfolding parse_subcommand require_one_positional verify_flags text_var
verify_options args = do
  parsed ← parse_subcommand verify_flags args
  container_path ← require_one_positional parsed.positional
  ok (container_path, text_var (codes "bin") parsed.settings)
