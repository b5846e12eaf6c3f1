-- ===== src/Cli/Args.antt =====
-- main.go: the exit codes, `parseSubcommand` and `requireOnePositional`. What they print is not
-- modelled.
use miniscram.Common.{
  ℕ, zero, suc, Bool, not, ◌&&◌, ◌||◌, List, [], ◌∷◌, ◌++◌, length, bytes_equal, codes, Result, ok,
  err, guard, ◌>>=◌,
}
use miniscram.Text.{is_empty}
use miniscram.Cli.Flags.{
  FlagSet, bool_flag, text_flag, Setting, FlagError, out_of_rounds, parse, bool_var, text_var,
}

abbrev pub exit_ok : ℕ
exit_ok = 0

abbrev pub exit_usage : ℕ
exit_usage = 1

abbrev pub exit_layout : ℕ
exit_layout = 2

abbrev pub exit_verify_fail : ℕ
exit_verify_fail = 3

abbrev pub exit_io : ℕ
exit_io = 4

abbrev pub exit_wrong_bin : ℕ
exit_wrong_bin = 5

-- The settings and the positional arguments.
abbrev pub Read : Type 0
Read = Result FlagError (List Setting × List (List ℕ))

unfoldable pub peeled : List Setting → List ℕ → Read → Read
peeled xs p (err e) = err e
peeled xs p (ok (ys, ps)) = ok (xs ++ ys, p ∷ ps)

-- What the loop does behind one `fs.Parse`.
unfoldable pub peel_on : (List (List ℕ) → Read) → Read → Read
unfolding peeled
peel_on again (err e) = err e
peel_on again (ok (xs, [])) = ok (xs, [])
peel_on again (ok (xs, p ∷ rest)) = peeled xs p (again rest)

-- The loop. Each round but the last takes an argument.
unfoldable pub peel : ℕ → FlagSet → List (List ℕ) → Read
unfolding parse peel_on
peel zero fs args = err out_of_rounds
peel (suc rounds) fs args = peel_on (λ (rest : List (List ℕ)). peel rounds fs rest) (parse fs args)

unfoldable pub arguments : FlagSet → List (List ℕ) → Read
unfolding peel
arguments fs args = peel (suc (length args)) fs args

pub record CommonFlags : Type 0 where
  pub quiet : Bool
  pub progress : List ℕ

pub record Parsed : Type 0 where
  pub positional : List (List ℕ)
  pub common : CommonFlags
  pub settings : List Setting

-- The flags of every subcommand before its own.
unfoldable pub with_common : FlagSet → FlagSet
with_common fs =
    (codes "q", bool_flag)
    ∷ (codes "quiet", bool_flag)
    ∷ (codes "progress", text_flag)
    ∷ (codes "h", bool_flag)
    ∷ (codes "help", bool_flag)
    ∷ fs

unfoldable pub common_flags : List Setting → CommonFlags
unfolding bool_var text_var
common_flags xs = record {
  quiet = bool_var (codes "q") xs || bool_var (codes "quiet") xs;
  progress = text_var (codes "progress") xs;
}

-- The checks behind the loop; an error is the exit code.
unfoldable pub checked : List Setting → List (List ℕ) → Result ℕ Parsed
unfolding bool_var common_flags is_empty
checked xs ps = do
  _ ← guard (not (bool_var (codes "h") xs || bool_var (codes "help") xs)) exit_ok
  _ ←
      guard
        (is_empty (common_flags xs).progress
          || bytes_equal (common_flags xs).progress (codes "json"))
        exit_usage
  _ ←
      guard (not (bytes_equal (common_flags xs).progress (codes "json") && (common_flags xs).quiet))
        exit_usage
  ok (record { positional = ps; common = common_flags xs; settings = xs })

unfoldable pub checked_read : Read → Result ℕ Parsed
unfolding checked
checked_read (err e) = err exit_usage
checked_read (ok (xs, ps)) = checked xs ps

-- `parseSubcommand`, with the flags that the subcommand defines.
unfoldable pub parse_subcommand : FlagSet → List (List ℕ) → Result ℕ Parsed
unfolding arguments with_common checked_read
parse_subcommand own args = checked_read (arguments (with_common own) args)

-- `requireOnePositional`.
unfoldable pub require_one_positional : List (List ℕ) → Result ℕ (List ℕ)
require_one_positional (p ∷ []) = ok p
require_one_positional _ = err exit_usage
