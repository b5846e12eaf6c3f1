-- ===== src/Cli/Flags.antt =====
-- Go's `flag` package, as far as main.go and inspect.go use it: `FlagSet.Parse` with Boolean and
-- text flags. The assignments are a list, the first one first; -h and -help are defined by the
-- program.
use miniscram.Common.{
  ℕ, Bool, true, false, ◌||◌, Option, none, some, List, [], ◌∷◌, ◌==◌, bytes_equal, if◌then◌else◌,
  codes, Result, ok, err,
}

-- What a flag takes: `BoolVar` or `StringVar`.
pub data FlagKind : Type 0 where
  bool_flag text_flag : FlagKind

abbrev pub FlagSet : Type 0
FlagSet = List (List ℕ × FlagKind)

pub data Setting : Type 0 where
  set_bool : List ℕ → Bool → Setting
  set_text : List ℕ → List ℕ → Setting

pub data FlagError : Type 0 where
  out_of_rounds : FlagError
  bad_syntax : List ℕ → FlagError
  not_defined invalid_bool needs_argument : List ℕ → FlagError

unfoldable pub kind_of : List ℕ → FlagSet → Option FlagKind
kind_of name [] = none
kind_of name ((other, kind) ∷ fs) =
    let rest = kind_of name fs in if bytes_equal other name then some kind else rest

-- `strconv.ParseBool`.
unfoldable pub is_one_of : List ℕ → List (List ℕ) → Bool
is_one_of s [] = false
is_one_of s (w ∷ ws) = bytes_equal s w || is_one_of s ws

unfoldable pub parse_bool : List ℕ → Option Bool
unfolding is_one_of
parse_bool s =
    if is_one_of s
      (codes "1" ∷ codes "t" ∷ codes "T" ∷ codes "true" ∷ codes "TRUE" ∷ codes "True" ∷ [])
    then some true
    else if is_one_of s
        (codes "0" ∷ codes "f" ∷ codes "F" ∷ codes "false" ∷ codes "FALSE" ∷ codes "False" ∷ [])
    then some false
    else none

-- The name before the first equals sign, and the value behind it if there is one.
unfoldable pub split_value : List ℕ → List ℕ × Option (List ℕ)
split_value [] = ([], none)
split_value (c ∷ s) =
    let rest = split_value s in if c == 61 then ([], some s) else (c ∷ rest.0, rest.1)

-- What an argument is: the end of the flags, in front of it or behind it, or a flag.
pub data Token : Type 0 where
  no_flag terminator syntax_error : Token
  flag : List ℕ → Option (List ℕ) → Token

unfoldable pub named : List ℕ → Token
unfolding split_value
named [] = syntax_error
named (c ∷ s) =
    if c == 45 || c == 61
    then syntax_error
    else flag (split_value (c ∷ s)).0 (split_value (c ∷ s)).1

unfoldable pub after_dashes : ℕ → List ℕ → Token
unfolding named
after_dashes c s =
    if c == 45 then elim s [ [] ↦ terminator | d ∷ r ↦ named (d ∷ r) ] else named (c ∷ s)

unfoldable pub token : List ℕ → Token
unfolding after_dashes
token [] = no_flag
token (c ∷ []) = no_flag
token (c ∷ d ∷ s) = if c == 45 then after_dashes d s else no_flag

-- What `parseOne` does with an argument.
pub data Reading : Type 0 where
  stops stops_behind : Reading
  fails : FlagError → Reading
  sets : Setting → Reading
  awaits : List ℕ → Reading

unfoldable pub bool_reading : List ℕ → Option Bool → Reading
bool_reading name none = fails (invalid_bool name)
bool_reading name (some b) = sets (set_bool name b)

unfoldable pub flag_reading : List ℕ → Option (List ℕ) → Option FlagKind → Reading
unfolding bool_reading parse_bool
flag_reading name value none = fails (not_defined name)
flag_reading name none (some bool_flag) = sets (set_bool name true)
flag_reading name (some v) (some bool_flag) = bool_reading name (parse_bool v)
flag_reading name none (some text_flag) = awaits name
flag_reading name (some v) (some text_flag) = sets (set_text name v)

unfoldable pub token_reading : FlagSet → List ℕ → Token → Reading
unfolding flag_reading kind_of
token_reading fs s no_flag = stops
token_reading fs s terminator = stops_behind
token_reading fs s syntax_error = fails (bad_syntax s)
token_reading fs s (flag name value) = flag_reading name value (kind_of name fs)

unfoldable pub read_flag : FlagSet → List ℕ → Reading
unfolding token token_reading
read_flag fs s = token_reading fs s (token s)

-- The settings and the arguments that are left.
unfoldable pub setting_then :
    Setting
    → Result FlagError (List Setting × List (List ℕ))
    → Result FlagError (List Setting × List (List ℕ))
setting_then x (err e) = err e
setting_then x (ok (xs, rest)) = ok (x ∷ xs, rest)

-- After `parseOne`: the rest is parsed when the argument was a flag.
unfoldable pub parse_on :
    Reading
    → List ℕ
    → List (List ℕ)
    → Result FlagError (List Setting × List (List ℕ))
    → (List ℕ → Result FlagError (List Setting × List (List ℕ)))
    → Result FlagError (List Setting × List (List ℕ))
unfolding setting_then
parse_on stops s args rest with_value = ok ([], s ∷ args)
parse_on stops_behind s args rest with_value = ok ([], args)
parse_on (fails e) s args rest with_value = err e
parse_on (sets x) s args rest with_value = setting_then x rest
parse_on (awaits name) s args rest with_value = with_value name

-- `FlagSet.Parse`, with the name of the flag that takes the next argument as its value.
unfoldable pub parse_from :
    FlagSet → Option (List ℕ) → List (List ℕ) → Result FlagError (List Setting × List (List ℕ))
unfolding read_flag setting_then parse_on
parse_from fs (some name) [] = err (needs_argument name)
parse_from fs (some name) (v ∷ args) = setting_then (set_text name v) (parse_from fs none args)
parse_from fs none [] = ok ([], [])
parse_from fs none (s ∷ args) =
    parse_on (read_flag fs s) s args (parse_from fs none args)
      (λ (name : List ℕ). parse_from fs (some name) args)

unfoldable pub parse : FlagSet → List (List ℕ) → Result FlagError (List Setting × List (List ℕ))
unfolding parse_from
parse fs args = parse_from fs none args

-- The variables of the flags after the assignments, from their defaults.
unfoldable pub bool_from : List ℕ → Bool → List Setting → Bool
bool_from name b [] = b
bool_from name b (set_text other v ∷ xs) = bool_from name b xs
bool_from name b (set_bool other v ∷ xs) =
    bool_from name (if bytes_equal other name then v else b) xs

unfoldable pub bool_var : List ℕ → List Setting → Bool
unfolding bool_from
bool_var name xs = bool_from name false xs

unfoldable pub text_from : List ℕ → List ℕ → List Setting → List ℕ
text_from name t [] = t
text_from name t (set_bool other v ∷ xs) = text_from name t xs
text_from name t (set_text other v ∷ xs) =
    text_from name (if bytes_equal other name then v else t) xs

unfoldable pub text_var : List ℕ → List Setting → List ℕ
unfolding text_from
text_var name xs = text_from name [] xs
