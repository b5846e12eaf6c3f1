-- ===== src/Cli/Order.antt =====
-- main.go: `parseSubcommand` on the arguments of a command that is written out, with its flags
-- before, between and behind the positional arguments.
use miniscram.Common.{
  ℕ, ◌<◌, ◌≡◌, ◌⊎◌, inl, inr, refl, ◌∙◌, ap, Bool, true, false, ◌||◌, ◌==◌, Option, none, some,
  List, [], ◌∷◌, ◌++◌, length, All, codes, ok, arith, Bool-cases,
}
use miniscram.Text.{has_byte, has_prefix}
use miniscram.Cli.Flags.{
  FlagSet, FlagKind, bool_flag, text_flag, Setting, set_bool, set_text, kind_of, no_flag, flag,
  split_value, named, after_dashes, stops, sets, awaits, token, read_flag, token_reading,
  flag_reading, setting_then,
}
use miniscram.Cli.Args.{peeled, arguments}
use miniscram.Cli.Scan.{reading, scan, scan_on, arguments-scan}

-- A flag with one dash or two, as `-name`, `-name=value` or `-name value`, or a positional
-- argument.
pub data Item : Type 0 where
  switch : Bool → List ℕ → Item
  joined : Bool → List ℕ → List ℕ → Item
  spaced : Bool → List ℕ → List ℕ → Item
  plain : List ℕ → Item

unfoldable dashed : Bool → List ℕ → List ℕ
dashed false name = 45 ∷ name
dashed true name = 45 ∷ 45 ∷ name

-- The arguments of a command.
unfoldable pub command_line : List Item → List (List ℕ)
unfolding dashed
command_line [] = []
command_line (switch two name ∷ items) = dashed two name ∷ command_line items
command_line (joined two name value ∷ items) = dashed two (name ++ 61 ∷ value) ∷ command_line items
command_line (spaced two name value ∷ items) = dashed two name ∷ value ∷ command_line items
command_line (plain p ∷ items) = p ∷ command_line items

unfoldable pub settings_of : List Item → List Setting
settings_of [] = []
settings_of (switch two name ∷ items) = set_bool name true ∷ settings_of items
settings_of (joined two name value ∷ items) = set_text name value ∷ settings_of items
settings_of (spaced two name value ∷ items) = set_text name value ∷ settings_of items
settings_of (plain p ∷ items) = settings_of items

unfoldable pub positionals_of : List Item → List (List ℕ)
positionals_of [] = []
positionals_of (switch two name ∷ items) = positionals_of items
positionals_of (joined two name value ∷ items) = positionals_of items
positionals_of (spaced two name value ∷ items) = positionals_of items
positionals_of (plain p ∷ items) = p ∷ positionals_of items

-- A name that does not start with a dash and has no equals sign.
abbrev pub IsName : List ℕ → Type 0
IsName [] = 0 < 0
IsName (c ∷ s) = (c == 45 ≡ false) × (has_byte 61 (c ∷ s) ≡ false)

-- A flag that is defined, or an argument that is not taken for one.
abbrev pub IsItem : FlagSet → Item → Type 0
IsItem fs (switch two name) = IsName name × (kind_of name fs ≡ some bool_flag)
IsItem fs (joined two name value) = IsName name × (kind_of name fs ≡ some text_flag)
IsItem fs (spaced two name value) = IsName name × (kind_of name fs ≡ some text_flag)
IsItem fs (plain p) = (length p < 2) ⊎ (has_prefix p (codes "-") ≡ false)

neither : (a b : Bool) → (a || b) ≡ false → (a ≡ false) × (b ≡ false)
neither false b h = (refl, h)
neither true b h = cc

IsName-head : (c : ℕ) (s : List ℕ) → IsName (c ∷ s) → c == 61 ≡ false
unfolding has_byte
IsName-head c s h = (neither (c == 61) (has_byte 61 s) h.1).0

split_value-whole : (s : List ℕ) → has_byte 61 s ≡ false → split_value s ≡ (s, none)
unfolding split_value has_byte
split_value-whole [] h = refl
split_value-whole (c ∷ s) h =
    let parts : (c == 61 ≡ false) × (has_byte 61 s ≡ false) = neither (c == 61) (has_byte 61 s) h in
    let rest : split_value s ≡ (s, none) = split_value-whole s parts.1 in rw (parts.0, rest) refl

split_value-joined :
    (s v : List ℕ) → has_byte 61 s ≡ false → split_value (s ++ 61 ∷ v) ≡ (s, some v)
unfolding split_value has_byte
split_value-joined [] v h = refl
split_value-joined (c ∷ s) v h =
    let parts : (c == 61 ≡ false) × (has_byte 61 s ≡ false) = neither (c == 61) (has_byte 61 s) h in
    let rest : split_value (s ++ 61 ∷ v) ≡ (s, some v) = split_value-joined s v parts.1 in
    rw (parts.0, rest) refl

token-dashed :
    (two : Bool) (c : ℕ) (s : List ℕ) → c == 45 ≡ false → token (dashed two (c ∷ s)) ≡ named (c ∷ s)
unfolding token dashed after_dashes
token-dashed false c s h = rw h refl
token-dashed true c s h = refl

named-flag :
    (c : ℕ) (s name : List ℕ) (value : Option (List ℕ))
    → c == 45 ≡ false
    → c == 61 ≡ false
    → ◌≡◌ {A = List ℕ × Option (List ℕ)} (split_value (c ∷ s)) (name, value)
    → named (c ∷ s) ≡ flag name value
unfolding named
named-flag c s name value h k e =
    let step : named (c ∷ s) ≡ flag (split_value (c ∷ s)).0 (split_value (c ∷ s)).1 =
      rw (h, k) refl in
    step ∙ ap (λ (r : List ℕ × Option (List ℕ)). flag r.0 r.1) e

-- How a flag is taken apart again.
token-whole : (two : Bool) (name : List ℕ) → IsName name → token (dashed two name) ≡ flag name none
token-whole two [] h = absurd (omega (arith, h))
token-whole two (c ∷ s) h =
    token-dashed two c s h.0
    ∙ named-flag c s (c ∷ s) none h.0 (IsName-head c s h) (split_value-whole (c ∷ s) h.1)

token-joined :
    (two : Bool) (name value : List ℕ)
    → IsName name
    → token (dashed two (name ++ 61 ∷ value)) ≡ flag name (some value)
token-joined two [] value h = absurd (omega (arith, h))
token-joined two (c ∷ s) value h =
    token-dashed two c (s ++ 61 ∷ value) h.0
    ∙ named-flag c (s ++ 61 ∷ value) (c ∷ s) (some value) h.0 (IsName-head c s h)
        (split_value-joined (c ∷ s) value h.1)

token-plain : (p : List ℕ) → (length p < 2) ⊎ (has_prefix p (codes "-") ≡ false) → token p ≡ no_flag
unfolding token has_prefix
token-plain [] h = refl
token-plain (c ∷ []) h = refl
token-plain (c ∷ d ∷ s) (inl h) = absurd (omega (arith, h))
token-plain (c ∷ d ∷ s) (inr h) = elim (Bool-cases (c == 45)) [
  | inl e ↦ let k : has_prefix (c ∷ d ∷ s) (codes "-") ≡ true = rw e refl in absurd cc
  | inr e ↦ rw e refl
]

read_flag-flag :
    (fs : FlagSet) (s name : List ℕ) (value : Option (List ℕ)) (kind : FlagKind)
    → token s ≡ flag name value
    → kind_of name fs ≡ some kind
    → read_flag fs s ≡ flag_reading name value (some kind)
unfolding read_flag token_reading
read_flag-flag fs s name value kind h k = rw (h, k) refl

read_flag-plain : (fs : FlagSet) (s : List ℕ) → token s ≡ no_flag → read_flag fs s ≡ stops
unfolding read_flag token_reading
read_flag-plain fs s h = rw h refl

scan-item :
    (fs : FlagSet) (item : Item) (items : List Item)
    → IsItem fs item
    → scan fs reading (command_line items) ≡ ok (settings_of items, positionals_of items)
    → scan fs reading (command_line (item ∷ items))
      ≡ ok (settings_of (item ∷ items), positionals_of (item ∷ items))
unfolding command_line settings_of positionals_of scan flag_reading scan_on setting_then peeled
scan-item fs (switch two name) items h rest =
    let e : read_flag fs (dashed two name) ≡ sets (set_bool name true) =
      read_flag-flag fs (dashed two name) name none bool_flag (token-whole two name h.0) h.1 in
    rw (e, rest) refl
scan-item fs (joined two name value) items h rest =
    let e : read_flag fs (dashed two (name ++ 61 ∷ value)) ≡ sets (set_text name value) =
      read_flag-flag fs (dashed two (name ++ 61 ∷ value)) name (some value) text_flag
        (token-joined two name value h.0) h.1 in
    rw (e, rest) refl
scan-item fs (spaced two name value) items h rest =
    let e : read_flag fs (dashed two name) ≡ awaits name =
      read_flag-flag fs (dashed two name) name none text_flag (token-whole two name h.0) h.1 in
    rw (e, rest) refl
scan-item fs (plain p) items h rest = rw (read_flag-plain fs p (token-plain p h), rest) refl

scan-command_line :
    (fs : FlagSet) (items : List Item)
    → All (IsItem fs) items
    → scan fs reading (command_line items) ≡ ok (settings_of items, positionals_of items)
unfolding command_line settings_of positionals_of scan
scan-command_line fs [] h = refl
scan-command_line fs (item ∷ items) h = scan-item fs item items h.0 (scan-command_line fs items h.1)

-- A command that is written out is read back: its flags, which are defined and have a name without
-- an equals sign or a leading dash, in their order, and its positional arguments, which have no
-- leading dash or are shorter than two bytes, in theirs, however the two are mixed.
pub arguments-command_line :
    (fs : FlagSet) (items : List Item)
    → All (IsItem fs) items
    → arguments fs (command_line items) ≡ ok (settings_of items, positionals_of items)
arguments-command_line fs items h =
    arguments-scan fs (command_line items) ∙ scan-command_line fs items h
