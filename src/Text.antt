-- ===== src/Text.antt =====
-- Go's `strings`, `bytes`, `strconv` and `path/filepath`, as far as the program uses them, on ASCII
-- text: a string is the list of its bytes.
use miniscram.Common.{
  ℕ, suc, ◌+◌, ◌-◌, ◌*◌, ◌^◌, Bool, true, false, not, ◌&&◌, ◌||◌, Option, none, some, List, [], ◌∷◌,
  ◌++◌, map, ltb, leb, ◌==◌, if◌then◌else◌, length, take, drop, bytes_equal, ℤ, pos, sub_ℕ,
}

-- `strings.HasPrefix` and `strings.TrimPrefix`.
unfoldable pub has_prefix : List ℕ → List ℕ → Bool
has_prefix s [] = true
has_prefix [] (p ∷ ps) = false
has_prefix (c ∷ s) (p ∷ ps) = c == p && has_prefix s ps

unfoldable pub trim_prefix : List ℕ → List ℕ → List ℕ
trim_prefix s p = if has_prefix s p then drop (length p) s else s

-- `strings.TrimSuffix`.
unfoldable pub trim_suffix : List ℕ → List ℕ → List ℕ
trim_suffix s p =
    if leb (length p) (length s) && bytes_equal (drop (length s - length p) s) p
    then take (length s - length p) s
    else s

-- `bytes.Index`: the first place where the pattern stands.
unfoldable pub index : List ℕ → List ℕ → Option ℕ
index [] p = if has_prefix [] p then some 0 else none
index (c ∷ s) p =
    let rest = index s p in
    if has_prefix (c ∷ s) p then some 0 else elim rest [ none ↦ none | some n ↦ some (suc n) ]

unfoldable pub is_some : {A : Type 0} → Option A → Bool
is_some none = false
is_some (some a) = true

-- `bytes.Contains`.
unfoldable pub contains : List ℕ → List ℕ → Bool
unfolding is_some
contains s p = is_some (index s p)

-- `strings.ContainsAny`.
unfoldable pub has_byte : ℕ → List ℕ → Bool
has_byte b [] = false
has_byte b (c ∷ s) = c == b || has_byte b s

-- Tab, newline, vertical tab, form feed, return and blank.
unfoldable pub is_space : ℕ → Bool
is_space c = (leb 9 c && leb c 13) || c == 32

unfoldable pub trim_left : List ℕ → List ℕ
unfolding is_space
trim_left [] = []
trim_left (c ∷ s) = let rest = trim_left s in if is_space c then rest else c ∷ s

unfoldable pub is_empty : List ℕ → Bool
is_empty [] = true
is_empty (c ∷ s) = false

unfoldable pub trim_right : List ℕ → List ℕ
unfolding is_space is_empty
trim_right [] = []
trim_right (c ∷ s) = let rest = trim_right s in if is_space c && is_empty rest then [] else c ∷ rest

-- `strings.TrimSpace`.
unfoldable pub trim_space : List ℕ → List ℕ
unfolding trim_left trim_right
trim_space s = trim_right (trim_left s)

-- The word read so far, if there is one, before the later words.
word_then : List ℕ → List (List ℕ) → List (List ℕ)
word_then [] ws = ws
word_then (c ∷ w) ws = (c ∷ w) ∷ ws

unfoldable pub fields_from : List ℕ → List ℕ → List (List ℕ)
unfolding is_space word_then
fields_from w [] = word_then w []
fields_from w (c ∷ s) =
    let ended = word_then w (fields_from [] s) in
    let longer = fields_from (w ++ (c ∷ [])) s in if is_space c then ended else longer

-- `strings.Fields`.
unfoldable pub fields : List ℕ → List (List ℕ)
unfolding fields_from
fields s = fields_from [] s

-- `strings.Split` at one byte.
unfoldable pub split_from : ℕ → List ℕ → List ℕ → List (List ℕ)
split_from b w [] = w ∷ []
split_from b w (c ∷ s) =
    let ended = w ∷ split_from b [] s in
    let longer = split_from b (w ++ (c ∷ [])) s in if c == b then ended else longer

unfoldable pub split : ℕ → List ℕ → List (List ℕ)
unfolding split_from
split b s = split_from b [] s

-- `strings.ToUpper` and `strings.EqualFold`.
unfoldable pub upper : ℕ → ℕ
upper c = if leb 97 c && leb c 122 then c - 32 else c

unfoldable pub to_upper : List ℕ → List ℕ
unfolding upper
to_upper s = map upper s

unfoldable pub equal_fold : List ℕ → List ℕ → Bool
unfolding to_upper
equal_fold s t = bytes_equal (to_upper s) (to_upper t)

-- The value of decimal digits, if there are only digits.
unfoldable pub digits_from : ℕ → List ℕ → Option ℕ
digits_from n [] = some n
digits_from n (c ∷ s) =
    let rest = digits_from (n * 10 + (c - 48)) s in if leb 48 c && leb c 57 then rest else none

some_digits : List ℕ → Option ℕ
unfolding digits_from
some_digits [] = none
some_digits (c ∷ s) = digits_from 0 (c ∷ s)

unfoldable pub signed_atoi : Bool → Option ℕ → Option ℤ
signed_atoi minus none = none
signed_atoi true (some n) = if leb n (2 ^ 63) then some (sub_ℕ 0 n) else none
signed_atoi false (some n) = if ltb n (2 ^ 63) then some (pos n) else none

-- `strconv.Atoi`: an optional sign, digits, and a value that fits 64 bits.
unfoldable pub atoi : List ℕ → Option ℤ
unfolding some_digits signed_atoi
atoi [] = none
atoi (c ∷ s) =
    if c == 45
    then signed_atoi true (some_digits s)
    else if c == 43
    then signed_atoi false (some_digits s)
    else signed_atoi false (some_digits (c ∷ s))

-- `filepath.Ext`: from the last dot of the last element on.
unfoldable pub ext : List ℕ → List ℕ
unfolding has_byte
ext [] = []
ext (c ∷ p) = elim (ext p) [
  | [] ↦ if c == 46 && not (has_byte 47 p) then c ∷ p else []
  | d ∷ e ↦ d ∷ e
]

-- A path without its extension: `strings.TrimSuffix(p, filepath.Ext(p))`.
unfoldable pub stem : List ℕ → List ℕ
unfolding ext trim_suffix
stem p = trim_suffix p (ext p)

-- `filepath.Base` of a clean path that does not end in a slash.
unfoldable pub base : List ℕ → List ℕ
unfolding has_byte
base [] = []
base (c ∷ p) = let rest = base p in if has_byte 47 (c ∷ p) then rest else c ∷ p
