-- ===== src/Common/Int.antt =====
-- Signed integers over the native numbers, Go's truncated division and the int32 wrap-around.
use Prim.Native.Nat.{ℕ, suc, ◌+◌, ◌-◌, ◌*◌, ◌/◌, ◌%◌, ◌^◌, ◌≤◌, ◌<◌}
use mathlib.Core.Path.{◌≡◌}
use mathlib.Core.Bool.{true, Bool}
use native.Mathlib.Nat.{div-add-mod}
use native.Mathlib.Omega.{arith}
use miniscram.Common.Tests.{ltb, leb, ◌==◌, if◌then◌else◌}

-- `negsuc n` is -(n + 1).
pub data ℤ : Type 0 where
  pos : ℕ → ℤ
  negsuc : ℕ → ℤ

abbrev pub pos_part : ℤ → ℕ
pos_part (pos n) = n
pos_part (negsuc n) = 0

abbrev pub neg_part : ℤ → ℕ
neg_part (pos n) = 0
neg_part (negsuc n) = suc n

-- The integer a - b.
abbrev pub sub_ℕ : ℕ → ℕ → ℤ
sub_ℕ a b = if leb b a then pos (a - b) else negsuc (b - a - 1)

infixl 65 ◌+ℤ◌ ◌-ℤ◌
infixl 70 ◌*ℤ◌
infix 50 ◌≤ℤ◌ ◌<ℤ◌
unfoldable pub ◌+ℤ◌ : ℤ → ℤ → ℤ
a +ℤ b = sub_ℕ (pos_part a + pos_part b) (neg_part a + neg_part b)

unfoldable pub ◌-ℤ◌ : ℤ → ℤ → ℤ
a -ℤ b = sub_ℕ (pos_part a + neg_part b) (neg_part a + pos_part b)

-- A product with a constant that is not negative.
unfoldable pub ◌*ℤ◌ : ℤ → ℕ → ℤ
a *ℤ k = sub_ℕ (pos_part a * k) (neg_part a * k)

abbrev pub ◌≤ℤ◌ : ℤ → ℤ → Type 0
a ≤ℤ b = pos_part a + neg_part b ≤ pos_part b + neg_part a

abbrev pub ◌<ℤ◌ : ℤ → ℤ → Type 0
a <ℤ b = pos_part a + neg_part b < pos_part b + neg_part a

abbrev pub ltb_ℤ : ℤ → ℤ → Bool
ltb_ℤ a b = ltb (pos_part a + neg_part b) (pos_part b + neg_part a)

abbrev pub leb_ℤ : ℤ → ℤ → Bool
leb_ℤ a b = leb (pos_part a + neg_part b) (pos_part b + neg_part a)

abbrev pub eqb_ℤ : ℤ → ℤ → Bool
eqb_ℤ a b = (pos_part a + neg_part b) == (pos_part b + neg_part a)

-- Go's `/` and `%` by a positive constant: towards zero, the remainder with the dividend's sign.
unfoldable pub quot : ℤ → ℕ → ℤ
quot a k = sub_ℕ (pos_part a / k) (neg_part a / k)

unfoldable pub rem : ℤ → ℕ → ℤ
rem a k = sub_ℕ (pos_part a % k) (neg_part a % k)

-- The two's complement bits of an integer in a word of modulus `m`.
abbrev pub word : ℕ → ℤ → ℕ
word m (pos n) = n % m
word m (negsuc n) = m - 1 - n % m

abbrev pub signed_word : ℕ → ℕ → ℤ
signed_word m w = if ltb w (m / 2) then pos w else negsuc (m - w - 1)

-- The conversion to int32.
unfoldable pub to_i32 : ℤ → ℤ
to_i32 z = signed_word (2 ^ 32) (word (2 ^ 32) z)

-- The conversion to int64, and the addition.
unfoldable pub to_i64 : ℤ → ℤ
to_i64 z = signed_word (2 ^ 64) (word (2 ^ 64) z)

unfoldable pub add_i64 : ℤ → ℤ → ℤ
unfolding to_i64 ◌+ℤ◌
add_i64 a b = to_i64 (a +ℤ b)

-- int32 addition and subtraction.
unfoldable pub add_i32 : ℤ → ℤ → ℤ
add_i32 a b = to_i32 (a +ℤ b)

unfoldable pub sub_i32 : ℤ → ℤ → ℤ
sub_i32 a b = to_i32 (a -ℤ b)

-- The values that an int32 can hold.
abbrev pub FitsI32 : ℤ → Type 0
FitsI32 z = (negsuc (2 ^ 31 - 1) ≤ℤ z) × (z <ℤ pos (2 ^ 31))

pub to_i32_fits : (z : ℤ) → FitsI32 z → to_i32 z ≡ z
unfolding to_i32
to_i32_fits (pos n) h = ground arith
to_i32_fits (negsuc n) h = ground arith

-- The values that an int64 can hold.
abbrev pub FitsI64 : ℤ → Type 0
FitsI64 z = (pos_part z < 2 ^ 63) × (neg_part z ≤ 2 ^ 63)

pub to_i64_fits : (z : ℤ) → FitsI64 z → to_i64 z ≡ z
unfolding to_i64
to_i64_fits (pos n) h = ground (arith, h.0)
to_i64_fits (negsuc n) h = ground (arith, h.1)

pub eq_of_parts : (a b : ℤ) → pos_part a + neg_part b ≡ pos_part b + neg_part a → a ≡ b
eq_of_parts a b h = ground arith

pub eqb_ℤ-eq : (a b : ℤ) → eqb_ℤ a b ≡ true → a ≡ b
eqb_ℤ-eq a b e = eq_of_parts a b (ground arith)

-- The operations on values that are not negative, and one law for the parts of a sum.
pub pos-+ℤ-pos : (a b : ℕ) → pos a +ℤ pos b ≡ pos (a + b)
unfolding ◌+ℤ◌
pos-+ℤ-pos a b = ground arith

pub pos--ℤ-pos : (a b : ℕ) → b ≤ a → pos a -ℤ pos b ≡ pos (a - b)
unfolding ◌-ℤ◌
pos--ℤ-pos a b h = ground arith

pub pos-*ℤ : (a k : ℕ) → pos a *ℤ k ≡ pos (a * k)
unfolding ◌*ℤ◌
pos-*ℤ a k = ground arith

zero_div : (k : ℕ) → 0 / k ≡ 0
zero_div k = grind arith

zero_mod : (k : ℕ) → 0 % k ≡ 0
zero_mod k = omega (arith, div-add-mod 0 k)

sub_ℕ-zero : (x y : ℕ) → y ≡ 0 → sub_ℕ x y ≡ pos x
sub_ℕ-zero x y h = ground arith

pub quot-pos : (a k : ℕ) → quot (pos a) k ≡ pos (a / k)
unfolding quot
quot-pos a k = sub_ℕ-zero (a / k) (0 / k) (zero_div k)

pub rem-pos : (a k : ℕ) → rem (pos a) k ≡ pos (a % k)
unfolding rem
rem-pos a k = sub_ℕ-zero (a % k) (0 % k) (zero_mod k)

pub neg_part-le : (b : ℕ) (z : ℤ) → neg_part z ≤ pos_part z + b → neg_part z ≤ b
neg_part-le b (pos n) h = omega arith
neg_part-le b (negsuc n) h = omega arith

-- An integer from -b on is a natural number less `b`.
pub shifted :
    (b : ℕ) (z : ℤ)
    → neg_part z ≤ b
    → (v : ℕ) × (z ≡ pos v -ℤ pos b) × (pos_part z + b ≡ v + neg_part z)
unfolding ◌-ℤ◌
shifted b (pos n) h = (n + b, ground arith, omega arith)
shifted b (negsuc n) h = (b - suc n, ground arith, omega arith)

pub +ℤ_parts :
    (a b : ℤ)
    → pos_part (a +ℤ b) + neg_part a + neg_part b ≡ neg_part (a +ℤ b) + pos_part a + pos_part b
unfolding ◌+ℤ◌
+ℤ_parts a b = ground arith

pub -ℤ_parts :
    (a b : ℤ)
    → pos_part (a -ℤ b) + neg_part a + pos_part b ≡ neg_part (a -ℤ b) + pos_part a + neg_part b
unfolding ◌-ℤ◌
-ℤ_parts a b = ground arith

pub ruleset int_laws = (arith, +ℤ_parts, -ℤ_parts, eq_of_parts)
