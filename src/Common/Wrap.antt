-- ===== src/Common/Wrap.antt =====
-- Wrap-around of sums of int64.
use miniscram.Common.Int.{
  ℤ, pos, negsuc, pos_part, neg_part, ◌+ℤ◌, to_i64, to_i64_fits, pos-+ℤ-pos, add_i64, word,
  signed_word, +ℤ_parts,
}
use Prim.Native.Nat.{ℕ, suc, ◌+◌, ◌-◌, ◌%◌, ◌^◌, ◌<◌}
use mathlib.Core.Path.{◌≡◌, sym, ap, ◌∙◌}
use native.Mathlib.Omega.{arith}

word_lt : (z : ℤ) → word (2 ^ 64) z < 2 ^ 64
word_lt (pos n) = omega arith
word_lt (negsuc n) = omega arith

word-signed_word : (w : ℕ) → w < 2 ^ 64 → word (2 ^ 64) (signed_word (2 ^ 64) w) ≡ w
word-signed_word w h = ground arith

-- The bits of an integer that is the difference of two numbers.
word_parts :
    (z : ℤ) (a b : ℕ)
    → pos_part z + b ≡ neg_part z + a
    → word (2 ^ 64) z ≡ (a % 2 ^ 64 + (2 ^ 64 - b % 2 ^ 64)) % 2 ^ 64
word_parts (pos n) a b h = omega arith
word_parts (negsuc n) a b h = omega arith

word-+ℤ : (a b : ℤ) → word (2 ^ 64) (a +ℤ b) ≡ (word (2 ^ 64) a + word (2 ^ 64) b) % 2 ^ 64
word-+ℤ (pos m) (pos n) =
    word_parts _ (m + n) 0 (omega (arith, +ℤ_parts (pos m) (pos n))) ∙ omega arith
word-+ℤ (pos m) (negsuc n) =
    word_parts _ m (suc n) (omega (arith, +ℤ_parts (pos m) (negsuc n))) ∙ omega arith
word-+ℤ (negsuc m) (pos n) =
    word_parts _ n (suc m) (omega (arith, +ℤ_parts (negsuc m) (pos n))) ∙ omega arith
word-+ℤ (negsuc m) (negsuc n) =
    word_parts _ 0 (suc m + suc n) (omega (arith, +ℤ_parts (negsuc m) (negsuc n))) ∙ omega arith

pub add_i64-pos : (a b : ℕ) → a + b < 2 ^ 63 → add_i64 (pos a) (pos b) ≡ pos (a + b)
unfolding add_i64
add_i64-pos a b h = ap to_i64 (pos-+ℤ-pos a b) ∙ to_i64_fits (pos (a + b)) (h, omega arith)

-- A sum wraps once at the end.
pub add_i64-to_i64 : (a b : ℤ) → add_i64 (to_i64 a) b ≡ to_i64 (a +ℤ b)
unfolding add_i64 to_i64
add_i64-to_i64 a b = ap (signed_word (2 ^ 64)) (
    word-+ℤ (to_i64 a) b
    ∙ ap (λ (w : ℕ). (w + word (2 ^ 64) b) % 2 ^ 64)
        (word-signed_word (word (2 ^ 64) a) (word_lt a))
    ∙ sym (word-+ℤ a b))
