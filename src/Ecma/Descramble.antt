-- ===== src/Ecma/Descramble.antt =====
-- Scrambling a sector twice gives it back.
use miniscram.Common.{
  ℕ, zero, suc, ◌≤◌, ◌≡◌, refl, ap, ap₂, arith, List, [], ◌∷◌, ◌++◌, length, take, drop, xor_cancel,
}
use miniscram.Ecma.Scramble.{scramble_table, xor_bytes, scramble}
use miniscram.Ecma.Lengths.{length-scramble_table}

mix : ℕ → List ℕ → List ℕ → List ℕ
mix n ks s = take n s ++ xor_bytes (drop n s) (drop n ks)

xor_bytes-xor_bytes : (s ks : List ℕ) → length s ≤ length ks → xor_bytes (xor_bytes s ks) ks ≡ s
unfolding xor_bytes
xor_bytes-xor_bytes [] ks h = refl
xor_bytes-xor_bytes (b ∷ bs) [] h = absurd (omega arith)
xor_bytes-xor_bytes (b ∷ bs) (k ∷ ks) h =
    ap₂ ◌∷◌ (xor_cancel b k) (xor_bytes-xor_bytes bs ks (omega arith))

mix-mix : (n : ℕ) (ks s : List ℕ) → length s ≤ length ks → mix n ks (mix n ks s) ≡ s
unfolding mix xor_bytes
mix-mix zero ks s h = xor_bytes-xor_bytes s ks h
mix-mix (suc n) ks [] h = refl
mix-mix (suc n) [] (b ∷ bs) h = absurd (omega arith)
mix-mix (suc n) (k ∷ ks) (b ∷ bs) h = ap (◌∷◌ b) (mix-mix n ks bs (omega arith))

-- On at most 2352 bytes `Scramble` is its own inverse.
pub scramble-scramble : (s : List ℕ) → length s ≤ 2352 → scramble (scramble s) ≡ s
unfolding scramble mix
scramble-scramble s h = mix-mix 12 scramble_table s (omega (arith, length-scramble_table))
