-- ===== src/Ecma/Lengths.antt =====
-- The sector codings keep the length of a sector.
use miniscram.Common.{
  ℕ, zero, suc, ◌+◌, ◌-◌, ◌≤◌, ◌≡◌, refl, ap, ◌∙◌, arith, List, [], ◌∷◌, ◌++◌, length, take, drop,
  length-append, length-take, length-drop, length-set,
}
use miniscram.Ecma.Scramble.{keystream, scramble_table, xor_bytes, scramble, lfsr_byte}
use miniscram.Ecma.Ecc.{
  parity, p_column, q_diagonal, rounds, rspc_parity, deinterleave, interleave, compute_ecc,
}

length-keystream : (n r : ℕ) → length (keystream n r) ≡ n
unfolding keystream
length-keystream zero r = refl
length-keystream (suc n) r = ap suc (length-keystream n (lfsr_byte 8 r))

pub length-scramble_table : length scramble_table ≡ 2352
unfolding scramble_table
length-scramble_table = ap (λ (t : ℕ). 12 + t) (length-keystream 2340 1)

pub length-xor_bytes :
    (bs ks : List ℕ) → length bs ≤ length ks → length (xor_bytes bs ks) ≡ length bs
unfolding xor_bytes
length-xor_bytes [] ks h = refl
length-xor_bytes (b ∷ bs) [] h = absurd (omega arith)
length-xor_bytes (b ∷ bs) (k ∷ ks) h = ap suc (length-xor_bytes bs ks (omega arith))

pub length-scramble : (sec : List ℕ) → length sec ≤ 2352 → length (scramble sec) ≡ length sec
unfolding scramble
length-scramble sec h = omega (
  arith,
  length-append (take 12 sec) (xor_bytes (drop 12 sec) (drop 12 scramble_table)),
  length-take 12 sec,
  length-drop 12 sec,
  length-xor_bytes (drop 12 sec) (drop 12 scramble_table)
      (omega (arith, length-drop 12 sec, length-drop 12 scramble_table, length-scramble_table)),
)

length-parity :
    (s : ℕ × ℕ) (a b : ℕ) (stream : List ℕ) → length (parity s a b stream) ≡ length stream
unfolding parity
length-parity (s0, s1) a b stream = length-set _ b _ ∙ length-set stream a _

length-rounds :
    (body : ℕ → List ℕ → List ℕ)
    → ((i : ℕ) (s : List ℕ) → length (body i s) ≡ length s)
    → (left i : ℕ) (s : List ℕ) → length (rounds body left i s) ≡ length s
unfolding rounds
length-rounds body keep zero i s = refl
length-rounds body keep (suc left) i s = length-rounds body keep left (i + 1) (body i s) ∙ keep i s

pub length-rspc_parity : (s : List ℕ) → length (rspc_parity s) ≡ length s
length-rspc_parity s =
    unfold rspc_parity in
    (length-rounds q_diagonal (λ i t. unfold q_diagonal in length-parity _ _ _ t) 26 0
        (rounds p_column 43 0 s)
      ∙ length-rounds p_column (λ i t. unfold p_column in length-parity _ _ _ t) 43 0 s)

length-deinterleave :
    (xs : List ℕ) (n : ℕ)
    → length xs ≡ n + n
    → (length (deinterleave xs).0 ≡ n) × (length (deinterleave xs).1 ≡ n)
unfolding deinterleave
length-deinterleave [] n h = (omega arith, omega arith)
length-deinterleave (x ∷ []) zero h = (omega arith, omega arith)
length-deinterleave (x ∷ []) (suc n) h = absurd (omega arith)
length-deinterleave (x ∷ y ∷ xs) zero h = absurd (omega arith)
length-deinterleave (x ∷ y ∷ xs) (suc n) h =
    let (p, q) = length-deinterleave xs n (omega arith) in (ap suc p, ap suc q)

length-interleave : (ls ms : List ℕ) → length (interleave ls ms) ≡ length ls + length ms
unfolding interleave
length-interleave [] ms = omega arith
length-interleave (l ∷ ls) [] = omega arith
length-interleave (l ∷ ls) (m ∷ ms) = omega (arith, length-interleave ls ms)

ecc_shape :
    (a k n : ℕ) (sec ls ms : List ℕ)
    → a ≤ length sec
    → length ls ≡ n
    → length ms ≡ n
    → length (take a sec ++ interleave (drop k ls) (drop k ms)) ≡ a + ((n - k) + (n - k))
ecc_shape a k n sec ls ms h p q = omega (
  arith,
  length-append (take a sec) (interleave (drop k ls) (drop k ms)),
  length-interleave (drop k ls) (drop k ms),
  length-take a sec,
  length-drop k ls,
  length-drop k ms,
)

pub length-compute_ecc : (sec : List ℕ) → length sec ≡ 2352 → length (compute_ecc sec) ≡ 2352
length-compute_ecc sec h =
    let (p, q) = length-deinterleave (drop 12 sec) 1170 (omega (arith, length-drop 12 sec)) in
    unfold compute_ecc in
    (ecc_shape 2076 1032 1170 sec _ _ (omega arith) (length-rspc_parity _ ∙ p)
      (length-rspc_parity _ ∙ q))
