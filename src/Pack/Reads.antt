-- ===== src/Pack/Reads.antt =====
-- pack.go: one read of a scram, and the places where a sync field can stand.
use miniscram.Common.{
  ℕ, suc, ◌+◌, ◌-◌, ◌≤◌, ◌<◌, ◌≡◌, refl, sym, ap, ◌∙◌, arith, Bool, true, false, Option, none, some,
  List, [], ◌∷◌, ◌++◌, length, take, drop, ltb, if◌then◌else◌, ◌⊎◌, Bool-cases, inl, inr,
  length-take, length-drop, take-append-drop, drop-drop,
}
use miniscram.Text.{has_prefix}
use miniscram.Pack.Scan.{read_chunk_at, chunk_size}

-- The second search stands in for a first that finds nothing.
infixr 20 ◌orelse◌
abbrev pub ◌orelse◌ : {R : Type 0} → Option R → Option R → Option R
a orelse b = elim a [ some r ↦ some r | none ↦ b ]

pub has_prefix-short : (s p : List ℕ) → length s < length p → has_prefix s p ≡ false
unfolding has_prefix
has_prefix-short s [] h = absurd (omega arith)
has_prefix-short [] (x ∷ p) h = refl
has_prefix-short (c ∷ s) (x ∷ p) h = ground (arith, has_prefix-short s p)

pub has_prefix-long :
    (s t p : List ℕ) → length p ≤ length s → has_prefix (s ++ t) p ≡ has_prefix s p
unfolding has_prefix
has_prefix-long s t [] h = refl
has_prefix-long [] t (x ∷ p) h = absurd (omega arith)
has_prefix-long (c ∷ s) t (x ∷ p) h = ground (arith, has_prefix-long s t p)

pub drop-append_at : (xs ys : List ℕ) (n : ℕ) → drop (length xs + n) (xs ++ ys) ≡ drop n ys
drop-append_at [] ys n = ap (λ (m : ℕ). drop m ys) {x = 0 + n} {y = n} (omega arith)
drop-append_at (x ∷ xs) ys n =
    ap (λ (m : ℕ). drop m (x ∷ (xs ++ ys))) {x = suc (length xs) + n} {y = suc (length xs + n)}
      (omega arith)
    ∙ drop-append_at xs ys n

-- The result at one offset, `rest` being that of the later ones.
abbrev pub or_later : {R : Type 0} → Bool → Option R → Option R → Option R
or_later b o rest = if b then elim o [ some r ↦ some r | none ↦ rest ] else rest

pub or_later-orelse :
    {R : Type 0} (b : Bool) (o whole first second : Option R)
    → whole ≡ (first orelse second)
    → or_later b o whole ≡ (or_later b o first orelse second)
or_later-orelse false o whole first second e = e
or_later-orelse true none whole first second e = e
or_later-orelse true (some r) whole first second e = refl

-- A read of `chunk` at `pos`: it ends with the file or has at least twelve bytes.
abbrev pub IsRead : List ℕ → ℕ → List ℕ → Type 0
IsRead file pos chunk =
    (drop pos file ≡ chunk ++ drop (pos + length chunk) file)
    × (0 < length chunk)
    × (length chunk ≤ length file - pos)
    × ((12 ≤ length chunk) ⊎ (pos + length chunk ≡ length file))

take-IsRead :
    (file : List ℕ) (pos n : ℕ)
    → 0 < n
    → n ≤ length file - pos
    → (12 ≤ n) ⊎ (n ≡ length file - pos)
    → IsRead file pos (take n (drop pos file))
take-IsRead file pos n h few enough =
    let size : length (take n (drop pos file)) ≡ n =
      omega (arith, length-take n (drop pos file), length-drop pos file) in
    rw size (
      sym (take-append-drop n (drop pos file))
          ∙ ap (◌++◌ (take n (drop pos file))) (drop-drop pos n file),
      h,
      few,
      elim enough [ inl e ↦ inl e | inr e ↦ inr (omega arith) ],
    )

pub read_chunk_at-IsRead :
    (file : List ℕ) (pos : ℕ) → pos < length file → IsRead file pos (read_chunk_at file pos)
unfolding read_chunk_at
read_chunk_at-IsRead file pos h = elim (Bool-cases (ltb (length file - pos) chunk_size)) [
  | inl e ↦ rw e (take-IsRead file pos (length file - pos) (omega arith) (omega arith) (inr refl))
  | inr e ↦ rw e (take-IsRead file pos chunk_size (omega arith) (ground arith) (inl (omega arith)))
]
