-- ===== src/Pack/ScanAll.antt =====
-- The chunked searches find what a search of the whole file finds.
use miniscram.Common.{
  ℕ, zero, suc, ◌+◌, ◌-◌, ◌≤◌, ◌<◌, ◌≡◌, refl, sym, ap, ap₂, ◌∙◌, arith, Bool, true, false, Option,
  none, some, List, [], ◌∷◌, ◌++◌, length, drop, ltb, if◌then◌else◌, Bool-cases, inl, inr,
  length-append, length-drop, drop-drop, drop-length, drop-append_le, ltb→lt,
}
use mathlib.Core.List.{append_assoc}
use miniscram.Layout.{sync}
use miniscram.Text.{has_prefix, index}
use miniscram.Pack.Scan.{search_buffer, read_chunk_at, scan_carry, scan_overlap, first_candidate}
use miniscram.Pack.Reads.{
  ◌orelse◌, has_prefix-short, has_prefix-long, drop-append_at, or_later, or_later-orelse, IsRead,
  read_chunk_at-IsRead,
}

module _ {R : Type 0} (try : ℕ → Option R) where
  candidate-short : (off : ℕ) (s : List ℕ) → length s < 12 → first_candidate try off s ≡ none
  candidate-short off [] h = refl
  candidate-short off (c ∷ s) h =
      rw (has_prefix-short (c ∷ s) sync h) (candidate-short (off + 1) s (omega arith))

  -- What the last eleven bytes of `s` and `t` have.
  abbrev boundary : ℕ → List ℕ → List ℕ → Option R
  boundary off s t = first_candidate try (off + (length s - 11)) (drop (length s - 11) s ++ t)

  candidate-append_short :
      (s t : List ℕ) (off : ℕ)
      → length s < 12
      → first_candidate try off (s ++ t) ≡ (first_candidate try off s orelse boundary off s t)
  candidate-append_short s t off h =
      let e : length s - 11 ≡ 0 = omega arith in
      let same : off + 0 ≡ off = omega arith in rw (candidate-short off s h, e, same) refl

  -- A search of two parts is one of the first part, and one of its last eleven bytes with the
  -- second part.
  candidate-append :
      (s t : List ℕ) (off : ℕ)
      → first_candidate try off (s ++ t) ≡ (first_candidate try off s orelse boundary off s t)
  candidate-append [] t off = candidate-append_short [] t off (omega arith)
  candidate-append (c ∷ s) t off = elim (Bool-cases (ltb (suc (length s)) 12)) [
    | inl few ↦ candidate-append_short (c ∷ s) t off (ltb→lt (suc (length s)) 12 few)
    | inr many ↦
        let h : 11 ≤ length s = ground arith in
        let e : suc (length s) - 11 ≡ suc (length s - 11) = omega arith in
        let place : off + suc (length s - 11) ≡ off + 1 + (length s - 11) = omega arith in
        rw (has_prefix-long (c ∷ s) t sync (omega arith), e, place)
          (or_later-orelse (has_prefix (c ∷ s) sync) (try off) _ _ _
            (candidate-append s t (off + 1)))
  ]

  abbrev or_after : ℕ → ℕ → List ℕ → Option R
  or_after off later s = elim (try off) [ some r ↦ some r | none ↦ first_candidate try later s ]

  -- The search from the first occurrence on.
  abbrev from_occurrence : ℕ → List ℕ → Option ℕ → Option R
  from_occurrence off s none = none
  from_occurrence off s (some i) = or_after (off + i) (off + suc i) (drop (suc i) s)

  from_occurrence-later :
      (off c : ℕ) (s : List ℕ) (o : Option ℕ)
      → from_occurrence (off + 1) s o
        ≡ from_occurrence off (c ∷ s) (elim o [ none ↦ none | some n ↦ some (suc n) ])
  from_occurrence-later off c s none = refl
  from_occurrence-later off c s (some i) =
      let e : off + 1 + i ≡ off + suc i = omega arith in
      let e' : off + 1 + suc i ≡ off + suc (suc i) = omega arith in
      ap₂ (λ (a b : ℕ). or_after a b (drop (suc i) s)) e e'

  from_occurrence-here :
      (off c : ℕ) (s : List ℕ) (b : Bool) (o : Option ℕ)
      → first_candidate try (off + 1) s ≡ from_occurrence (off + 1) s o
      → or_later b (try off) (first_candidate try (off + 1) s)
        ≡ from_occurrence off
            (c ∷ s)
            (if b then some 0 else elim o [ none ↦ none | some n ↦ some (suc n) ])
  from_occurrence-here off c s false o e = e ∙ from_occurrence-later off c s o
  from_occurrence-here off c s true o e =
      let same : off + 0 ≡ off = omega arith in rw (same, from_occurrence) refl

  candidate-index :
      (off : ℕ) (s : List ℕ) → first_candidate try off s ≡ from_occurrence off s (index s sync)
  unfolding index has_prefix
  candidate-index off [] = refl
  candidate-index off (c ∷ s) =
      from_occurrence-here off c s (has_prefix (c ∷ s) sync) (index s sync)
        (candidate-index (off + 1) s)

  search_buffer-from_occurrence :
      (fuel off : ℕ) (s : List ℕ) (o : Option ℕ)
      → ((i : ℕ)
          → search_buffer try fuel (off + suc i) (drop (suc i) s)
            ≡ first_candidate try (off + suc i) (drop (suc i) s))
      → index s sync ≡ o
      → search_buffer try (suc fuel) off s ≡ from_occurrence off s o
  unfolding search_buffer
  search_buffer-from_occurrence fuel off s none later e = rw (e, search_buffer) refl
  search_buffer-from_occurrence fuel off s (some i) later e =
      rw (e, search_buffer)
        (ap (λ (o : Option R). elim (try (off + i)) [ some r ↦ some r | none ↦ o ]) (later i))

  search_buffer-nil : (fuel off : ℕ) → search_buffer try fuel off [] ≡ none
  unfolding search_buffer index has_prefix
  search_buffer-nil zero off = refl
  search_buffer-nil (suc fuel) off = refl

  search_buffer-all :
      (fuel off : ℕ) (s : List ℕ)
      → length s < fuel
      → search_buffer try fuel off s ≡ first_candidate try off s
  search_buffer-all zero off s h = absurd (omega arith)
  search_buffer-all (suc fuel) off [] h = search_buffer-nil (suc fuel) off
  search_buffer-all (suc fuel) off (c ∷ s) h =
      search_buffer-from_occurrence fuel off (c ∷ s) (index (c ∷ s) sync)
        (λ i. search_buffer-all fuel (off + suc i) (drop i s) (omega (arith, length-drop i s))) refl
      ∙ sym (candidate-index off (c ∷ s))

  -- What the next search has of `rest`, after the read of `chunk`.
  abbrev carried : ℕ → List ℕ → List ℕ → Option R
  carried pos chunk rest =
      let tail = drop (length chunk - 11) chunk in
      first_candidate try (pos + length chunk - length tail) (tail ++ rest)

  carried-full :
      (carry chunk rest : List ℕ) (pos : ℕ)
      → length carry ≤ pos
      → 11 ≤ length chunk
      → boundary (pos - length carry) (carry ++ chunk) rest ≡ carried pos chunk rest
  carried-full carry chunk rest pos before enough =
      let size : length (drop (length chunk - 11) chunk) ≡ 11 =
        omega (arith, length-drop (length chunk - 11) chunk) in
      let both : length (carry ++ chunk) ≡ length carry + length chunk =
        length-append carry chunk in
      let at : drop (length (carry ++ chunk) - 11) (carry ++ chunk)
          ≡ drop (length chunk - 11) chunk =
        ap (λ (n : ℕ). drop n (carry ++ chunk)) {x = length (carry ++ chunk) - 11}
          {y = length carry + (length chunk - 11)} (omega arith)
        ∙ drop-append_at carry chunk (length chunk - 11) in
      ap₂ (λ (n : ℕ) (s : List ℕ). first_candidate try n (s ++ rest))
        {x = pos - length carry + (length (carry ++ chunk) - 11)}
        {y = pos + length chunk - length (drop (length chunk - 11) chunk)} (omega arith) at

  few_left : (off : ℕ) (s : List ℕ) → first_candidate try off (drop (length s - 11) s ++ []) ≡ none
  few_left off s =
      let tail = drop (length s - 11) s in
      candidate-short off (tail ++ [])
        (omega (arith, length-append tail [], length-drop (length s - 11) s))

  carried-last :
      (carry chunk rest : List ℕ) (pos : ℕ)
      → rest ≡ []
      → boundary (pos - length carry) (carry ++ chunk) rest ≡ carried pos chunk rest
  carried-last carry chunk rest pos e = rw e (
      few_left (pos - length carry + (length (carry ++ chunk) - 11)) (carry ++ chunk)
      ∙ sym (few_left (pos + length chunk - length (drop (length chunk - 11) chunk)) chunk))

  -- One round, given the rounds that follow it.
  scan_carry-read :
      (fuel : ℕ) (file carry chunk : List ℕ) (pos : ℕ)
      → length carry ≤ pos
      → length carry ≤ 11
      → IsRead file pos chunk
      → (later : Option R) → later ≡ carried pos chunk (drop (pos + length chunk) file)
      → (search_buffer try (suc (length (carry ++ chunk))) (pos - length carry) (carry ++ chunk)
          orelse later)
        ≡ first_candidate try (pos - length carry) (carry ++ drop pos file)
  scan_carry-read fuel file carry chunk pos before few read later e =
      let off = pos - length carry in
      let rest = drop (pos + length chunk) file in
      let first : search_buffer try (suc (length (carry ++ chunk))) off (carry ++ chunk)
          ≡ first_candidate try off (carry ++ chunk) =
        search_buffer-all (suc (length (carry ++ chunk))) off (carry ++ chunk) (omega arith) in
      let whole : carry ++ drop pos file ≡ (carry ++ chunk) ++ rest =
        ap (◌++◌ carry) read.0 ∙ sym (append_assoc carry chunk rest) in
      let next : boundary off (carry ++ chunk) rest ≡ carried pos chunk rest = elim read.3 [
        | inl full ↦ carried-full carry chunk rest pos before (omega arith)
        | inr end ↦
            carried-last carry chunk rest pos (drop-length (pos + length chunk) file (omega arith))
      ] in
      ap₂ (λ (a b : Option R). a orelse b) first (e ∙ sym next)
      ∙ sym (candidate-append (carry ++ chunk) rest off)
      ∙ ap (first_candidate try off) (sym whole)

  scan_carry-all :
      (fuel : ℕ) (file carry : List ℕ) (pos : ℕ)
      → length file - pos < fuel
      → length carry ≤ pos
      → length carry ≤ 11
      → scan_carry try fuel file carry pos
        ≡ first_candidate try (pos - length carry) (carry ++ drop pos file)
  unfolding scan_carry
  scan_carry-all zero file carry pos h before few = absurd (omega arith)
  scan_carry-all (suc fuel) file carry pos h before few =
      elim (Bool-cases (ltb pos (length file))) [
        | inl more ↦
            let below = ltb→lt pos (length file) more in
            let chunk = read_chunk_at file pos in
            let read = read_chunk_at-IsRead file pos below in
            let tail = drop (length chunk - 11) chunk in
            let size = length-drop (length chunk - 11) chunk in
            let later =
              scan_carry-all fuel file tail (pos + length chunk) (omega (arith, read.1))
                (omega arith) (omega arith) in
            rw (more, scan_carry)
              (scan_carry-read fuel file carry chunk pos before few read
                (scan_carry try fuel file tail (pos + length chunk)) later)
        | inr end ↦
            let none_left : drop pos file ≡ [] = drop-length pos file (ground arith) in
            rw (end, none_left, scan_carry)
              (sym (
                candidate-short (pos - length carry) (carry ++ [])
                  (omega (arith, length-append carry []))))
      ]

  overlap-read :
      (file buf : List ℕ) (pos : ℕ)
      → IsRead file pos buf
      → (later : Option R)
      → (12 ≤ length buf
          → later
            ≡ first_candidate try (pos + (length buf - 11)) (drop (pos + (length buf - 11)) file))
      → (search_buffer try (suc (length buf)) pos buf
          orelse elim (ltb (length buf) 12) [ true ↦ none | false ↦ later ])
        ≡ first_candidate try pos (drop pos file)
  overlap-read file buf pos read later e =
      let rest = drop (pos + length buf) file in
      let next : elim (ltb (length buf) 12) [ true ↦ none | false ↦ later ]
          ≡ boundary pos buf rest =
        elim (Bool-cases (ltb (length buf) 12)) [
          | inl few ↦
              let end : rest ≡ [] = ground (arith, read.3, drop-length (pos + length buf) file) in
              rw (few, end) (sym (few_left (pos + (length buf - 11)) buf))
          | inr many ↦
              let place : drop (pos + (length buf - 11)) file ≡ drop (length buf - 11) buf ++ rest =
                sym (drop-drop pos (length buf - 11) file)
                ∙ ap (drop (length buf - 11)) read.0
                ∙ drop-append_le (length buf - 11) buf rest (omega arith) in
              rw many (e (ground arith) ∙ ap (first_candidate try (pos + (length buf - 11))) place)
        ] in
      ap₂ (λ (a b : Option R). a orelse b)
        (search_buffer-all (suc (length buf)) pos buf (omega arith)) next
      ∙ sym (candidate-append buf rest pos)
      ∙ ap (first_candidate try pos) (sym read.0)

  pub scan_overlap-all :
      (fuel : ℕ) (file : List ℕ) (pos : ℕ)
      → length file - pos < fuel
      → scan_overlap try fuel file pos ≡ first_candidate try pos (drop pos file)
  unfolding scan_overlap
  scan_overlap-all zero file pos h = absurd (omega arith)
  scan_overlap-all (suc fuel) file pos h = elim (Bool-cases (ltb pos (length file))) [
    | inl more ↦
        let below = ltb→lt pos (length file) more in
        let buf = read_chunk_at file pos in
        let read = read_chunk_at-IsRead file pos below in
        rw (more, scan_overlap)
          (overlap-read file buf pos read (scan_overlap try fuel file (pos + (length buf - 11)))
            (λ enough.
              scan_overlap-all fuel file (pos + (length buf - 11)) (omega (arith, read.2))))
    | inr end ↦
        let none_left : drop pos file ≡ [] = drop-length pos file (ground arith) in
        rw (end, none_left, scan_overlap) refl
  ]

  -- Nothing is carried into the first read.
  pub scan_carry-start :
      (fuel : ℕ) (file : List ℕ) (pos : ℕ)
      → length file - pos < fuel
      → scan_carry try fuel file [] pos ≡ first_candidate try pos (drop pos file)
  scan_carry-start fuel file pos h =
      scan_carry-all fuel file [] pos h (omega arith) (omega arith)
      ∙ ap (λ (n : ℕ). first_candidate try n (drop pos file)) {x = pos - 0} {y = pos} (omega arith)
