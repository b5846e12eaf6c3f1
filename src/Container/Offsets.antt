-- ===== src/Container/Offsets.antt =====
-- manifest.go: the sums over the tracks, and `assignFileOffsets`.
use miniscram.Common.{
  ℕ, ◌≡◌, refl, sym, ap, ap₂, ◌∙◌, List, [], ◌∷◌, ◌++◌, bytes_equal, bytes_equal→eq, if◌then◌else◌,
  ℤ, pos, ◌+ℤ◌, quot, to_i32, to_i64, add_i64, add_i64-to_i64, Bool-cases, inl, inr,
}
use miniscram.Disc.{Track}
use miniscram.Layout.{sector_size}

-- `BinSize`.
unfoldable pub bin_size : List Track → ℤ
unfolding add_i64
bin_size [] = pos 0
bin_size (t ∷ ts) = add_i64 t.size (bin_size ts)

-- `BinFirstLBA`.
unfoldable pub bin_first_lba : List Track → ℤ
bin_first_lba [] = pos 0
bin_first_lba (t ∷ ts) = t.first_lba

-- `BinSectorCount`.
unfoldable pub bin_sector_count : List Track → ℤ
unfolding bin_size
bin_sector_count ts = to_i32 (quot (bin_size ts) sector_size)

-- The map `offsets`, newest entry first; a missing key reads as zero.
unfoldable pub lookup : List ℕ → List (List ℕ × ℤ) → ℤ
lookup name [] = pos 0
lookup name ((key, value) ∷ entries) = if bytes_equal name key then value else lookup name entries

-- The loop of `assignFileOffsets`.
unfoldable pub assign_from : List (List ℕ × ℤ) → List Track → List Track
unfolding lookup add_i64
assign_from offsets [] = []
assign_from offsets (t ∷ ts) =
    (record t { file_offset = lookup t.filename offsets })
    ∷ assign_from ((t.filename, add_i64 (lookup t.filename offsets) t.size) ∷ offsets) ts

unfoldable pub assign_file_offsets : List Track → List Track
unfolding assign_from
assign_file_offsets tracks = assign_from [] tracks

-- The sum of the sizes of the tracks of one file, on top of a start.
abbrev pub size_of_file : List ℕ → ℤ → List Track → ℤ
size_of_file name start [] = start
size_of_file name start (t ∷ ts) =
    size_of_file name (if bytes_equal name t.filename then start +ℤ t.size else start) ts

-- Each track with the size of its file's tracks among those before it, as an int64.
abbrev pub placed : List Track → List Track → List Track
placed before [] = []
placed before (t ∷ ts) =
    (record t { file_offset = to_i64 (size_of_file t.filename (pos 0) before) })
    ∷ placed (before ++ (t ∷ [])) ts

size_of_file-append :
    (name : List ℕ) (t : Track) (before : List Track) (start : ℤ)
    → size_of_file name start (before ++ (t ∷ [])) ≡ (
        if bytes_equal name t.filename
        then size_of_file name start before +ℤ t.size
        else size_of_file name start before)
size_of_file-append name t [] start = refl
size_of_file-append name t (u ∷ before) start =
    size_of_file-append name t before
      (if bytes_equal name u.filename then start +ℤ u.size else start)

next_entry :
    (offsets : List (List ℕ × ℤ)) (before : List Track) (t : Track)
    → ((name : List ℕ) → lookup name offsets ≡ to_i64 (size_of_file name (pos 0) before))
    → (name : List ℕ)
    → lookup name ((t.filename, add_i64 (lookup t.filename offsets) t.size) ∷ offsets)
      ≡ to_i64 (size_of_file name (pos 0) (before ++ (t ∷ [])))
unfolding lookup
next_entry offsets before t h name = elim (Bool-cases (bytes_equal name t.filename)) [
  | inl same ↦
      rw (size_of_file-append name t before (pos 0), same)
        (ap (λ (n : List ℕ). add_i64 (lookup n offsets) t.size)
            (sym (bytes_equal→eq name t.filename same))
          ∙ ap (λ (z : ℤ). add_i64 z t.size) (h name)
          ∙ add_i64-to_i64 (size_of_file name (pos 0) before) t.size)
  | inr other ↦ rw (size_of_file-append name t before (pos 0), other) (h name)
]

assign_from_lem :
    (ts : List Track) (offsets : List (List ℕ × ℤ)) (before : List Track)
    → ((name : List ℕ) → lookup name offsets ≡ to_i64 (size_of_file name (pos 0) before))
    → assign_from offsets ts ≡ placed before ts
unfolding assign_from
assign_from_lem [] offsets before h = refl
assign_from_lem (t ∷ ts) offsets before h =
    ap₂ ◌∷◌ (ap (λ (z : ℤ). record t { file_offset = z }) (h t.filename))
      (assign_from_lem ts _ (before ++ (t ∷ [])) (next_entry offsets before t h))

-- `assignFileOffsets` gives each track the sum of the sizes of the tracks before it that lie in the
-- same file, wrapped to an int64 at the end, and changes nothing else.
pub assign_file_offsets-placed : (ts : List Track) → assign_file_offsets ts ≡ placed [] ts
unfolding assign_file_offsets lookup to_i64
assign_file_offsets-placed ts = assign_from_lem ts [] [] (λ name. refl)
