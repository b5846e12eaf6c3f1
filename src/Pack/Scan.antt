-- ===== src/Pack/Scan.antt =====
-- pack.go: the search for sync fields. `try` is what is done with one: nothing, or a result that
-- ends the search. Reads of the file do not fail.
use miniscram.Common.{
  ℕ, zero, suc, ◌+◌, ◌-◌, ◌*◌, true, false, Option, none, some, List, [], ◌∷◌, ◌++◌, length, take,
  drop, ltb, if◌then◌else◌,
}
use miniscram.Layout.{sync, sync_len}
use miniscram.Text.{has_prefix, index}

abbrev pub chunk_size : ℕ
chunk_size = 128 * 1024

-- One read of at most a chunk.
unfoldable pub read_chunk_at : List ℕ → ℕ → List ℕ
read_chunk_at file pos =
    let left = length file - pos in
    take (if ltb left chunk_size then left else chunk_size) (drop pos file)

module _ {R : Type 0} (try : ℕ → Option R) where
  -- The inner loop: each occurrence in the buffer, whose first byte has the offset `off`. A round
  -- leaves out at least one byte.
  unfoldable pub search_buffer : ℕ → ℕ → List ℕ → Option R
  search_buffer zero off rest = none
  search_buffer (suc fuel) off rest = elim (index rest sync) [
    | none ↦ none
    | some i ↦ elim (try (off + i)) [
      | some r ↦ some r
      | none ↦ search_buffer fuel (off + suc i) (drop (suc i) rest)
    ]
  ]

  -- The outer loop of `detectWriteOffset` and `detectSessionGap`: the last bytes of a chunk are
  -- carried into the next search.
  unfoldable pub scan_carry : ℕ → List ℕ → List ℕ → ℕ → Option R
  unfolding search_buffer read_chunk_at
  scan_carry zero file carry pos = none
  scan_carry (suc fuel) file carry pos = elim (ltb pos (length file)) [
    | false ↦ none
    | true ↦
        let chunk = read_chunk_at file pos in
        let search = carry ++ chunk in
        elim (search_buffer (suc (length search)) (pos - length carry) search) [
          | some r ↦ some r
          | none ↦
              scan_carry fuel file (drop (length chunk - (sync_len - 1)) chunk) (pos + length chunk)
        ]
  ]

  -- The loop of `findValidSyncFrom` in `checkConstantOffset`: the next read begins eleven bytes
  -- before the end of this one.
  unfoldable pub scan_overlap : ℕ → List ℕ → ℕ → Option R
  unfolding search_buffer read_chunk_at
  scan_overlap zero file pos = none
  scan_overlap (suc fuel) file pos = elim (ltb pos (length file)) [
    | false ↦ none
    | true ↦
        let buf = read_chunk_at file pos in
        elim (search_buffer (suc (length buf)) pos buf) [
          | some r ↦ some r
          | none ↦ elim (ltb (length buf) sync_len) [
            | true ↦ none
            | false ↦ scan_overlap fuel file (pos + (length buf - (sync_len - 1)))
          ]
        ]
  ]

  -- The specification: every offset in order, without chunks.
  abbrev pub first_candidate : ℕ → List ℕ → Option R
  first_candidate off [] = none
  first_candidate off (c ∷ s) =
      let rest = first_candidate (off + 1) s in
      if has_prefix (c ∷ s) sync then elim (try off) [ some r ↦ some r | none ↦ rest ] else rest
