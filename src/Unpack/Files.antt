-- ===== src/Unpack/Files.antt =====
-- The files that `Unpack`, `Pack` and the commands write and remove. A path names a directory
-- entry, `file_of` says which, however it is spelled; reading and writing go by the entry.
use miniscram.Common.{
  ℕ, ◌≡◌, ◌≢◌, inl, inr, false, bytes_equal→eq, Bool-cases, Option, none, some, List, bytes_equal,
  if◌then◌else◌,
}

-- A file at a path.
unfoldable pub files_with :
    (List ℕ → List ℕ) → List ℕ → List ℕ → (List ℕ → Option (List ℕ)) → List ℕ → Option (List ℕ)
unfolding bytes_equal
files_with file_of path content files other =
    if bytes_equal (file_of other) (file_of path) then some content else files other

-- No file at a path.
unfoldable pub files_without :
    (List ℕ → List ℕ) → List ℕ → (List ℕ → Option (List ℕ)) → List ℕ → Option (List ℕ)
unfolding bytes_equal
files_without file_of path files other =
    if bytes_equal (file_of other) (file_of path) then none else files other

-- Paths that name two files.
pub other_path :
    (file_of : List ℕ → List ℕ) (a b : List ℕ)
    → file_of a ≢ file_of b
    → bytes_equal (file_of a) (file_of b) ≡ false
other_path file_of a b h = elim (Bool-cases (bytes_equal (file_of a) (file_of b))) [
  | inl e ↦ absurd (h (bytes_equal→eq (file_of a) (file_of b) e))
  | inr e ↦ e
]
