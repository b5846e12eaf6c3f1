-- ===== src/Cli/Removal.antt =====
-- main.go: what `Pack` and `os.Remove` leave of the files.
use miniscram.Common.{
  true, ℕ, ◌≡◌, ◌≢◌, ◌⊎◌, inl, inr, refl, Bool, ◌&&◌, none, some, List, bytes_equal,
  bytes_equal_refl, Bool-cases,
}
use miniscram.Text.{is_some}
use miniscram.Pack.Run.{Container, not_written, kept, deleted}
use miniscram.Cli.Plans.{Files}
use miniscram.Cli.Commands.{remove_file, files_after}
use miniscram.Unpack.Files.{other_path, files_with, files_without}

module _ (file_of : List ℕ → List ℕ) where
  pub files_after-other :
      (path other : List ℕ) (left : Container) (files : Files)
      → file_of other ≢ file_of path
      → files_after file_of path left files other ≡ files other
  unfolding files_after files_with files_without
  files_after-other path other not_written files h = refl
  files_after-other path other (kept content) files h = rw (other_path file_of other path h) refl
  files_after-other path other deleted files h = rw (other_path file_of other path h) refl

  pub files_after-kept :
      (path same content : List ℕ) (files : Files)
      → file_of same ≡ file_of path
      → files_after file_of path (kept content) files same ≡ some content
  unfolding files_after files_with
  files_after-kept path same content files e =
      let equal : bytes_equal (file_of same) (file_of path) ≡ true =
        rw e (bytes_equal_refl (file_of path)) in
      rw equal refl

  -- `os.Remove` does nothing, or the file is gone and the others are not.
  pub remove_file-cases :
      (can_remove : List ℕ → Bool) (path : List ℕ) (files : Files)
      → (remove_file file_of can_remove path files ≡ files)
        ⊎ ((remove_file file_of can_remove path files path ≡ none)
            × ((other : List ℕ)
                → file_of other ≢ file_of path
                → remove_file file_of can_remove path files other ≡ files other))
  unfolding remove_file files_without
  remove_file-cases can_remove path files =
      elim (Bool-cases (is_some (files path) && can_remove path)) [
        | inl e ↦ inr (
          rw (e, bytes_equal_refl (file_of path)) refl,
          λ other h. rw (e, other_path file_of other path h) refl,
        )
        | inr e ↦ inl (rw e refl)
      ]
