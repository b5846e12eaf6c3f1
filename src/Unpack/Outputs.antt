-- ===== src/Unpack/Outputs.antt =====
-- unpack.go: the files that `Unpack` leaves, when it succeeds and when it fails.
use miniscram.Common.{
  ℕ, ◌≡◌, ◌≢◌, ◌⊎◌, inl, inr, refl, sym, ◌∙◌, Bool, true, false, Option, none, some, List,
  bytes_equal_refl, Result, ok, err, Bool-cases,
}
use miniscram.Disc.{FileHashes, Manifest}
use miniscram.Delta.{DeltaError, apply_delta, apply_left}
use miniscram.Delta.Left.{IsCutOff, apply_delta-IsCutOff}
use miniscram.Unpack.Files.{other_path, files_with, files_without}
use miniscram.Unpack.Source.{same_hashes}
use miniscram.Unpack.Run.{
  UnpackOptions, UnpackError, not_applied, output_differs, Output, untouched, half_patched, written,
  removed, Outcome, files_left, patched, finished, predicted, unpack,
}
use miniscram.Unpack.Checks.{same_hashes-eq}

module _ (file_of : List ℕ → List ℕ) where
  files_with-here :
      (path content : List ℕ) (files : List ℕ → Option (List ℕ))
      → files_with file_of path content files path ≡ some content
  unfolding files_with
  files_with-here path content files = rw (bytes_equal_refl (file_of path)) refl

  files_without-here :
      (path : List ℕ) (files : List ℕ → Option (List ℕ))
      → files_without file_of path files path ≡ none
  unfolding files_without
  files_without-here path files = rw (bytes_equal_refl (file_of path)) refl

  files_left-other :
      (path other : List ℕ) (left : Output) (files : List ℕ → Option (List ℕ))
      → file_of other ≢ file_of path
      → files_left file_of path left files other ≡ files other
  unfolding files_left files_with files_without
  files_left-other path other untouched files h = refl
  files_left-other path other (half_patched content) files h =
      rw (other_path file_of other path h) refl
  files_left-other path other (written content) files h = rw (other_path file_of other path h) refl
  files_left-other path other removed files h = rw (other_path file_of other path h) refl

-- What is there afterwards at the output path, `left` being all files, by the error.
abbrev pub IsFailed :
    (List ℕ → FileHashes)
    → Bool
    → List ℕ
    → (List ℕ → Option (List ℕ))
    → Manifest
    → List ℕ
    → List ℕ
    → UnpackError
    → Type 0
IsFailed hashes check path left m delta image e =
    ((failure : DeltaError) × (content : List ℕ) × (e ≡ not_applied failure)
      × (left path ≡ some content)
      × IsCutOff image delta failure content)
    ⊎ ((out : List ℕ) × (e ≡ output_differs)
        × (check ≡ true)
        × (apply_delta image delta ≡ ok out)
        × (hashes out ≢ m.scram.hashes)
        × (left path ≡ none))

-- What a result says of the files before and after.
abbrev pub IsConsistent :
    (List ℕ → FileHashes)
    → Bool
    → List ℕ
    → Result UnpackError (Manifest × List ℕ × List ℕ)
    → (List ℕ → Option (List ℕ))
    → (List ℕ → Option (List ℕ))
    → Result UnpackError (Unit {0})
    → Type 0
IsConsistent hashes check path steps files left (ok u) =
    (m : Manifest) × (delta image out : List ℕ) × (steps ≡ ok (m, delta, image))
    × (apply_delta image delta ≡ ok out)
    × (left path ≡ some out)
    × ((check ≡ false) ⊎ (hashes out ≡ m.scram.hashes))
IsConsistent hashes check path steps files left (err e) =
    ((steps ≡ err e) × (left ≡ files))
    ⊎ ((m : Manifest) × (delta image : List ℕ) × (steps ≡ ok (m, delta, image))
        × IsFailed hashes check path left m delta image e)

module _ (hashes : List ℕ → FileHashes) (file_of : List ℕ → List ℕ) (path : List ℕ)
    (files : List ℕ → Option (List ℕ)) where
  -- An outcome against the steps up to the renaming.
  abbrev IsRight : Bool → Result UnpackError (Manifest × List ℕ × List ℕ) → Outcome → Type 0
  IsRight check steps o =
      IsConsistent hashes check path steps files (files_left file_of path o.output files) o.result

  patched-IsRight :
      (check : Bool) (m : Manifest) (delta image : List ℕ) (r : Result DeltaError (List ℕ))
      → apply_delta image delta ≡ r
      → IsRight check (ok (m, delta, image)) (patched hashes check m (apply_left image delta) r)
  unfolding patched files_left
  patched-IsRight check m delta image (err e) found =
      let left = apply_left image delta in
      inr (
        m,
        delta,
        image,
        refl,
        inl (
          e,
          left,
          refl,
          files_with-here file_of path left files,
          apply_delta-IsCutOff image delta e found,
        ),
      )
  patched-IsRight false m delta image (ok out) found =
      (m, delta, image, out, refl, found, files_with-here file_of path out files, inl refl)
  patched-IsRight true m delta image (ok out) found =
      let (there, back) = same_hashes-eq (hashes out) m.scram.hashes in
      elim (Bool-cases (same_hashes (hashes out) m.scram.hashes)) [
        | inl same ↦ rw same (
          m,
          delta,
          image,
          out,
          refl,
          found,
          files_with-here file_of path out files,
          inr (there same),
        )
        | inr other ↦
            let unlike : hashes out ≢ m.scram.hashes =
              λ e. let no : true ≡ false = sym (back e) ∙ other in absurd cc in
            rw other (
              inr (
                m,
                delta,
                image,
                refl,
                inr (out, refl, refl, found, unlike, files_without-here file_of path files),
              ))
      ]

  finished-IsRight :
      (check : Bool) (steps : Result UnpackError (Manifest × List ℕ × List ℕ))
      → IsRight check steps (finished hashes check steps)
  unfolding finished files_left
  finished-IsRight check (err e) = inl (refl, refl)
  finished-IsRight check (ok (m, delta, image)) =
      patched-IsRight check m delta image (apply_delta image delta) refl

module _ (inflate : List ℕ → Option (List ℕ)) (hashes : List ℕ → FileHashes)
    (files : List ℕ → Option (List ℕ)) (join : List ℕ → List ℕ → List ℕ)
    (dir_of base_of : List ℕ → List ℕ) (glob : List ℕ → List (List ℕ))
    (file_of : List ℕ → List ℕ) where
  -- When `Unpack` succeeds, the output path holds the prediction with the container's delta applied,
  -- and if the output is to be checked its three digests are the manifest's. When a step up to the
  -- prediction fails, the error is that step's and all files are as they were. When the delta is
  -- malformed, the output path holds the prediction with the records before the first bad one
  -- written over it, which are all fit to be written, and the bad one is what the error says. When
  -- the digests differ, which is found only if they are to be checked, there is no file at the
  -- output path. A path that names another file than the output path holds what it held.
  pub unpack-IsConsistent :
      (opts : UnpackOptions) (other : List ℕ)
      → file_of other ≢ file_of opts.output_path
      → let o = unpack inflate hashes files join dir_of base_of glob opts in
        IsConsistent hashes opts.check_output opts.output_path
          (predicted inflate hashes files join dir_of base_of glob opts)
          files
          (files_left file_of opts.output_path o.output files)
          o.result
        × (files_left file_of opts.output_path o.output files other ≡ files other)
  unfolding unpack
  unpack-IsConsistent opts other h =
      let steps = predicted inflate hashes files join dir_of base_of glob opts in
      (
        finished-IsRight hashes file_of opts.output_path files opts.check_output steps,
        files_left-other file_of opts.output_path other
            (finished hashes opts.check_output steps).output files h,
      )
