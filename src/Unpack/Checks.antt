-- ===== src/Unpack/Checks.antt =====
-- unpack.go: the digests that `Unpack` and `Verify` check before they succeed.
use miniscram.Common.{
  ℕ, ◌≡◌, ◌↔◌, inl, inr, refl, sym, ap, ◌∙◌, true, false, Option, none, List, bytes_equal,
  bytes_equal→eq, bytes_equal_refl, Result, ok, err, or_err, ◌>>=◌, >>=-eq-ok, ok-injective,
  Bool-cases,
}
use mathlib.Core.Path.{subst}
use miniscram.Disc.{FileHashes, Manifest}
use miniscram.Delta.{DeltaError, apply_delta, apply_left}
use miniscram.Builder.Build.{build_epsilon_hat}
use miniscram.Unpack.Source.{differs, compare_hashes, same_hashes}
use miniscram.Unpack.Run.{
  UnpackError, bad_source, not_built, no_stream, failing, patched, finished, open_container,
  checked_source, predict, checked_again, predicted, unpack, verify, open_bin_stream, build_params,
}

equal_hashes :
    (got want : FileHashes)
    → got.md5 ≡ want.md5
    → got.sha1 ≡ want.sha1
    → got.sha256 ≡ want.sha256
    → got ≡ want
equal_hashes got want a b c = λ i. record { md5 = a i; sha1 = b i; sha256 = c i }

-- `compareHashes` returns nil exactly for equal digests.
pub same_hashes-eq : (got want : FileHashes) → (same_hashes got want ≡ true) ↔ (got ≡ want)
unfolding same_hashes compare_hashes differs
same_hashes-eq got want = (there, back)
  where
    there : same_hashes got want ≡ true → got ≡ want
    there e = elim (Bool-cases (bytes_equal got.md5 want.md5)) [
      | inr other ↦
          let refused : same_hashes got want ≡ false =
            rw (other, same_hashes, compare_hashes, differs) refl in
          let no : false ≡ true = sym refused ∙ e in absurd cc
      | inl same_md5 ↦ elim (Bool-cases (bytes_equal got.sha1 want.sha1)) [
        | inr other ↦
            let refused : same_hashes got want ≡ false =
              rw (same_md5, other, same_hashes, compare_hashes, differs) refl in
            let no : false ≡ true = sym refused ∙ e in absurd cc
        | inl same_sha1 ↦ elim (Bool-cases (bytes_equal got.sha256 want.sha256)) [
          | inr other ↦
              let refused : same_hashes got want ≡ false =
                rw (same_md5, same_sha1, other, same_hashes, compare_hashes, differs) refl in
              let no : false ≡ true = sym refused ∙ e in absurd cc
          | inl same_sha256 ↦
              equal_hashes got want (bytes_equal→eq got.md5 want.md5 same_md5)
                (bytes_equal→eq got.sha1 want.sha1 same_sha1)
                (bytes_equal→eq got.sha256 want.sha256 same_sha256)
        ]
      ]
    ]

    back : got ≡ want → same_hashes got want ≡ true
    back e =
        subst (λ (h : FileHashes). same_hashes got h ≡ true) e
          (rw
            (
              bytes_equal_refl got.md5,
              bytes_equal_refl got.sha1,
              bytes_equal_refl got.sha256,
              same_hashes,
              compare_hashes,
              differs,
            )
            refl)

checked_again-patched :
    (hashes : List ℕ → FileHashes) (m : Manifest) (left : List ℕ) (r : Result DeltaError (List ℕ))
    → (checked_again hashes m (patched hashes false m left r) ≡ ok tt)
      ↔ ((patched hashes true m left r).result ≡ ok tt)
unfolding checked_again patched
checked_again-patched hashes m left (err e) = (λ h. h, λ h. h)
checked_again-patched hashes m left (ok out) =
    elim (Bool-cases (same_hashes (hashes out) m.scram.hashes)) [
      | inl same ↦ rw same (λ h. h, λ h. h)
      | inr other ↦ rw other (λ h. h, λ h. h)
    ]

module _ (hashes : List ℕ → FileHashes) where
  -- Both runs after the container is opened, the second one with the check of the output.
  checked_again-finished :
      (m : Manifest) (steps : Result UnpackError (Manifest × List ℕ × List ℕ))
      → ((m' : Manifest) (delta' image : List ℕ) → steps ≡ ok (m', delta', image) → m' ≡ m)
      → (checked_again hashes m (finished hashes false steps) ≡ ok tt)
        ↔ ((finished hashes true steps).result ≡ ok tt)
  unfolding checked_again finished
  checked_again-finished m (err e) keeps = (λ h. h, λ h. h)
  checked_again-finished m (ok (m', delta, image)) keeps =
      rw (keeps m' delta image refl)
        (checked_again-patched hashes m (apply_left image delta) (apply_delta image delta))

  checked_again-opened :
      (opened : Result UnpackError (Manifest × List ℕ))
      (steps : Manifest × List ℕ → Result UnpackError (Manifest × List ℕ × List ℕ))
      → ((m : Manifest) (delta : List ℕ) (m' : Manifest) (delta' image : List ℕ)
          → steps (m, delta) ≡ ok (m', delta', image)
          → m' ≡ m)
      → ((opened >>= λ x. checked_again hashes x.0 (finished hashes false (opened >>= steps)))
          ≡ ok tt)
        ↔ ((finished hashes true (opened >>= steps)).result ≡ ok tt)
  unfolding finished
  checked_again-opened (err e) steps keeps = (λ h. h, λ h. h)
  checked_again-opened (ok (m, delta)) steps keeps =
      checked_again-finished m (steps (m, delta)) (keeps m delta)

module _ (inflate : List ℕ → Option (List ℕ)) (hashes : List ℕ → FileHashes)
    (files : List ℕ → Option (List ℕ)) (join : List ℕ → List ℕ → List ℕ)
    (dir_of base_of : List ℕ → List ℕ) (glob : List ℕ → List (List ℕ)) where
  predict-keeps :
      (container_path bin_path : List ℕ) (m : Manifest) (delta : List ℕ) (m' : Manifest)
      (delta' image : List ℕ)
      → predict inflate hashes files join dir_of base_of glob container_path bin_path (m, delta)
        ≡ ok (m', delta', image)
      → m' ≡ m
  unfolding predict
  predict-keeps container_path bin_path m delta m' delta' image e =
      let (source, found, more) =
        >>=-eq-ok
          (failing bad_source (
            checked_source inflate hashes files join dir_of base_of glob container_path bin_path m))
          _ e in
      let (bin, found', more') =
        >>=-eq-ok (or_err (open_bin_stream files source.paths) no_stream) _ more in
      let (built, found'', end) =
        >>=-eq-ok (failing not_built (build_epsilon_hat (build_params m source.tracks) bin none)) _
          more' in
      sym (ap (λ (r : Manifest × List ℕ × List ℕ). r.0) (ok-injective end))

  -- `Verify` succeeds exactly when `Unpack` to a path that may be overwritten succeeds with the
  -- check of the output's digests.
  pub verify-unpack :
      (container_path bin_path temporary output : List ℕ)
      → (verify inflate hashes files join dir_of base_of glob container_path bin_path temporary
          ≡ ok tt)
        ↔ ((unpack inflate hashes files join dir_of base_of glob (record {
          container_path = container_path;
          output_path = output;
          check_output = true;
          force = true;
          bin_path = bin_path;
        })).result
            ≡ ok tt)
  unfolding verify unpack predicted
  verify-unpack container_path bin_path temporary output =
      checked_again-opened hashes
        (open_container inflate hashes files join dir_of base_of glob container_path)
        (predict inflate hashes files join dir_of base_of glob container_path bin_path)
        (predict-keeps container_path bin_path)
