-- ===== src/Pack/Verified.antt =====
-- pack.go: what `Pack` has checked when it succeeds, and what it leaves when it fails.
use miniscram.Common.{
  ℕ, ◌≡◌, ◌⊎◌, inl, inr, refl, Bool, true, Option, List, [], Result, ok, err, if◌then◌else◌,
}
use miniscram.Disc.{FileHashes}
use miniscram.Unpack.Run.{UnpackError, unpack, verify}
use miniscram.Unpack.Checks.{verify-unpack}
use miniscram.Pack.Run.{
  PackOptions, PackFailure, verify_mismatch, PackOutcome, not_written, kept, deleted, Build,
  is_bin_mismatch, verified, pack_container, pack_verified, pack,
}
use miniscram.Unpack.Files.{files_with}

-- An outcome, `fine` being what is known of a container that passes the verification.
abbrev pub IsPacked : (List ℕ → Type 0) → Result PackFailure (List ℕ) → PackOutcome → Type 0
IsPacked fine steps o = elim o.result [
  | ok u ↦
      (container : List ℕ) × (steps ≡ ok container) × (o.output ≡ kept container) × fine container
  | err e ↦
      ((steps ≡ err e) × (o.output ≡ not_written))
      ⊎ ((container : List ℕ) × (failure : UnpackError) × (steps ≡ ok container)
          × (e ≡ verify_mismatch failure)
          × (o.output ≡ (if is_bin_mismatch failure then kept container else deleted)))
]

verified-IsPacked :
    (fine : List ℕ → Type 0) (container : List ℕ) (r : Result UnpackError (Unit {0}))
    → (r ≡ ok tt → fine container)
    → IsPacked fine (ok container) (verified container r)
unfolding verified
verified-IsPacked fine container (ok u) h = (container, refl, refl, h refl)
verified-IsPacked fine container (err e) h = inr (container, e, refl, refl, refl)

module _ (deflate : List ℕ → List ℕ) (inflate : List ℕ → Option (List ℕ))
    (hashes : List ℕ → FileHashes) (files : List ℕ → Option (List ℕ))
    (join : List ℕ → List ℕ → List ℕ) (dir_of base_of : List ℕ → List ℕ)
    (glob : List ℕ → List (List ℕ)) (scan_lines : List ℕ → List (List ℕ) × Bool)
    (build : Build) where
  -- `Unpack` of a container at the path of `Pack`'s output, with the check of the digests.
  abbrev pub Unpacks : PackOptions → List ℕ → List ℕ → Type 0
  Unpacks opts output container =
      (unpack inflate hashes (files_with build.file_of opts.output_path container files) join dir_of
        base_of glob
        (record {
          container_path = opts.output_path;
          output_path = output;
          check_output = true;
          force = true;
          bin_path = [];
        })).result
      ≡ ok tt

  pack_verified-IsPacked :
      (opts : PackOptions) (output : List ℕ) (steps : Result PackFailure (List ℕ))
      → IsPacked (Unpacks opts output) steps (
          pack_verified deflate inflate hashes files join dir_of base_of glob scan_lines build opts
            steps)
  unfolding pack_verified
  pack_verified-IsPacked opts output (err e) = inl (refl, refl)
  pack_verified-IsPacked opts output (ok container) =
      verified-IsPacked (Unpacks opts output) container
        (verify inflate hashes (files_with build.file_of opts.output_path container files) join
          dir_of base_of glob opts.output_path [] build.temporary)
        (verify-unpack inflate hashes (files_with build.file_of opts.output_path container files)
          join dir_of base_of glob opts.output_path [] build.temporary output).0

  -- When `Pack` succeeds, its container is at the output path and, with it there, `Unpack` to a
  -- path that may be overwritten succeeds with the check of the digests. When a step before the
  -- container fails, nothing is written. When the verification fails, the container is deleted,
  -- unless the failure is a bin file that differs from its digests or its size.
  pub pack-IsPacked :
      (opts : PackOptions) (output : List ℕ)
      → IsPacked
          (Unpacks opts output)
          (pack_container deflate inflate hashes files join dir_of base_of glob scan_lines build
            opts)
          (pack deflate inflate hashes files join dir_of base_of glob scan_lines build opts)
  unfolding pack
  pack-IsPacked opts output =
      pack_verified-IsPacked opts output
        (pack_container deflate inflate hashes files join dir_of base_of glob scan_lines build opts)
