-- ===== src/Cli/Agree.antt =====
-- main.go: the exit codes of `runVerify` and `runUnpack`.
use miniscram.Common.{
  ℕ, ◌<◌, ◌≡◌, ◌↔◌, refl, ap, Bool, true, false, Option, List, if◌then◌else◌, Result, ok, err,
  arith,
}
use miniscram.Disc.{FileHashes}
use miniscram.Builder.Build.{BuildError}
use miniscram.Container.File.{ContainerError}
use miniscram.Unpack.Source.{SourceError}
use miniscram.Unpack.Run.{
  UnpackOptions, UnpackError, bad_container, bad_source, not_built, output_differs, unpack, verify,
}
use miniscram.Unpack.Checks.{verify-unpack}
use miniscram.Pack.Run.{Build, is_bin_mismatch}
use miniscram.Cli.Exits.{
  Ending, exits, crashes, build_exit, container_exit, source_exit, unpack_exit, unpacked_exit,
}
use miniscram.Cli.Plans.{Files, unpack_options, verify_options}
use miniscram.Cli.Commands.{Ran, run_unpacked, run_unpack, run_verified, run_verify}

-- The status that the shell sees; a panic ends Go's programs with 2.
unfoldable pub status : Ending → ℕ
status (exits code) = code
status crashes = 2

unfoldable pub ending_of : Ran → Ending
ending_of (Ran.packed f) = f.ending
ending_of (Ran.unpacked e left) = e
ending_of (Ran.ended e) = e

build_exit-fails : (e : BuildError) → 0 < status (build_exit e)
unfolding build_exit status
build_exit-fails BuildError.panicked = omega arith
build_exit-fails _ = omega arith

container_exit-fails : (e : ContainerError) → 0 < status (container_exit e)
unfolding container_exit status
container_exit-fails ContainerError.panicked = omega arith
container_exit-fails _ = omega arith

if-fails : (b : Bool) (m n : ℕ) → 0 < m → 0 < n → 0 < (if b then m else n)
if-fails true m n h k = h
if-fails false m n h k = k

source_exit-fails : (e : SourceError) → 0 < status (source_exit e)
unfolding source_exit status
source_exit-fails e = if-fails (is_bin_mismatch (bad_source e)) 5 4 (omega arith) (omega arith)

unpack_exit-fails : (e : UnpackError) → 0 < status (unpack_exit e)
unfolding unpack_exit status
unpack_exit-fails (bad_container e) = container_exit-fails e
unpack_exit-fails (bad_source e) = source_exit-fails e
unpack_exit-fails (not_built e) = build_exit-fails e
unpack_exit-fails output_differs = omega arith
unpack_exit-fails _ = omega arith

-- The exit code is 0 exactly when there is no error.
unpacked_exit-ok :
    (r : Result UnpackError (Unit {0})) → (status (unpacked_exit r) ≡ 0) ↔ (r ≡ ok tt)
unfolding unpacked_exit status
unpacked_exit-ok (ok u) = (λ e. refl, λ e. refl)
unpacked_exit-ok (err e) = (λ h. absurd (omega (arith, unpack_exit-fails e, h)), λ h. cc)

same_success :
    (r s : Result UnpackError (Unit {0}))
    → (r ≡ ok tt) ↔ (s ≡ ok tt)
    → (status (unpacked_exit r) ≡ 0) ↔ (status (unpacked_exit s) ≡ 0)
same_success r s h =
    let (r_there, r_back) = unpacked_exit-ok r in
    let (s_there, s_back) = unpacked_exit-ok s in
    (λ e. s_back (h.0 (r_there e)), λ e. r_back (h.1 (s_there e)))

module _ (deflate : List ℕ → List ℕ) (inflate : List ℕ → Option (List ℕ))
    (hashes : List ℕ → FileHashes) (files : Files) (join : List ℕ → List ℕ → List ℕ)
    (dir_of base_of : List ℕ → List ℕ) (glob : List ℕ → List (List ℕ))
    (scan_lines : List ℕ → List (List ℕ) × Bool) (build : Build) (can_remove : List ℕ → Bool) where
  run_unpack-status :
      (args : List (List ℕ)) (opts : UnpackOptions)
      → unpack_options args ≡ ok opts
      → status (
          ending_of (
            run_unpack deflate inflate hashes files join dir_of base_of glob scan_lines build
              can_remove args))
        ≡ status (unpacked_exit (unpack inflate hashes files join dir_of base_of glob opts).result)
  unfolding ending_of run_unpack run_unpacked
  run_unpack-status args opts e =
      ap
        (λ (r : Result ℕ UnpackOptions). status (
          ending_of (
            run_unpacked deflate inflate hashes files join dir_of base_of glob scan_lines build
              can_remove r)))
        e

  run_verify-status :
      (args : List (List ℕ)) (container_path bin_path : List ℕ)
      → verify_options args ≡ ok (container_path, bin_path)
      → status (
          run_verify deflate inflate hashes files join dir_of base_of glob scan_lines build
            can_remove args)
        ≡ status (
            unpacked_exit (
              verify inflate hashes files join dir_of base_of glob container_path bin_path
                build.temporary))
  unfolding run_verify run_verified
  run_verify-status args container_path bin_path e =
      ap
        (λ (r : Result ℕ (List ℕ × List ℕ)). status (
          run_verified deflate inflate hashes files join dir_of base_of glob scan_lines build
            can_remove r))
        e

  -- `miniscram verify` ends with 0 exactly when `miniscram unpack`, with the same container and
  -- the same --bin, an output path and -f, ends with 0.
  pub run_verify-run_unpack :
      (verify_args unpack_args : List (List ℕ)) (container_path bin_path output : List ℕ)
      → verify_options verify_args ≡ ok (container_path, bin_path)
      → unpack_options unpack_args
        ≡ ok (record {
          container_path = container_path;
          output_path = output;
          check_output = true;
          force = true;
          bin_path = bin_path;
        })
      → (status (
            run_verify deflate inflate hashes files join dir_of base_of glob scan_lines build
              can_remove verify_args)
          ≡ 0)
        ↔ (status (
              ending_of (
                run_unpack deflate inflate hashes files join dir_of base_of glob scan_lines build
                  can_remove unpack_args))
            ≡ 0)
  run_verify-run_unpack verify_args unpack_args container_path bin_path output v u =
      rw
        (run_verify-status verify_args container_path bin_path v, run_unpack-status unpack_args _ u)
        (same_success
          (verify inflate hashes files join dir_of base_of glob container_path bin_path
            build.temporary)
          (unpack inflate hashes files join dir_of base_of glob _).result
          (verify-unpack inflate hashes files join dir_of base_of glob container_path bin_path
            build.temporary output))
