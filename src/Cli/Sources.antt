-- ===== src/Cli/Sources.antt =====
-- main.go: what `runPack` leaves of the scram.
use miniscram.Common.{
  ℕ, ◌≡◌, ◌⊎◌, inl, inr, refl, sym, ◌∙◌, ap, Bool, true, false, Option, none, some, List, [],
  bytes_equal_refl, Result, ok, err,
}
use miniscram.Disc.{FileHashes}
use miniscram.Text.{is_some}
use miniscram.Pack.Run.{
  PackFailure, audio_only_disc, PackOutcome, Container, Build, pack_container, pack,
}
use miniscram.Pack.Verified.{IsPacked, Unpacks, pack-IsPacked}
use miniscram.Cli.Args.{exit_ok}
use miniscram.Cli.Exits.{exits}
use miniscram.Cli.Plans.{Files, PackPlan, pack_plan}
use miniscram.Cli.Commands.{
  pack_options, remove_file, files_after, Finished, after_pack, run_plan, run_planned, run_pack,
}
use miniscram.Cli.Removal.{files_after-kept}
use miniscram.Unpack.Files.{files_without}

-- The scram is as it was, or it is removed for a reason.
abbrev pub IsKept :
    (List ℕ → Type 0) → Files → PackPlan → Result PackFailure (Unit {0}) → Finished → Type 0
IsKept fine files plan result f =
    (f.files plan.scram_path ≡ files plan.scram_path)
    ⊎ (((f.files plan.scram_path ≡ none)
          × (result ≡ err audio_only_disc)
          × (plan.remove_unused ≡ true))
        ⊎ ((f.files plan.scram_path ≡ none)
            × (plan.keep_source ≡ false)
            × (f.ending ≡ exits exit_ok)
            × (container : List ℕ) × (f.files plan.out ≡ some container)
            × fine container))

-- `Pack` fails, or neither the scram nor a container is left.
abbrev pub IsLost : PackPlan → Result PackFailure (Unit {0}) → Finished → Type 0
IsLost plan result f =
    ((e : PackFailure) × (result ≡ err e))
    ⊎ ((f.ending ≡ exits exit_ok) × (f.files plan.scram_path ≡ none) × (f.files plan.out ≡ none))

-- A container over the scram is removed again.
after_pack-same_path :
    (file_of : List ℕ → List ℕ) (can_remove : List ℕ → Bool) (files : Files) (plan : PackPlan)
    (fine : List ℕ → Type 0) (steps : Result PackFailure (List ℕ))
    (result : Result PackFailure (Unit {0})) (left : Container)
    → file_of plan.out ≡ file_of plan.scram_path
    → plan.keep_source ≡ false
    → can_remove plan.scram_path ≡ true
    → IsPacked fine steps (record { result = result; output = left })
    → IsLost plan result
        (after_pack file_of can_remove plan (files_after file_of plan.out left files) result)
unfolding after_pack remove_file files_without is_some
after_pack-same_path file_of can_remove files plan fine steps (err e) left same drop able packed =
    inl (e, refl)
after_pack-same_path file_of can_remove files plan fine steps (ok u) left same drop able
      (container, done, at, good) =
    let there : files_after file_of plan.out left files plan.scram_path ≡ some container =
      ap (λ (l : Container). files_after file_of plan.out l files plan.scram_path) at
      ∙ files_after-kept file_of plan.out plan.scram_path container files (sym same) in
    inr (
      refl,
      rw (drop, able, there, bytes_equal_refl (file_of plan.scram_path)) refl,
      rw (drop, able, there, same, bytes_equal_refl (file_of plan.scram_path)) refl,
    )

abbrev err_of : PackFailure → Result PackFailure (Unit {0})
err_of e = err e

module _ (deflate : List ℕ → List ℕ) (inflate : List ℕ → Option (List ℕ))
    (hashes : List ℕ → FileHashes) (files : Files) (join : List ℕ → List ℕ → List ℕ)
    (dir_of base_of : List ℕ → List ℕ) (glob : List ℕ → List (List ℕ))
    (scan_lines : List ℕ → List (List ℕ) × Bool) (build : Build) (can_remove : List ℕ → Bool) where
  abbrev pub pack_of : PackPlan → PackOutcome
  pack_of plan =
      pack deflate inflate hashes files join dir_of base_of glob scan_lines build
        (pack_options plan)

  abbrev pub Unpackable : PackPlan → List ℕ → List ℕ → Type 0
  Unpackable plan output =
      Unpacks deflate inflate hashes files join dir_of base_of glob scan_lines build
        (pack_options plan) output

  run_pack-plan :
      (args : List (List ℕ)) (plan : PackPlan)
      → pack_plan files args ≡ ok plan
      → run_pack deflate inflate hashes files join dir_of base_of glob scan_lines build can_remove
          args
        ≡ run_plan build.file_of can_remove files plan (pack_of plan)
  unfolding run_pack run_planned
  run_pack-plan args plan e =
      ap
        (λ (r : Result ℕ PackPlan).
          run_planned deflate inflate hashes files join dir_of base_of glob scan_lines build
            can_remove r)
        e

  -- When `runPack` gets to call `Pack` with an output path that names the scram, in this or another
  -- spelling, which -f and -o allow, --keep-source is not given and the file can be removed, then
  -- `Pack` fails or the exit code is 0 and neither the scram nor a container is left.
  pub run_pack-IsLost :
      (args : List (List ℕ)) (plan : PackPlan)
      → pack_plan files args ≡ ok plan
      → build.file_of plan.out ≡ build.file_of plan.scram_path
      → plan.keep_source ≡ false
      → can_remove plan.scram_path ≡ true
      → IsLost plan (pack_of plan).result (
          run_pack deflate inflate hashes files join dir_of base_of glob scan_lines build can_remove
            args)
  unfolding run_plan pack_options
  run_pack-IsLost args plan e same drop able = rw (run_pack-plan args plan e) (
      after_pack-same_path build.file_of can_remove files plan (Unpackable plan [])
        (pack_container deflate inflate hashes files join dir_of base_of glob scan_lines build
          (pack_options plan))
        (pack_of plan).result (pack_of plan).output same drop able
        (pack-IsPacked deflate inflate hashes files join dir_of base_of glob scan_lines build
          (pack_options plan) []))
