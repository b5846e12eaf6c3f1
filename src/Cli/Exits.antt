-- ===== src/Cli/Exits.antt =====
-- main.go: `errToExit`, on the errors of `Pack`, `Unpack` and `Verify`.
use miniscram.Common.{ℕ, Bool, if◌then◌else◌, Result, ok, err}
use miniscram.Builder.Build.{BuildError, panicked}
use miniscram.Container.File.{ContainerError}
use miniscram.Unpack.Source.{SourceError}
use miniscram.Unpack.Run.{UnpackError, bad_container, bad_source, not_built, output_differs}
use miniscram.Pack.Run.{
  PackFailure, not_hashed, build_failed, layout_mismatch, bad_digest, verify_mismatch,
  is_bin_mismatch,
}
use miniscram.Cli.Args.{exit_ok, exit_layout, exit_verify_fail, exit_io, exit_wrong_bin}

-- How a command ends: with an exit code, or by a panic.
pub data Ending : Type 0 where
  exits : ℕ → Ending
  crashes : Ending

unfoldable pub build_exit : BuildError → Ending
build_exit panicked = crashes
build_exit _ = exits exit_io

unfoldable pub container_exit : ContainerError → Ending
container_exit ContainerError.panicked = crashes
container_exit _ = exits exit_io

unfoldable pub source_exit : SourceError → Ending
unfolding is_bin_mismatch
source_exit e = exits (if is_bin_mismatch (bad_source e) then exit_wrong_bin else exit_io)

-- An error of `Unpack` or `Verify`.
unfoldable pub unpack_exit : UnpackError → Ending
unfolding build_exit container_exit source_exit
unpack_exit (bad_container e) = container_exit e
unpack_exit (bad_source e) = source_exit e
unpack_exit (not_built e) = build_exit e
unpack_exit output_differs = exits exit_verify_fail
unpack_exit _ = exits exit_io

-- An error that wraps `errVerifyMismatch` and an error of `Verify`, after that one's ending.
unfoldable pub mismatch_exit : Bool → Ending → Ending
mismatch_exit bin crashes = crashes
mismatch_exit bin (exits code) = exits (if bin then exit_wrong_bin else exit_verify_fail)

unfoldable pub pack_exit : PackFailure → Ending
unfolding source_exit build_exit mismatch_exit is_bin_mismatch unpack_exit
pack_exit (not_hashed e) = source_exit e
pack_exit (build_failed e) = build_exit e
pack_exit (layout_mismatch lbas) = exits exit_layout
pack_exit (bad_digest p) = crashes
pack_exit (verify_mismatch e) = mismatch_exit (is_bin_mismatch e) (unpack_exit e)
pack_exit _ = exits exit_io

unfoldable pub unpacked_exit : Result UnpackError (Unit {0}) → Ending
unfolding unpack_exit
unpacked_exit (ok u) = exits exit_ok
unpacked_exit (err e) = unpack_exit e
