-- ===== src/Examples/Cli.antt =====
-- The theorems on the command line at small inputs.
use miniscram.Common.{
  replicate, ◌++◌, Bool, ℕ, ◌≡◌, ◌↔◌, inl, inr, refl, arith, true, false, Option, none, some, List,
  [], ◌∷◌, codes, bytes_equal, if◌then◌else◌, ℤ, pos, negsuc, ◌+ℤ◌, ◌-ℤ◌, quot, ◌*ℤ◌, to_i32, ok,
  map, All,
}
use miniscram.Layout.{scram_offset}
use miniscram.Disc.{Manifest}
use miniscram.Text.{stem, has_byte, has_prefix}
use miniscram.Delta.{append, new_delta_encoder, append_all, close}
use miniscram.Container.File.{write_container, read_container}
use miniscram.Container.Stored.{stored}
use miniscram.Container.Rounds.{IsStorable}
use miniscram.Container.RoundTrip.{read_container-write_container}
use miniscram.Container.Offsets.{bin_first_lba}
use miniscram.Examples.{mark, unmark, hashed_manifest, hashed_manifest-IsStorable}
use miniscram.Examples.Unpack.{
  identity_hashes, in_place, no_directory, itself, one_bin, disk, split_lines, some_build,
}
use miniscram.Cli.Flags.{bool_flag, text_flag, FlagSet, kind_of}
use miniscram.Cli.Args.{arguments}
use miniscram.Cli.Scan.{reading, scan, arguments-scan}
use miniscram.Cli.Order.{
  Item, switch, joined, spaced, plain, IsItem, command_line, settings_of, positionals_of,
  arguments-command_line,
}
use miniscram.Unpack.Run.{UnpackOptions}
use miniscram.Cli.Plans.{PackPlan, pack_plan, unpack_options, verify_options}
use miniscram.Cli.Exits.{exits}
use miniscram.Cli.Commands.{run_pack, run_unpack, run_verify}
use miniscram.Cli.Sources.{IsLost, pack_of, run_pack-IsLost}
use miniscram.Cli.Agree.{status, ending_of, run_verify-run_unpack}
use miniscram.Cli.Inspect.{
  RecordOut, record_out, override_lba, override_line, inspect_file, newline,
}
use miniscram.Cli.Listing.{override_lba-scram_offset, inspect_file-write_container}

abbrev some_flags : FlagSet
some_flags = (codes "f", bool_flag) ∷ (codes "o", text_flag) ∷ []

abbrev mixed : List (List ℕ)
mixed = codes "a.cue" ∷ codes "-f=0" ∷ codes "--o" ∷ codes "-x" ∷ codes "--" ∷ codes "-z" ∷ []

arguments-scan_example : arguments some_flags mixed ≡ scan some_flags reading mixed
arguments-scan_example = arguments-scan some_flags mixed

abbrev written_out : List Item
written_out =
    plain (codes "a.cue")
    ∷ switch false (codes "f")
    ∷ spaced true (codes "o") (codes "-x")
    ∷ plain (codes "-")
    ∷ joined false (codes "o") (codes "y=z")
    ∷ []

written_out-IsItem : All (IsItem some_flags) written_out
unfolding kind_of has_byte has_prefix bytes_equal
written_out-IsItem = (
  inr refl,
  (((refl, refl), refl), (((refl, refl), refl), (inl (omega arith), (((refl, refl), refl), tt)))),
)

arguments-command_line_example :
    arguments some_flags (command_line written_out)
    ≡ ok (settings_of written_out, positionals_of written_out)
arguments-command_line_example = arguments-command_line some_flags written_out written_out-IsItem

-- A disc with an audio track, whose scram is of no use.
abbrev audio_sheet : List ℕ
audio_sheet =
    codes "FILE b BINARY"
    ++ (10 ∷ [])
    ++ codes "TRACK 1 AUDIO"
    ++ (10 ∷ [])
    ++ codes "INDEX 01 0:0:0"

abbrev audio_disk : List ℕ → Option (List ℕ)
audio_disk path =
    if bytes_equal path (codes "d.cue")
    then some audio_sheet
    else if bytes_equal path (codes "b")
    then some (replicate 2352 0)
    else if bytes_equal path (codes "d.scram")
    then some (1 ∷ 2 ∷ [])
    else none

abbrev anything : List ℕ → Bool
anything path = true

abbrev cleaning : List (List ℕ)
cleaning = codes "d.cue" ∷ codes "--remove-unused-scram" ∷ []

abbrev plan : List ℕ → Bool → PackPlan
plan output unused = record {
  cue_path = codes "d.cue";
  scram_path = codes "d.scram";
  out = output;
  keep_source = false;
  remove_unused = unused;
}

abbrev over_scram : List (List ℕ)
over_scram = codes "-f" ∷ codes "-o" ∷ codes "./d.scram" ∷ codes "d.cue" ∷ []

over_scram_read : pack_plan audio_disk over_scram ≡ ok (plan (codes "./d.scram") false)
unfolding pack_plan bytes_equal stem
over_scram_read = refl

run_pack-IsLost_example :
    IsLost
      (plan (codes "./d.scram") false)
      (pack_of mark unmark identity_hashes audio_disk in_place no_directory itself one_bin
        split_lines some_build anything
        (plan (codes "./d.scram") false)).result
      (run_pack mark unmark identity_hashes audio_disk in_place no_directory itself one_bin
        split_lines some_build anything over_scram)
unfolding has_prefix
run_pack-IsLost_example =
    run_pack-IsLost mark unmark identity_hashes audio_disk in_place no_directory itself one_bin
      split_lines some_build anything over_scram (plan (codes "./d.scram") false) over_scram_read
      refl refl refl

abbrev unpacking : List (List ℕ)
unpacking = codes "c" ∷ codes "-f" ∷ codes "--output" ∷ codes "o" ∷ []

abbrev unpacking_options : UnpackOptions
unpacking_options = record {
  container_path = codes "c";
  output_path = codes "o";
  check_output = true;
  force = true;
  bin_path = [];
}

verifying_read : verify_options (codes "c" ∷ []) ≡ ok (codes "c", [])
unfolding verify_options bytes_equal
verifying_read = refl

unpacking_read : unpack_options unpacking ≡ ok unpacking_options
unfolding unpack_options bytes_equal stem
unpacking_read = refl

run_verify-run_unpack_example :
    (status (
        run_verify mark unmark identity_hashes disk in_place no_directory itself one_bin split_lines
          some_build anything
          (codes "c" ∷ []))
      ≡ 0)
    ↔ (status (
          ending_of (
            run_unpack mark unmark identity_hashes disk in_place no_directory itself one_bin
              split_lines some_build anything unpacking))
        ≡ 0)
run_verify-run_unpack_example =
    run_verify-run_unpack mark unmark identity_hashes disk in_place no_directory itself one_bin
      split_lines some_build anything (codes "c" ∷ []) unpacking (codes "c") [] (codes "o")
      verifying_read unpacking_read

-- A byte of the sector at LBA 16.
byte_of_sector : pos 106230435 ≡ scram_offset (pos 16) (pos 0) +ℤ pos 3
unfolding scram_offset ◌+ℤ◌ ◌*ℤ◌ to_i32 ◌-ℤ◌
byte_of_sector = refl

override_lba-scram_offset_example : override_lba [] 106230435 ≡ (pos 16 -ℤ negsuc 45149) +ℤ pos 0
unfolding ◌-ℤ◌ bin_first_lba
override_lba-scram_offset_example =
    override_lba-scram_offset [] (pos 16) 106230435 3 (omega arith) (omega arith, omega arith)
      (omega arith) byte_of_sector

abbrev one_record : List (ℕ × List ℕ)
one_record = (5, 1 ∷ 2 ∷ []) ∷ []

abbrev one_delta : List ℕ
one_delta = (close (append_all new_delta_encoder one_record)).0

one_delta-IsStorable : IsStorable mark hashed_manifest one_delta
unfolding close append_all append
one_delta-IsStorable = hashed_manifest-IsStorable one_delta (omega arith)

listed_file :
    (file : List ℕ) × (write_container mark hashed_manifest one_delta ≡ ok file)
    × (read_container unmark file ≡ ok (stored hashed_manifest, one_delta))
listed_file =
    read_container-write_container mark unmark hashed_manifest one_delta refl one_delta-IsStorable

abbrev only_file : List ℕ → Option (List ℕ)
only_file path = some listed_file.0

abbrev no_text : ℤ → List ℕ
no_text time = []

abbrev as_given : List (ℕ × ℕ) → List (ℕ × ℕ)
as_given rs = rs

abbrev offsets : Manifest → List RecordOut → List ℕ
offsets m rs = map (λ (r : RecordOut). r.byte_offset) rs

inspect_file-write_container_example :
    inspect_file no_text as_given offsets unmark only_file true true (codes "c")
    ≡ (exits 0, 5 ∷ newline)
unfolding record_out
inspect_file-write_container_example =
    inspect_file-write_container no_text as_given offsets mark unmark only_file hashed_manifest
      one_record true (codes "c") listed_file.0 refl one_delta-IsStorable
      ((omega arith, omega arith, omega arith), tt) (omega arith) listed_file.1 refl

-- A line of `inspect --full`.
listed_line :
    override_line [] (23456, 4) ≡ codes "  byte_offset=23456        length=4     lba=9" ++ newline
unfolding override_line quot bin_first_lba ◌+ℤ◌
listed_line = refl
