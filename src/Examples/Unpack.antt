-- ===== src/Examples/Unpack.antt =====
-- The theorems on unpacking and packing at small inputs.
use miniscram.Common.{
  replicate, drop, ◌++◌, Bool, false, ℕ, ◌≡◌, ◌≢◌, ap, ◌↔◌, refl, arith, true, false, Option, none,
  some, List, [], ◌∷◌, codes, bytes_equal, if◌then◌else◌, ℤ, pos, ◌+ℤ◌, add_i64, to_i64, Result, ok,
  err,
}
use miniscram.Disc.{FileHashes, Track, no_hashes}
use miniscram.Container.File.{write_container}
use miniscram.Examples.{mark, unmark, hashed_manifest, some_hashes}
use miniscram.Unpack.Source.{Source, use_single}
use miniscram.Unpack.Run.{UnpackOptions, UnpackError, Output, files_left, unpack, predicted, verify}
use miniscram.Unpack.Checks.{verify-unpack}
use miniscram.Unpack.Outputs.{IsConsistent, unpack-IsConsistent}
use miniscram.Unpack.Single.{all_bytes, use_single-all_bytes}
use miniscram.Layout.{sync, lba_to_bcd_msf}
use miniscram.Text.{split, has_prefix}
use miniscram.Pack.Sync.{masked_header}
use miniscram.Pack.Run.{PackOptions, Build, pack_container, pack}
use miniscram.Pack.Verified.{IsPacked, Unpacks, pack-IsPacked}

-- A stand-in for the digests: the bytes themselves.
abbrev pub identity_hashes : List ℕ → FileHashes
identity_hashes bytes = record { md5 = bytes; sha1 = bytes; sha256 = bytes }

abbrev pub container : List ℕ
container = elim (write_container mark hashed_manifest (1 ∷ 2 ∷ [])) [ ok file ↦ file | err e ↦ [] ]

-- A directory with the container c and the bin file b.
abbrev pub disk : List ℕ → Option (List ℕ)
disk path =
    if bytes_equal path (98 ∷ [])
    then some (1 ∷ 2 ∷ 3 ∷ [])
    else if bytes_equal path (99 ∷ [])
    then some container
    else none

abbrev pub in_place : List ℕ → List ℕ → List ℕ
in_place dir name = name

abbrev pub no_directory : List ℕ → List ℕ
no_directory path = []

abbrev pub itself : List ℕ → List ℕ
itself path = path

abbrev pub one_bin : List ℕ → List (List ℕ)
one_bin dir = (98 ∷ []) ∷ []

abbrev options : UnpackOptions
options = record {
  container_path = 99 ∷ [];
  output_path = 111 ∷ [];
  check_output = true;
  force = false;
  bin_path = [];
}

abbrev pub entry_of : List ℕ → List ℕ
entry_of path = if has_prefix path (codes "./") then drop 2 path else path

-- A container of ten bytes, whose delta has a record and the beginning of another, and its bin.
abbrev short_delta : List ℕ
short_delta =
    (0 ∷ 0 ∷ 0 ∷ 2 ∷ [])
    ++ (0 ∷ 0 ∷ 0 ∷ 0 ∷ 0 ∷ 0 ∷ 0 ∷ 1 ∷ 0 ∷ 0 ∷ 0 ∷ 2 ∷ 8 ∷ 9 ∷ [])
    ++ (0 ∷ 0 ∷ [])

abbrev short_container : List ℕ
short_container =
    elim (write_container mark
      (record hashed_manifest {
        leadin_lba = pos 0;
        scram = record { size = pos 10; hashes = some_hashes };
      })
      short_delta) [ ok file ↦ file | err e ↦ [] ]

abbrev short_disk : List ℕ → Option (List ℕ)
short_disk path =
    if bytes_equal path (98 ∷ [])
    then some (replicate 2352 7)
    else if bytes_equal path (99 ∷ [])
    then some short_container
    else none

abbrev same_digests : List ℕ → FileHashes
same_digests bytes = some_hashes

abbrev stopped : Result UnpackError (Unit {0}) × Output
stopped =
    let o = unpack unmark same_digests short_disk in_place no_directory itself one_bin options in
    (o.result, o.output)

other_entry : entry_of (98 ∷ []) ≢ entry_of (111 ∷ [])
unfolding bytes_equal has_prefix
other_entry e =
    let no : false ≡ true = ap (λ (path : List ℕ). bytes_equal path (111 ∷ [])) e in absurd cc

unpack-IsConsistent_example :
    IsConsistent same_digests true
      (111 ∷ [])
      (predicted unmark same_digests short_disk in_place no_directory itself one_bin options)
      short_disk
      (files_left entry_of (111 ∷ []) stopped.1 short_disk)
      stopped.0
    × (files_left entry_of (111 ∷ []) stopped.1 short_disk (98 ∷ []) ≡ short_disk (98 ∷ []))
unpack-IsConsistent_example =
    unpack-IsConsistent unmark same_digests short_disk in_place no_directory itself one_bin entry_of
      options (98 ∷ []) other_entry

verify-unpack_example :
    (verify unmark identity_hashes disk in_place no_directory itself one_bin (99 ∷ []) [] (116 ∷ [])
      ≡ ok tt)
    ↔ ((unpack unmark identity_hashes disk in_place no_directory itself one_bin
          (record options { force = true })).result
        ≡ ok tt)
verify-unpack_example =
    verify-unpack unmark identity_hashes disk in_place no_directory itself one_bin (99 ∷ []) []
      (116 ∷ []) (111 ∷ [])

abbrev sized_track : ℤ → Track
sized_track size = record {
  number = pos 1;
  session = 1;
  mode = codes "AUDIO";
  first_lba = pos 0;
  filename = codes "gone";
  size = size;
  hashes = no_hashes;
  file_offset = pos 0;
}

abbrev shared : Source
shared = record {
  dir = [];
  paths = (98 ∷ []) ∷ [];
  tracks =
      (record (sized_track (pos 2)) { filename = 98 ∷ [] })
      ∷ (record (sized_track (pos 1)) { filename = 98 ∷ []; file_offset = pos 2 })
      ∷ [];
}

shared_used :
    use_single disk in_place no_directory itself one_bin
      (98 ∷ [])
      (sized_track (pos 2) ∷ sized_track (pos 1) ∷ [])
    ≡ ok shared
unfolding use_single add_i64 ◌+ℤ◌ to_i64 bytes_equal
shared_used = refl

use_single-all_bytes_example :
    (content : List ℕ) × (disk (98 ∷ []) ≡ some content)
    × (shared.paths ≡ (98 ∷ []) ∷ [])
    × (all_bytes disk in_place no_directory itself one_bin [] shared.tracks ≡ ok content)
use_single-all_bytes_example =
    use_single-all_bytes disk in_place no_directory itself one_bin (98 ∷ [])
      (sized_track (pos 2) ∷ sized_track (pos 1) ∷ []) shared shared_used refl
      (omega arith, (omega arith, tt)) (omega arith)

-- A cue sheet q with a data track of one sector, and a scram s that begins with a sync field.
abbrev data_sheet : List ℕ
data_sheet =
    codes "FILE b BINARY"
    ++ (10 ∷ [])
    ++ codes "TRACK 1 MODE1/2352"
    ++ (10 ∷ [])
    ++ codes "INDEX 01 0:0:0"

abbrev pack_disk : List ℕ → Option (List ℕ)
pack_disk path =
    if bytes_equal path (codes "q")
    then some data_sheet
    else if bytes_equal path (codes "b")
    then some (replicate 2352 0)
    else if bytes_equal path (codes "s")
    then some (sync ++ masked_header (lba_to_bcd_msf (pos 12000)) ++ replicate 2337 0)
    else none

abbrev pub split_lines : List ℕ → List (List ℕ) × Bool
split_lines text = (split 10 text, false)

abbrev pack_options : PackOptions
pack_options = record {
  cue_path = codes "q";
  scram_path = codes "s";
  output_path = codes "c";
  leadin_lba = pos 12000;
}

abbrev pub some_build : Build
some_build = record {
  tool_version = codes "dev";
  now = pos 0;
  temporary = codes "t";
  file_of = entry_of;
}

pack-IsPacked_example :
    IsPacked
      (Unpacks mark unmark identity_hashes pack_disk in_place no_directory itself one_bin
        split_lines some_build pack_options
        (codes "o"))
      (pack_container mark unmark identity_hashes pack_disk in_place no_directory itself one_bin
        split_lines some_build pack_options)
      (pack mark unmark identity_hashes pack_disk in_place no_directory itself one_bin split_lines
        some_build pack_options)
pack-IsPacked_example =
    pack-IsPacked mark unmark identity_hashes pack_disk in_place no_directory itself one_bin
      split_lines some_build pack_options (codes "o")
