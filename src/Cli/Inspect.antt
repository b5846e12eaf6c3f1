-- ===== src/Cli/Inspect.antt =====
-- inspect.go: the listing of a container. `utc` is the text of a time, `sort_records` is
-- `sort.Slice` by the offset, which is not stable, and `marshal` is `json.Marshal`. The text is
-- ASCII.
use miniscram.Common.{
  ℕ, zero, suc, ◌+◌, ◌/◌, ◌%◌, ◌^◌, Bool, true, false, Option, none, some, List, [], ◌∷◌, ◌++◌, map,
  length, ltb, if◌then◌else◌, codes, ℤ, pos, negsuc, ◌+ℤ◌, quot, signed_word, Result, ok, err,
}
use miniscram.Layout.{sector_size}
use miniscram.Disc.{Track, Manifest}
use miniscram.Text.{is_empty}
use miniscram.Delta.{IterError, iterate_delta_records}
use miniscram.Delta.Readers.{visit}
use miniscram.Container.Offsets.{bin_first_lba}
use miniscram.Container.File.{ContainerError, container_magic, container_version, read_container}
use miniscram.Cli.Flags.{FlagSet, bool_flag, bool_var}
use miniscram.Cli.Args.{exit_ok, exit_io, parse_subcommand, require_one_positional}
use miniscram.Cli.Exits.{Ending, exits, container_exit}

-- A number in decimal, with at most 20 digits, which is what 64 bits need.
unfoldable pub digits_of : ℕ → ℕ → List ℕ
digits_of zero n = []
digits_of (suc k) n = elim (ltb n 10) [
  | true ↦ (48 + n) ∷ []
  | false ↦ digits_of k (n / 10) ++ ((48 + n % 10) ∷ [])
]

unfoldable pub decimal : ℕ → List ℕ
unfolding digits_of
decimal n = digits_of 20 n

unfoldable pub decimal_ℤ : ℤ → List ℕ
unfolding decimal
decimal_ℤ (pos n) = decimal n
decimal_ℤ (negsuc n) = 45 ∷ decimal (suc n)

-- Blanks behind a text that is shorter than the width.
unfoldable pub padded : ℕ → List ℕ → List ℕ
padded zero s = s
padded (suc n) [] = 32 ∷ padded n []
padded (suc n) (c ∷ s) = c ∷ padded n s

abbrev pub newline : List ℕ
newline = 10 ∷ []

unfoldable pub field : List ℕ → List ℕ → List ℕ
field label value = label ++ value ++ newline

unfoldable pub max_mode : ℕ → List Track → ℕ
max_mode n [] = n
max_mode n (t ∷ ts) = max_mode (if ltb n (length t.mode) then length t.mode else n) ts

unfoldable pub track_lines : ℕ → List Track → List ℕ
unfolding decimal_ℤ padded field
track_lines width [] = []
track_lines width (t ∷ ts) =
    (codes "  track "
      ++ decimal_ℤ t.number
      ++ codes ": "
      ++ padded width t.mode
      ++ codes "  first_lba="
      ++ decimal_ℤ t.first_lba
      ++ codes "  size="
      ++ decimal_ℤ t.size
      ++ codes "  filename="
      ++ t.filename
      ++ newline)
    ++ field (codes "    md5:    ") t.hashes.md5
    ++ field (codes "    sha1:   ") t.hashes.sha1
    ++ field (codes "    sha256: ") t.hashes.sha256
    ++ track_lines width ts

-- The LBA of an override: the offset is converted to a signed number of 64 bits.
unfoldable pub override_lba : List Track → ℕ → ℤ
unfolding quot bin_first_lba
override_lba tracks off = quot (signed_word (2 ^ 64) off) sector_size +ℤ bin_first_lba tracks

-- The offsets and lengths, their number and the error.
unfoldable pub listed : List ℕ → List (ℕ × ℕ) × ℕ × Option (IterError (Unit {0}))
unfolding iterate_delta_records
listed delta = iterate_delta_records visit delta []

unfoldable pub override_line : List Track → ℕ × ℕ → List ℕ
unfolding decimal padded override_lba decimal_ℤ
override_line tracks (off, len) =
    codes "  byte_offset="
    ++ padded 12 (decimal off)
    ++ codes " length="
    ++ padded 5 (decimal len)
    ++ codes " lba="
    ++ decimal_ℤ (override_lba tracks off)
    ++ newline

unfoldable pub override_lines : List Track → List (ℕ × ℕ) → List ℕ
unfolding override_line
override_lines tracks [] = []
override_lines tracks (r ∷ rs) = override_line tracks r ++ override_lines tracks rs

pub record RecordOut : Type 0 where
  pub byte_offset : ℕ
  pub len : ℕ
  pub lba : ℤ

unfoldable pub record_out : List Track → ℕ × ℕ → RecordOut
unfolding override_lba
record_out tracks (off, len) = record {
  byte_offset = off;
  len = len;
  lba = override_lba tracks off;
}

unfoldable pub inspect_flags : FlagSet
inspect_flags = (codes "full", bool_flag) ∷ (codes "json", bool_flag) ∷ []

module _ (utc : ℤ → List ℕ) (sort_records : List (ℕ × ℕ) → List (ℕ × ℕ))
    (marshal : Manifest → List RecordOut → List ℕ) where
  unfoldable pub manifest_lines : Manifest → List ℕ
  unfolding field decimal decimal_ℤ
  manifest_lines m =
      (codes "container:  "
        ++ container_magic
        ++ codes " v"
        ++ decimal container_version
        ++ newline)
      ++ codes "manifest:"
      ++ newline
      ++ field (codes "  tool_version:           ") m.tool_version
      ++ field (codes "  created_utc:            ") (utc m.created_unix)
      ++ field (codes "  write_offset_bytes:     ") (decimal_ℤ m.write_offset_bytes)
      ++ field (codes "  leadin_lba:             ") (decimal_ℤ m.leadin_lba)
      ++ field (codes "  scram.size:             ") (decimal_ℤ m.scram.size)
      ++ field (codes "  scram.hashes.md5:       ") m.scram.hashes.md5
      ++ field (codes "  scram.hashes.sha1:      ") m.scram.hashes.sha1
      ++ field (codes "  scram.hashes.sha256:    ") m.scram.hashes.sha256

  unfoldable pub override_block : Bool → Manifest → List (ℕ × ℕ) → List ℕ
  unfolding override_lines is_empty
  override_block false m records = []
  override_block true m [] = []
  override_block true m (r ∷ rs) =
      codes "overrides:" ++ newline ++ override_lines m.tracks (sort_records (r ∷ rs))

  -- `formatHumanInspect`: the text, complete or not, and the error.
  unfoldable pub format_human_inspect :
      Manifest → List ℕ → Bool → List ℕ × Option (IterError (Unit {0}))
  unfolding manifest_lines track_lines max_mode field listed override_block decimal
  format_human_inspect m delta full =
      let (records, count, failure) = listed delta in
      (
        manifest_lines m
            ++ codes "tracks:"
            ++ newline
            ++ track_lines (max_mode 0 m.tracks) m.tracks
            ++ codes "delta:"
            ++ newline
            ++ field (codes "  override_records:       ") (decimal count)
            ++ override_block full m records,
        failure,
      )

  unfoldable pub json_of :
      Manifest
      → List (ℕ × ℕ) × ℕ × Option (IterError (Unit {0}))
      → Result (IterError (Unit {0})) (List ℕ)
  unfolding record_out
  json_of m (records, count, some e) = err e
  json_of m (records, count, none) = ok (marshal m (map (record_out m.tracks) records))

  -- `formatJSONInspect`.
  unfoldable pub format_json_inspect : Manifest → List ℕ → Result (IterError (Unit {0})) (List ℕ)
  unfolding listed json_of
  format_json_inspect m delta = json_of m (listed delta)

  unfoldable pub json_printed : Result (IterError (Unit {0})) (List ℕ) → Ending × List ℕ
  json_printed (err e) = (exits exit_io, [])
  json_printed (ok body) = (exits exit_ok, body ++ newline)

  -- What `runInspect` does with a container: the ending and what is printed to the output.
  unfoldable pub inspected : Bool → Bool → Manifest × List ℕ → Ending × List ℕ
  unfolding format_human_inspect format_json_inspect json_printed
  inspected full true (m, delta) = json_printed (format_json_inspect m delta)
  inspected full false (m, delta) =
      let (human, failure) = format_human_inspect m delta full in
      elim failure [ none ↦ (exits exit_ok, human) | some e ↦ (exits exit_io, human) ]

  unfoldable pub inspect_opened :
      Bool → Bool → Result ContainerError (Manifest × List ℕ) → Ending × List ℕ
  unfolding inspected container_exit
  inspect_opened full as_json (err e) = (container_exit e, [])
  inspect_opened full as_json (ok opened) = inspected full as_json opened

  module _ (inflate : List ℕ → Option (List ℕ)) (files : List ℕ → Option (List ℕ)) where
    unfoldable pub inspect_content : Bool → Bool → Option (List ℕ) → Ending × List ℕ
    unfolding read_container inspect_opened
    inspect_content full as_json none = (exits exit_io, [])
    inspect_content full as_json (some content) =
        inspect_opened full as_json (read_container inflate content)

    unfoldable pub inspect_file : Bool → Bool → List ℕ → Ending × List ℕ
    unfolding inspect_content
    inspect_file full as_json path = inspect_content full as_json (files path)

    -- `runInspect`.
    unfoldable pub run_inspect : List (List ℕ) → Ending × List ℕ
    unfolding parse_subcommand inspect_flags require_one_positional bool_var inspect_file
    run_inspect args = elim (parse_subcommand inspect_flags args) [
      | err code ↦ (exits code, [])
      | ok parsed ↦ elim (require_one_positional parsed.positional) [
        | err code ↦ (exits code, [])
        | ok path ↦
            inspect_file (bool_var (codes "full") parsed.settings)
              (bool_var (codes "json") parsed.settings) path
      ]
    ]
