-- ===== src/Examples/Cue.antt =====
-- The theorems on cue sheets at a small sheet.
use miniscram.Common.{
  ℕ, ◌*◌, ◌≡◌, refl, arith, Bool, false, Option, some, List, [], ◌∷◌, ◌++◌, map, codes, pos,
  add_i32, to_i32, ◌+ℤ◌, ok,
}
use miniscram.Disc.{Track, no_hashes}
use miniscram.Text.{
  split, index, trim_space, fields, to_upper, has_prefix, trim_prefix, trim_suffix, has_byte, atoi,
  equal_fold,
}
use miniscram.Cue.Parse.{parse_cue}
use miniscram.Cue.Steps.{IsOutput}
use miniscram.Cue.Tracks.{parse_cue-IsOutput}
use miniscram.Cue.Resolve.{
  CueResolved, ResolvedFile, resolve_cue, unlocated, Consecutive, resolve_cue-IsResolved,
}

-- Lines without a return at the end and below the scanner's limit.
abbrev simple_lines : List ℕ → List (List ℕ) × Bool
simple_lines text = (split 10 text, false)

abbrev sheet : List ℕ
sheet =
    codes "FILE a BINARY"
    ++ (10 ∷ [])
    ++ codes "TRACK 1 AUDIO"
    ++ (10 ∷ [])
    ++ codes "INDEX 01 0:0:0"

abbrev one_track : List Track
one_track =
    record {
      number = pos 1;
      session = 1;
      mode = codes "AUDIO";
      first_lba = pos 0;
      filename = codes "a";
      size = pos 0;
      hashes = no_hashes;
      file_offset = pos 0;
    }
    ∷ []

sheet_parsed : parse_cue simple_lines sheet ≡ ok one_track
unfolding parse_cue split index trim_space fields to_upper has_prefix trim_prefix trim_suffix
    has_byte atoi equal_fold
sheet_parsed = refl

parse_cue-IsOutput_example : IsOutput one_track
parse_cue-IsOutput_example = parse_cue-IsOutput simple_lines sheet one_track sheet_parsed

-- Every file has two sectors.
abbrev two_sectors : List ℕ → Option ℕ
two_sectors path = some (2 * 2352)

abbrev in_directory : List ℕ → List ℕ
in_directory name = codes "/d/" ++ name

abbrev sheet_resolved : CueResolved
sheet_resolved = record {
  tracks = map (λ (t : Track). record t { size = pos 4704 }) one_track;
  files = record { path = codes "/d/a"; size = 4704 } ∷ [];
}

sheet_resolves : resolve_cue in_directory two_sectors simple_lines (some sheet) ≡ ok sheet_resolved
unfolding resolve_cue split index trim_space fields to_upper has_prefix trim_prefix trim_suffix
    has_byte atoi equal_fold add_i32 to_i32 ◌+ℤ◌
sheet_resolves = refl

resolve_cue-IsResolved_example :
    (ts : List Track) × (parse_cue simple_lines sheet ≡ ok ts)
    × (map unlocated sheet_resolved.tracks ≡ map unlocated ts)
    × (map (λ (f : ResolvedFile). f.path) sheet_resolved.files
        ≡ map (λ (t : Track). in_directory t.filename) ts)
    × Consecutive 0 sheet_resolved.tracks sheet_resolved.files
resolve_cue-IsResolved_example =
    resolve_cue-IsResolved in_directory two_sectors simple_lines sheet sheet_resolved sheet_resolves
      (omega arith)
