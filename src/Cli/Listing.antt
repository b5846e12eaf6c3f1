-- ===== src/Cli/Listing.antt =====
-- inspect.go: the override records that `runInspect` lists.
use miniscram.Common.{
  ℕ, ◌+◌, ◌-◌, ◌*◌, ◌/◌, ◌^◌, ◌<◌, ◌≡◌, refl, sym, ◌∙◌, ap, Bool, true, Option, none, some, List,
  ◌++◌, map, length, All, ℤ, pos, ◌+ℤ◌, ◌-ℤ◌, ◌≤ℤ◌, pos_part, neg_part, eq_of_parts, pos-+ℤ-pos,
  pos-*ℤ, to_i32_fits, FitsI32, quot-pos, ltb, lt→ltb, -ℤ_parts, arith, ok, ok-injective,
}
use mathlib.Core.Path.{subst}
use miniscram.Layout.{lba_leadin_start, sector_size, scram_offset}
use miniscram.Disc.{Track, Manifest}
use miniscram.Delta.{IterError, new_delta_encoder, append_all, close}
use miniscram.Delta.Readers.{shape, iterate_delta_records-append_all}
use miniscram.Delta.RoundTrip.{IsWritable}
use miniscram.Container.File.{write_container, read_container}
use miniscram.Container.Stored.{stored}
use miniscram.Container.Rounds.{IsStorable}
use miniscram.Container.RoundTrip.{read_container-write_container}
use miniscram.Container.Offsets.{bin_first_lba}
use miniscram.Cli.Args.{exit_ok}
use miniscram.Cli.Exits.{exits}
use miniscram.Cli.Inspect.{
  json_of, json_printed, inspect_opened, inspect_content, override_lba, RecordOut, record_out,
  listed, format_json_inspect, inspected, inspect_file, newline,
}

-- The distance from the start of the lead-in.
from_leadin : (lba : ℤ) → lba_leadin_start ≤ℤ lba → (n : ℕ) × (lba -ℤ lba_leadin_start ≡ pos n)
from_leadin lba h = (
  pos_part lba + 45150 - neg_part lba,
  eq_of_parts (lba -ℤ lba_leadin_start) (pos (pos_part lba + 45150 - neg_part lba))
      (omega (arith, -ℤ_parts lba lba_leadin_start, h)),
)

scram_offset-sector :
    (lba : ℤ) (n : ℕ)
    → lba -ℤ lba_leadin_start ≡ pos n
    → FitsI32 (pos n)
    → scram_offset lba (pos 0) ≡ pos (n * sector_size)
unfolding scram_offset
scram_offset-sector lba n e h =
    rw (e, to_i32_fits (pos n) h, pos-*ℤ n sector_size, pos-+ℤ-pos (n * sector_size) 0)
      (ap (λ (m : ℕ). pos m) (omega arith))

offset_lba :
    (tracks : List Track) (off n k : ℕ)
    → off ≡ n * sector_size + k
    → k < sector_size
    → n < 2 ^ 31
    → override_lba tracks off ≡ pos n +ℤ bin_first_lba tracks
unfolding override_lba
offset_lba tracks off n k e h small =
    let low : ltb off (2 ^ 64 / 2) ≡ true = lt→ltb off (2 ^ 64 / 2) (omega arith) in
    let place : off / sector_size ≡ n = omega arith in
    rw (low, quot-pos off sector_size, place) refl

-- For a byte of the sector at an LBA from the start of the lead-in on, in a scram without a write
-- offset, the LBA that is listed is the distance of the sector from the start of the lead-in, at
-- LBA -45150, plus the first track's LBA.
pub override_lba-scram_offset :
    (tracks : List Track) (lba : ℤ) (off k : ℕ)
    → lba_leadin_start ≤ℤ lba
    → FitsI32 (lba -ℤ lba_leadin_start)
    → k < sector_size
    → pos off ≡ scram_offset lba (pos 0) +ℤ pos k
    → override_lba tracks off ≡ (lba -ℤ lba_leadin_start) +ℤ bin_first_lba tracks
override_lba-scram_offset tracks lba off k from fits inside at =
    let (n, e) = from_leadin lba from in
    let small : FitsI32 (pos n) = subst FitsI32 e fits in
    let start : scram_offset lba (pos 0) ≡ pos (n * sector_size) =
      scram_offset-sector lba n e small in
    let place : pos off ≡ pos (n * sector_size + k) =
      at ∙ ap (λ (z : ℤ). z +ℤ pos k) start ∙ pos-+ℤ-pos (n * sector_size) k in
    rw e (offset_lba tracks off n k (ap pos_part place) inside (omega (arith, small)))

module _ (utc : ℤ → List ℕ) (sort_records : List (ℕ × ℕ) → List (ℕ × ℕ))
    (marshal : Manifest → List RecordOut → List ℕ) where
  listed-append_all :
      (rs : List (ℕ × List ℕ))
      → All IsWritable rs
      → length rs < 2 ^ 32
      → listed (close (append_all new_delta_encoder rs)).0 ≡ (map shape rs, length rs, none)
  unfolding listed
  listed-append_all rs h few = iterate_delta_records-append_all rs h few

  inspected-json :
      (m : Manifest) (rs : List (ℕ × List ℕ)) (full : Bool)
      → All IsWritable rs
      → length rs < 2 ^ 32
      → inspected utc sort_records marshal full true
          (m, (close (append_all new_delta_encoder rs)).0)
        ≡ (exits exit_ok, marshal m (map (record_out m.tracks) (map shape rs)) ++ newline)
  unfolding inspected format_json_inspect json_printed json_of
  inspected-json m rs full h few =
      ap
        (λ (l : List (ℕ × ℕ) × ℕ × Option (IterError (Unit {0}))).
          json_printed utc sort_records marshal (json_of utc sort_records marshal m l))
        (listed-append_all rs h few)

  -- `miniscram inspect --json` of a file that `WriteContainer` has written with the delta of some
  -- records, the manifest and the delta fitting their chunks and the records being within the
  -- bounds of the encoder, ends with 0 and prints the JSON of the stored manifest and of the
  -- offset, length and LBA of every record, in their order.
  pub inspect_file-write_container :
      (deflate : List ℕ → List ℕ) (inflate files : List ℕ → Option (List ℕ)) (m : Manifest)
      (rs : List (ℕ × List ℕ)) (full : Bool) (path file : List ℕ)
      → inflate (deflate (close (append_all new_delta_encoder rs)).0)
        ≡ some (close (append_all new_delta_encoder rs)).0
      → IsStorable deflate m (close (append_all new_delta_encoder rs)).0
      → All IsWritable rs
      → length rs < 2 ^ 32
      → write_container deflate m (close (append_all new_delta_encoder rs)).0 ≡ ok file
      → files path ≡ some file
      → inspect_file utc sort_records marshal inflate files full true path ≡ (
        exits exit_ok,
        marshal (stored m) (map (record_out (stored m).tracks) (map shape rs)) ++ newline,
      )
  unfolding inspect_file inspect_content inspect_opened
  inspect_file-write_container deflate inflate files m rs full path file back storable h few wrote
        there =
      let (file', wrote', read) =
        read_container-write_container deflate inflate m (close (append_all new_delta_encoder rs)).0
          back storable in
      let same : file' ≡ file = ok-injective (sym wrote' ∙ wrote) in
      let read' : read_container inflate file
          ≡ ok (stored m, (close (append_all new_delta_encoder rs)).0) =
        subst
          (λ (f : List ℕ).
            read_container inflate f ≡ ok (stored m, (close (append_all new_delta_encoder rs)).0))
          same read in
      ap (inspect_content utc sort_records marshal inflate files full true) there
      ∙ ap (inspect_opened utc sort_records marshal full true) read'
      ∙ inspected-json (stored m) rs full h few
