-- ===== src/Examples.antt =====
-- The theorems at small inputs.
pub mod Queue
pub mod Pack
pub mod Cue
pub mod Unpack
pub mod Cli
pub mod Runner
use miniscram.Common.{
  ok-injective, Option, drop, rem, ◌*ℤ◌, zero, suc, ℕ, ◌+◌, ◌*◌, ◌<◌, ◌≤◌, ◌≡◌, ◌≢◌, refl, ap,
  get_or, inr, All, put_be, put_be-IsByte, IsByte, arith, none, some, List, [], map, ◌∷◌, ◌++◌,
  length, replicate, take, ok, codes, ℤ, pos, negsuc, to_i32, ◌+ℤ◌, ◌-ℤ◌, ◌^◌,
}
use miniscram.Layout.{total_lbas, lba_to_bcd_msf, bcd_msf_to_lba, sector_size}
use miniscram.Layout.RoundTrip.{AllBcd, bcd_msf_to_lba-lba_to_bcd_msf, total_lbas_covers}
use miniscram.Delta.{
  apply_delta, append_all, new_delta_encoder, close, encode_delta, iterate_delta_records,
}
use miniscram.Delta.Patch.{patch}
use miniscram.Delta.RoundTrip.{apply_delta-append_all}
use miniscram.Delta.Encode.{encode_delta_round_trip}
use miniscram.Delta.Readers.{
  check_offset, visit, shape, is_ok, is_none, apply_delta-iterate_delta_records,
  iterate_delta_records-append_all,
}
use miniscram.Ecma.{scramble, crc_bytes, compute_edc}
use miniscram.Ecma.Descramble.{scramble-scramble}
use miniscram.Ecma.Check.{crc_bytes-compute_edc}
use miniscram.Builder.Regions.{region_at}
use miniscram.Builder.Build.{BuildParams, BuildResult, build_epsilon_hat}
use miniscram.Builder.Beside.{view}
use miniscram.Builder.RoundTrip.{build_epsilon_hat_round_trip}
use miniscram.Builder.Complete.{bin_needed, build_epsilon_hat_complete}
use miniscram.Builder.Reproduce.{
  IsPackable, rebuilt, rebuilt_lem, rebuilt_exactly, rebuilt_loses_head,
}
use miniscram.Disc.{FileHashes, Manifest, Track, no_hashes}
use miniscram.Chunks.Mfst.{
  scalars, encode_mfst_payload, decode_mfst_payload, decode_mfst_payload-encode_mfst_payload,
}
use miniscram.Chunks.Trks.{
  IsWireTrack, bare, encode_tracks, encode_trks_payload, decode_trks_payload,
  decode_trks_payload-encode_trks_payload,
}
use miniscram.Chunks.Sess.{
  with_sessions, encode_sessions, encode_sess_payload, decode_sess_payload,
  decode_sess_payload-encode_sess_payload,
}
use miniscram.Container.File.{read_container, write_container}
use miniscram.Container.Stored.{stored}
use miniscram.Container.Offsets.{assign_file_offsets, placed, assign_file_offsets-placed}
use miniscram.Pack.Sync.{
  masked_header, validate_sync_candidate, validate_sync_candidate-masked_header,
}
use miniscram.Container.Rounds.{IsStorable}
use miniscram.Container.RoundTrip.{read_container-write_container}
use miniscram.Chunks.Crc.{crc32}
use miniscram.Chunks.Hash.{
  encode_to_string, encode_hash_payload, emit_hashes, emit_tracks, hash_record, decode_string,
  from_hex_digit, hex_digit, decode_hash_payload,
}
use miniscram.Chunks.Digests.{IsHashes, blank, decode_hash_payload-encode_hash_payload}
use miniscram.Chunks.Frame.{
  IsFramable, chunk_length_cap, write_chunk, read_chunk, sess_tag, read_chunk-write_chunk,
  read_chunk-eq-ok,
}

apply_delta-iterate_delta_records_example :
    is_ok (apply_delta (5 ∷ []) (0 ∷ 0 ∷ 0 ∷ 1 ∷ 2 ∷ []))
    ≡ is_none (iterate_delta_records check_offset (0 ∷ 0 ∷ 0 ∷ 1 ∷ 2 ∷ []) tt).2
apply_delta-iterate_delta_records_example =
    apply_delta-iterate_delta_records (5 ∷ []) (0 ∷ 0 ∷ 0 ∷ 1 ∷ 2 ∷ [])

encode_delta_round_trip_example :
    (d : List ℕ × ℕ) × (encode_delta (1 ∷ 2 ∷ 3 ∷ []) (1 ∷ 5 ∷ 6 ∷ 7 ∷ []) 3 ≡ ok d)
    × (apply_delta (take 3 (1 ∷ 2 ∷ 3 ∷ [])) d.0 ≡ ok (take 3 (1 ∷ 5 ∷ 6 ∷ 7 ∷ [])))
encode_delta_round_trip_example =
    encode_delta_round_trip (1 ∷ 2 ∷ 3 ∷ []) (1 ∷ 5 ∷ 6 ∷ 7 ∷ []) 3 (omega arith) (omega arith)
      (omega arith)

bcd_msf_to_lba-lba_to_bcd_msf_example :
    AllBcd (lba_to_bcd_msf (pos 16)) × (bcd_msf_to_lba (lba_to_bcd_msf (pos 16)) ≡ pos 16)
bcd_msf_to_lba-lba_to_bcd_msf_example =
    bcd_msf_to_lba-lba_to_bcd_msf (pos 16) (omega arith) (omega arith)

total_lbas_covers_example :
    (n : ℕ) × (total_lbas (pos 5000) (negsuc 7) ≡ some (pos n))
    × (5000 + 8 ≤ n * sector_size + 0)
    × (n * sector_size + 0 < 5000 + 8 + sector_size)
total_lbas_covers_example = total_lbas_covers 5000 (negsuc 7) (omega arith) (omega arith)

crc_bytes-compute_edc_example : crc_bytes 0 ((1 ∷ 2 ∷ 3 ∷ []) ++ compute_edc (1 ∷ 2 ∷ 3 ∷ [])) ≡ 0
crc_bytes-compute_edc_example = crc_bytes-compute_edc (1 ∷ 2 ∷ 3 ∷ [])

-- A disc of one data track at LBA 0 whose first sector is at the disc's lead-in.
abbrev small_disc : ℤ → ℕ → BuildParams
small_disc offset size = record {
  leadin_lba = negsuc 45149;
  write_offset = offset;
  scram_size = pos size;
  tracks =
      record {
        number = pos 1;
        session = 1;
        mode = codes "MODE1/2352";
        first_lba = pos 0;
        filename = codes "a.bin";
        size = pos 4704;
        hashes = record { md5 = []; sha1 = []; sha256 = [] };
        file_offset = pos 0;
      }
      ∷ [];
  session_gaps = [];
}

abbrev small_scram : List ℕ
small_scram = 0 ∷ 5 ∷ 6 ∷ []

abbrev other_scram : List ℕ
other_scram = 9 ∷ 5 ∷ 6 ∷ []

leadin_only :
    (offset : ℤ) (size : ℕ) → 2352 * bin_needed (small_disc offset size) 1 (negsuc 45149) ≤ 0
unfolding region_at
leadin_only offset size = omega arith

small_disc-IsPackable : IsPackable (small_disc (pos 1) 3) [] small_scram 1
unfolding total_lbas to_i32 ◌+ℤ◌ ◌-ℤ◌
small_disc-IsPackable = record {
  scram = refl;
  offset = omega arith;
  small = omega arith;
  early = omega arith;
  leadin_low = omega arith;
  leadin_high = omega arith;
  counted = refl;
  covered = leadin_only (pos 1) 3;
}

other_disc-IsPackable : IsPackable (small_disc (pos 1) 3) [] other_scram 1
unfolding total_lbas to_i32 ◌+ℤ◌ ◌-ℤ◌
other_disc-IsPackable = record {
  scram = refl;
  offset = omega arith;
  small = omega arith;
  early = omega arith;
  leadin_low = omega arith;
  leadin_high = omega arith;
  counted = refl;
  covered = leadin_only (pos 1) 3;
}

small_disc_run :
    (r : BuildResult) × (build_epsilon_hat (small_disc (pos 1) 3) [] none ≡ ok r)
    × (length r.image ≡ 3)
unfolding total_lbas to_i32 ◌+ℤ◌ ◌-ℤ◌
small_disc_run =
    build_epsilon_hat_complete (small_disc (pos 1) 3) [] 3 1 refl (omega arith) (omega arith)
      (omega arith) (omega arith) (omega arith) refl (leadin_only (pos 1) 3)

build_epsilon_hat_complete_example :
    (r : BuildResult) × (build_epsilon_hat (small_disc (pos 0) 5) [] none ≡ ok r)
    × (length r.image ≡ 5)
unfolding total_lbas to_i32 ◌+ℤ◌ ◌-ℤ◌
build_epsilon_hat_complete_example =
    build_epsilon_hat_complete (small_disc (pos 0) 5) [] 5 1 refl (omega arith) (omega arith)
      (omega arith) (omega arith) (omega arith) refl (leadin_only (pos 0) 5)

build_epsilon_hat_round_trip_example :
    (r' : BuildResult) × (build_epsilon_hat (small_disc (pos 1) 3) [] (some small_scram) ≡ ok r')
    × (r'.image ≡ small_disc_run.0.image)
    × (r'.pass_throughs ≡ small_disc_run.0.pass_throughs)
    × (apply_delta small_disc_run.0.image (close (append_all new_delta_encoder r'.records)).0
        ≡ ok (view 1 small_scram (length small_disc_run.0.image)))
build_epsilon_hat_round_trip_example =
    build_epsilon_hat_round_trip (small_disc (pos 1) 3) [] small_scram 3 small_disc_run.0 refl
      (omega arith) (omega arith) (omega arith) small_disc_run.1

rebuilt_exactly_example :
    (r packed : BuildResult) × (build_epsilon_hat (small_disc (pos 1) 3) [] none ≡ ok r)
    × (build_epsilon_hat (small_disc (pos 1) 3) [] (some small_scram) ≡ ok packed)
    × (rebuilt r.image packed ≡ ok small_scram)
rebuilt_exactly_example =
    rebuilt_exactly (small_disc (pos 1) 3) [] small_scram 1 small_disc-IsPackable refl

other_scram_head : take 1 other_scram ≢ replicate 1 0
other_scram_head e = absurd (omega (arith, ap (λ t. get_or t 0 1) e))

rebuilt_loses_head_example :
    (r packed : BuildResult) × (build_epsilon_hat (small_disc (pos 1) 3) [] none ≡ ok r)
    × (build_epsilon_hat (small_disc (pos 1) 3) [] (some other_scram) ≡ ok packed)
    × (rebuilt r.image packed ≢ ok other_scram)
rebuilt_loses_head_example =
    rebuilt_loses_head (small_disc (pos 1) 3) [] other_scram 1 other_disc-IsPackable
      other_scram_head

abbrev two_tracks : List Track
two_tracks =
    (record {
      number = pos 1;
      session = 1;
      mode = codes "MODE1/2352";
      first_lba = negsuc 149;
      filename = codes "a.bin";
      size = pos 4704;
      hashes = no_hashes;
      file_offset = pos 0;
    })
    ∷ (record {
      number = pos 2;
      session = 2;
      mode = codes "AUDIO";
      first_lba = pos 11702;
      filename = codes "b.bin";
      size = pos 2352;
      hashes = no_hashes;
      file_offset = pos 0;
    })
    ∷ []

sess_tag-IsFramable : IsFramable sess_tag (0 ∷ 1 ∷ 1 ∷ [])
sess_tag-IsFramable = record {
  tag_length = refl;
  payload_length = omega arith;
  capped = inr (omega arith);
}

-- An empty chunk with its checksum.
abbrev empty_chunk : List ℕ
empty_chunk = codes "SESS" ++ (0 ∷ 0 ∷ 0 ∷ 0 ∷ put_be 4 (crc32 (codes "SESS")))

empty_chunk-IsByte : All IsByte empty_chunk
empty_chunk-IsByte = (
  omega arith,
  (
    omega arith,
    (
      omega arith,
      (
        omega arith,
        (
          omega arith,
          (omega arith, (omega arith, (omega arith, put_be-IsByte 4 (crc32 (codes "SESS"))))),
        ),
      ),
    ),
  ),
)

empty_chunk_read : read_chunk empty_chunk ≡ ok (sess_tag, [], [])
unfolding write_chunk
empty_chunk_read =
    read_chunk-write_chunk sess_tag [] []
      (record { tag_length = refl; payload_length = omega arith; capped = inr (omega arith) })

read_chunk-eq-ok_example : empty_chunk ≡ write_chunk sess_tag [] ++ []
read_chunk-eq-ok_example =
    read_chunk-eq-ok empty_chunk sess_tag [] [] empty_chunk-IsByte empty_chunk_read

-- A digest of `n` equal bytes.
abbrev zeros_hex : ℕ → List ℕ
zeros_hex n = encode_to_string (replicate n 171)

abbrev pub some_hashes : FileHashes
some_hashes = record { md5 = zeros_hex 16; sha1 = zeros_hex 20; sha256 = zeros_hex 32 }

abbrev hashed_manifest : Manifest
hashed_manifest = record {
  tool_version = codes "miniscram dev";
  created_unix = pos 1700000000;
  write_offset_bytes = pos 0;
  leadin_lba = negsuc 45149;
  scram = record { size = pos 117600; hashes = some_hashes };
  tracks =
      (record {
        number = pos 1;
        session = 1;
        mode = codes "AUDIO";
        first_lba = pos 0;
        filename = codes "a.bin";
        size = pos 2352;
        hashes = some_hashes;
        file_offset = pos 0;
      })
      ∷ [];
}

replicate-IsByte : (n : ℕ) → All IsByte (replicate n 171)
replicate-IsByte zero = tt
replicate-IsByte (suc n) = (omega arith, replicate-IsByte n)

some_hashes-IsHashes : IsHashes some_hashes
some_hashes-IsHashes = record {
  md5 = record {
    digest = replicate 16 171;
    whole = refl;
    in_bytes = replicate-IsByte 16;
    printed = refl;
  };
  sha1 = record {
    digest = replicate 20 171;
    whole = refl;
    in_bytes = replicate-IsByte 20;
    printed = refl;
  };
  sha256 = record {
    digest = replicate 32 171;
    whole = refl;
    in_bytes = replicate-IsByte 32;
    printed = refl;
  };
}

-- A stand-in for the compression: a mark in front of the bytes.
abbrev mark : List ℕ → List ℕ
mark bs = 120 ∷ bs

abbrev unmark : List ℕ → Option (List ℕ)
unmark [] = none
unmark (b ∷ bs) = some bs

hashed_payload_fits :
    (bs : List ℕ) → encode_hash_payload hashed_manifest ≡ ok bs → length bs ≤ chunk_length_cap
unfolding encode_hash_payload emit_hashes emit_tracks hash_record decode_string from_hex_digit
    encode_to_string hex_digit
hashed_payload_fits bs e = omega (arith, ap length (ok-injective e))

pub hashed_manifest-IsStorable :
    (delta : List ℕ) → length (mark delta) < 2 ^ 32 → IsStorable mark hashed_manifest delta
unfolding encode_mfst_payload encode_trks_payload encode_tracks encode_sess_payload encode_sessions
hashed_manifest-IsStorable delta fits = record {
  wire = record {
    version = omega arith;
    created = (omega arith, omega arith);
    offset = (omega arith, omega arith);
    leadin = (omega arith, omega arith);
    size = (omega arith, omega arith);
  };
  tracks = (
    record {
      number = (omega arith, omega arith);
      mode = omega arith;
      first_lba = (omega arith, omega arith);
      size = (omega arith, omega arith);
      filename = omega arith;
    },
    tt,
  );
  sessions = (omega arith, tt);
  digests = some_hashes-IsHashes;
  track_digests = (some_hashes-IsHashes, tt);
  few = omega arith;
  mfst_fits = omega arith;
  trks_fits = omega arith;
  hash_fits = hashed_payload_fits;
  sess_fits = omega arith;
  delta_fits = fits;
}

read_container-write_container_example :
    (file : List ℕ) × (write_container mark hashed_manifest (1 ∷ 2 ∷ []) ≡ ok file)
    × (read_container unmark file ≡ ok (stored hashed_manifest, 1 ∷ 2 ∷ []))
read_container-write_container_example =
    read_container-write_container mark unmark hashed_manifest (1 ∷ 2 ∷ []) refl
      (hashed_manifest-IsStorable (1 ∷ 2 ∷ []) (omega arith))

assign_file_offsets-placed_example : assign_file_offsets two_tracks ≡ placed [] two_tracks
assign_file_offsets-placed_example = assign_file_offsets-placed two_tracks

-- A scram with the header of LBA 0 behind a sync field at byte 8.
abbrev synced : List ℕ
synced = replicate 20 0 ++ masked_header (lba_to_bcd_msf (pos 0))

length-synced : 8 + 15 ≤ length synced
unfolding lba_to_bcd_msf
length-synced = omega arith

synced_header : take 3 (drop (8 + 12) synced) ≡ masked_header (lba_to_bcd_msf (pos 0))
unfolding lba_to_bcd_msf
synced_header = refl

validate_sync_candidate-masked_header_example :
    validate_sync_candidate synced 8 (pos 0) (length synced) ≡ some (pos 8)
unfolding ◌-ℤ◌ ◌*ℤ◌ rem
validate_sync_candidate-masked_header_example =
    validate_sync_candidate-masked_header synced 8 (pos 0) (pos 0) (pos 8) length-synced
      synced_header (omega arith) (omega arith) (omega arith) (omega arith, omega arith) refl refl
      (omega arith) (omega arith)
