-- ===== src/Chunks/Mfst.antt =====
-- chunks.go: `encodeMFSTPayload` and `decodeMFSTPayload`.
use miniscram.Common.{
  ℕ, ◌%◌, ◌^◌, ◌<◌, ◌≡◌, refl, arith, List, [], ◌++◌, length, put_be, Result, ok, ◌>>=◌, word,
  signed_word, FitsI32,
}
use miniscram.Disc.{Manifest, no_hashes}
use miniscram.Chunks.Reader.{
  Field, CodecError, bytes, uint, bytes_append, uint_append, uint_all, FitsI64,
  signed_word-word_i32, signed_word-word_i64, word-lt,
}

-- The conversions to uint16, uint32 and uint64 keep the low bits.
unfoldable pub encode_mfst_payload : Manifest → List ℕ
encode_mfst_payload m =
    put_be 2 (length m.tool_version % 2 ^ 16)
    ++ (m.tool_version
        ++ (put_be 8 (word (2 ^ 64) m.created_unix)
            ++ (put_be 4 (word (2 ^ 32) m.write_offset_bytes)
                ++ (put_be 4 (word (2 ^ 32) m.leadin_lba)
                    ++ put_be 8 (word (2 ^ 64) m.scram.size)))))

-- What follows the last field is not read.
unfoldable pub decode_mfst_payload : List ℕ → Result CodecError Manifest
decode_mfst_payload payload = do
  (tv_len, r1) ← uint Field.tool_version_len 0 2 payload
  (tv, r2) ← bytes Field.tool_version 0 tv_len r1
  (created, r3) ← uint Field.created_unix 0 8 r2
  (wo, r4) ← uint Field.write_offset_bytes 0 4 r3
  (lba, r5) ← uint Field.leadin_lba 0 4 r4
  (ss, r6) ← uint Field.scram_size 0 8 r5
  ok (record {
    tool_version = tv;
    created_unix = signed_word (2 ^ 64) created;
    write_offset_bytes = signed_word (2 ^ 32) wo;
    leadin_lba = signed_word (2 ^ 32) lba;
    scram = record { size = signed_word (2 ^ 64) ss; hashes = no_hashes };
    tracks = [];
  })

-- The values that the payload's fields hold.
pub record IsWireManifest (m : Manifest) : Type 0 where
  pub version : length m.tool_version < 2 ^ 16
  pub created : FitsI64 m.created_unix
  pub offset : FitsI32 m.write_offset_bytes
  pub leadin : FitsI32 m.leadin_lba
  pub size : FitsI64 m.scram.size

-- The part of a manifest that the payload holds.
abbrev pub scalars : Manifest → Manifest
scalars m = record m { scram = record { size = m.scram.size; hashes = no_hashes }; tracks = [] }

-- For a manifest whose values fit their fields, decoding the encoded payload gives it back,
-- without its tracks and digests.
pub decode_mfst_payload-encode_mfst_payload :
    (m : Manifest) → IsWireManifest m → decode_mfst_payload (encode_mfst_payload m) ≡ ok (scalars m)
unfolding decode_mfst_payload encode_mfst_payload
decode_mfst_payload-encode_mfst_payload m h =
    let short : length m.tool_version % 2 ^ 16 ≡ length m.tool_version = omega (arith, h.version) in
    rw
      (
        uint_append Field.tool_version_len 0 2 (length m.tool_version % 2 ^ 16) _ (omega arith),
        bytes_append Field.tool_version 0 (length m.tool_version % 2 ^ 16) m.tool_version _ short,
        uint_append Field.created_unix 0 8 (word (2 ^ 64) m.created_unix) _
            (word-lt (2 ^ 64) m.created_unix (omega arith)),
        uint_append Field.write_offset_bytes 0 4 (word (2 ^ 32) m.write_offset_bytes) _
            (word-lt (2 ^ 32) m.write_offset_bytes (omega arith)),
        uint_append Field.leadin_lba 0 4 (word (2 ^ 32) m.leadin_lba) _
            (word-lt (2 ^ 32) m.leadin_lba (omega arith)),
        uint_all Field.scram_size 0 8 (word (2 ^ 64) m.scram.size)
            (word-lt (2 ^ 64) m.scram.size (omega arith)),
        signed_word-word_i64 m.created_unix h.created,
        signed_word-word_i32 m.write_offset_bytes h.offset,
        signed_word-word_i32 m.leadin_lba h.leadin,
        signed_word-word_i64 m.scram.size h.size,
      )
      refl
