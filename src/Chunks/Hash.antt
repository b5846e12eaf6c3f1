-- ===== src/Chunks/Hash.antt =====
-- chunks.go: `encodeHASHPayload`, `appendHashRecord` and `decodeHASHPayload`, with the parts of
-- `encoding/hex` that they use.
use miniscram.Common.{
  ℕ, zero, suc, ◌+◌, ◌*◌, ◌-◌, ◌/◌, ◌%◌, ◌^◌, ◌&&◌, Option, none, some, List, [], ◌∷◌, ◌++◌, length,
  put_be, bytes_equal, codes, leb, ltb, ◌==◌, if◌then◌else◌, Result, ok, err, ◌>>=◌, guard, or_err,
}
use miniscram.Disc.{FileHashes, Track, Manifest}
use miniscram.Chunks.Reader.{
  Field, CodecError, trailing, unknown_algo, bad_digest_length, target_out_of_range, bytes, uint,
  eof,
}

-- `hex.EncodeToString`: two lowercase digits for each byte.
unfoldable pub hex_digit : ℕ → ℕ
hex_digit n = if ltb n 10 then 48 + n else 87 + n

unfoldable pub encode_to_string : List ℕ → List ℕ
unfolding hex_digit
encode_to_string [] = []
encode_to_string (b ∷ bs) = hex_digit (b / 16) ∷ hex_digit (b % 16) ∷ encode_to_string bs

-- Why `appendHashRecord` panics.
pub data HashPanic : Type 0 where
  bad_digit odd_length wrong_length : HashPanic

-- `hex.DecodeString`: digits of either case, and an even number of them.
unfoldable pub from_hex_digit : ℕ → Result HashPanic ℕ
from_hex_digit c =
    if leb 48 c && leb c 57
    then ok (c - 48)
    else if leb 97 c && leb c 102
    then ok (c - 87)
    else if leb 65 c && leb c 70
    then ok (c - 55)
    else err bad_digit

unfoldable pub decode_string : List ℕ → Result HashPanic (List ℕ)
unfolding from_hex_digit
decode_string [] = ok []
decode_string (c ∷ []) = err odd_length
decode_string (c ∷ d ∷ cs) = do
  high ← from_hex_digit c
  low ← from_hex_digit d
  bs ← decode_string cs
  ok ((high * 16 + low) ∷ bs)

pub data Algo : Type 0 where
  md5 sha1 s256 : Algo

abbrev pub algo_tag : Algo → List ℕ
algo_tag Algo.md5 = codes "MD5 "
algo_tag Algo.sha1 = codes "SHA1"
algo_tag Algo.s256 = codes "S256"

-- `hashAlgoLen`: the digest's length of a tag that is known.
abbrev pub algo_length : Algo → ℕ
algo_length Algo.md5 = 16
algo_length Algo.sha1 = 20
algo_length Algo.s256 = 32

unfoldable pub find_algo : List ℕ → Option Algo
find_algo tag =
    if bytes_equal tag (codes "MD5 ")
    then some Algo.md5
    else if bytes_equal tag (codes "SHA1")
    then some Algo.sha1
    else if bytes_equal tag (codes "S256")
    then some Algo.s256
    else none

-- `appendHashRecord`: the record, or the panic.
unfoldable pub hash_record : ℕ → Algo → List ℕ → Result HashPanic (List ℕ)
hash_record target algo hex = do
  digest ← decode_string hex
  _ ← guard (length digest == algo_length algo) wrong_length
  ok (target ∷ (algo_tag algo ++ (algo_length algo ∷ digest)))

-- The closure `emit`.
unfoldable pub emit_hashes : ℕ → FileHashes → Result HashPanic (List ℕ)
unfolding hash_record
emit_hashes target h = do
  a ← hash_record target Algo.md5 h.md5
  b ← hash_record target Algo.sha1 h.sha1
  c ← hash_record target Algo.s256 h.sha256
  ok (a ++ (b ++ c))

-- The loop over the tracks; the target is a uint8.
unfoldable pub emit_tracks : ℕ → List Track → Result HashPanic (List ℕ)
emit_tracks i [] = ok []
emit_tracks i (t ∷ ts) = do
  a ← emit_hashes ((i + 1) % 256) t.hashes
  b ← emit_tracks (i + 1) ts
  ok (a ++ b)

unfoldable pub encode_hash_payload : Manifest → Result HashPanic (List ℕ)
encode_hash_payload m = do
  a ← emit_hashes 0 m.scram.hashes
  b ← emit_tracks 0 m.tracks
  ok (put_be 2 ((1 + length m.tracks) * 3 % 2 ^ 16) ++ (a ++ b))

unfoldable pub set_hash : Algo → List ℕ → FileHashes → FileHashes
set_hash Algo.md5 hex h = record h { md5 = hex }
set_hash Algo.sha1 hex h = record h { sha1 = hex }
set_hash Algo.s256 hex h = record h { sha256 = hex }

unfoldable pub set_track_hash : ℕ → Algo → List ℕ → List Track → List Track
set_track_hash i algo hex [] = []
set_track_hash zero algo hex (t ∷ ts) = (record t { hashes = set_hash algo hex t.hashes }) ∷ ts
set_track_hash (suc i) algo hex (t ∷ ts) = t ∷ set_track_hash i algo hex ts

-- The assignment to `dest`.
unfoldable pub store_hash : ℕ → ℕ → Algo → List ℕ → Manifest → Result CodecError Manifest
unfolding set_hash set_track_hash
store_hash i zero algo hex m =
    ok (record m {
      scram = record { size = m.scram.size; hashes = set_hash algo hex m.scram.hashes };
    })
store_hash i (suc target) algo hex m =
    if leb (suc target) (length m.tracks)
    then ok (record m { tracks = set_track_hash target algo hex m.tracks })
    else err (target_out_of_range i (suc target) (length m.tracks))

-- One round of the loop of `decodeHASHPayload`.
unfoldable pub decode_record : ℕ → List ℕ → Manifest → Result CodecError (Manifest × List ℕ)
unfolding find_algo
decode_record i r0 m = do
  (target, r1) ← uint Field.target i 1 r0
  (tag, r2) ← bytes Field.algo i 4 r1
  algo ← or_err (find_algo tag) (unknown_algo i tag)
  (digest_len, r3) ← uint Field.digest_len i 1 r2
  _ ← guard (digest_len == algo_length algo) (bad_digest_length i digest_len (algo_length algo))
  (digest, r4) ← bytes Field.digest i digest_len r3
  m' ← store_hash i target algo (encode_to_string digest) m
  ok (m', r4)

unfoldable pub decode_records : ℕ → ℕ → List ℕ → Manifest → Result CodecError (Manifest × List ℕ)
decode_records zero i r m = ok (m, r)
decode_records (suc left) i r m = do
  (m', r') ← decode_record i r m
  decode_records left (i + 1) r' m'

-- The result is the caller's manifest after the call; on an error the caller drops it.
unfoldable pub decode_hash_payload : List ℕ → Manifest → Result CodecError Manifest
unfolding eof
decode_hash_payload payload m = do
  (n, r) ← uint Field.count 0 2 payload
  (m', rest) ← decode_records n 0 r m
  _ ← guard (eof rest) (trailing (length rest) n)
  ok m'
