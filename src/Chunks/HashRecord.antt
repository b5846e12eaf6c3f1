-- ===== src/Chunks/HashRecord.antt =====
-- One record of the HASH payload, written by `appendHashRecord` and read back.
use mathlib.Core.List.{append_assoc}
use miniscram.Common.{
  ℕ, ◌+◌, ◌*◌, ◌/◌, ◌%◌, ◌<◌, ◌≡◌, refl, sym, ap, arith, true, List, [], ◌∷◌, ◌++◌, length, ◌==◌,
  IsByte, All, ok, ◌>>=◌, some, bytes_equal,
}
use miniscram.Disc.{Manifest}
use miniscram.Chunks.Reader.{Field, bytes_append, uint_byte}
use miniscram.Chunks.Hash.{
  hex_digit, encode_to_string, from_hex_digit, decode_string, Algo, algo_tag, algo_length,
  find_algo, hash_record, store_hash, decode_record,
}

-- `hex` is the lowercase form of a digest of the algorithm's length.
pub record IsDigest (algo : Algo) (hex : List ℕ) : Type 0 where
  pub digest : List ℕ
  pub whole : length digest ≡ algo_length algo
  pub in_bytes : All IsByte digest
  pub printed : encode_to_string digest ≡ hex

from_hex_digit-hex_digit : (n : ℕ) → n < 16 → from_hex_digit (hex_digit n) ≡ ok n
unfolding from_hex_digit hex_digit
from_hex_digit-hex_digit n h = ground arith

decode_string-encode_to_string :
    (bs : List ℕ) → All IsByte bs → decode_string (encode_to_string bs) ≡ ok bs
unfolding decode_string encode_to_string
decode_string-encode_to_string [] h = refl
decode_string-encode_to_string (b ∷ bs) h =
    let whole : b / 16 * 16 + b % 16 ≡ b = omega arith in
    rw
      (
        from_hex_digit-hex_digit (b / 16) (omega (arith, h.0)),
        from_hex_digit-hex_digit (b % 16) (omega arith),
        decode_string-encode_to_string bs h.1,
        whole,
      )
      refl

-- The bytes of one record, for a digest.
abbrev pub record_bytes : ℕ → Algo → List ℕ → List ℕ
record_bytes target algo digest = target ∷ (algo_tag algo ++ (algo_length algo ∷ digest))

same_is_equal : (m n : ℕ) → m ≡ n → (m == n) ≡ true
same_is_equal m n e = ground arith

pub hash_record-ok :
    (target : ℕ) (algo : Algo) (hex : List ℕ) (h : IsDigest algo hex)
    → hash_record target algo hex ≡ ok (record_bytes target algo h.digest)
unfolding hash_record
hash_record-ok target algo hex h =
    rw
      (
        ← h.printed,
        decode_string-encode_to_string h.digest h.in_bytes,
        same_is_equal (length h.digest) (algo_length algo) h.whole,
      )
      refl

find_algo-algo_tag : (algo : Algo) → find_algo (algo_tag algo) ≡ some algo
unfolding find_algo bytes_equal
find_algo-algo_tag Algo.md5 = refl
find_algo-algo_tag Algo.sha1 = refl
find_algo-algo_tag Algo.s256 = refl

length-algo_tag : (algo : Algo) → 4 ≡ length (algo_tag algo)
length-algo_tag Algo.md5 = refl
length-algo_tag Algo.sha1 = refl
length-algo_tag Algo.s256 = refl

record_assoc :
    (target : ℕ) (algo : Algo) (digest rest : List ℕ)
    → record_bytes target algo digest ++ rest
      ≡ target ∷ (algo_tag algo ++ (algo_length algo ∷ (digest ++ rest)))
record_assoc target algo digest rest =
    ap (◌∷◌ target) (append_assoc (algo_tag algo) (algo_length algo ∷ digest) rest)

-- A record is decoded to the assignment of its hex form.
pub decode_record-record_bytes :
    (i target : ℕ) (algo : Algo) (hex : List ℕ) (h : IsDigest algo hex) (rest : List ℕ)
    (m : Manifest)
    → decode_record i (record_bytes target algo h.digest ++ rest) m
      ≡ (store_hash i target algo hex m >>= λ m'. ok (m', rest))
unfolding decode_record
decode_record-record_bytes i target algo hex h rest m =
    rw
      (
        record_assoc target algo h.digest rest,
        uint_byte Field.target i target (algo_tag algo ++ (algo_length algo ∷ (h.digest ++ rest))),
        bytes_append Field.algo i 4 (algo_tag algo) (algo_length algo ∷ (h.digest ++ rest))
            (length-algo_tag algo),
        find_algo-algo_tag algo,
        uint_byte Field.digest_len i (algo_length algo) (h.digest ++ rest),
        same_is_equal (algo_length algo) (algo_length algo) refl,
        bytes_append Field.digest i (algo_length algo) h.digest rest (sym h.whole),
        h.printed,
      )
      refl
