-- ===== src/Chunks/Reader.antt =====
-- chunks.go: `payloadReader`, as what is left of its buffer, and the fields of the codecs.
use mathlib.Core.List.{append-nil}
use native.Mathlib.Nat.{mod-lt}
use miniscram.Common.{
  ℕ, ◌^◌, ◌<◌, ◌≡◌, sym, ap, ◌∙◌, arith, Bool, true, false, List, [], ◌∷◌, ◌++◌, length, get_be,
  put_be, read_full, read_full-append, length-put_be, get_be-put_be, Result, ok, ◌>>=◌, or_err, ℤ,
  pos, negsuc, word, signed_word, ◌≤ℤ◌, ◌<ℤ◌, FitsI32, refl, ◌-◌,
}

-- The field that an error message names.
pub data Field : Type 0 where
  tool_version_len tool_version created_unix write_offset_bytes leadin_lba scram_size : Field
  count number mode_len mode first_lba size filename_len filename : Field
  track_count session target algo digest_len digest : Field

-- `short` has the index of the track or record, `trailing` the number of bytes and the count.
pub data CodecError : Type 0 where
  short : Field → ℕ → CodecError
  trailing : ℕ → ℕ → CodecError
  count_differs : ℕ → ℕ → CodecError
  unknown_algo : ℕ → List ℕ → CodecError
  bad_digest_length : ℕ → ℕ → ℕ → CodecError
  target_out_of_range : ℕ → ℕ → ℕ → CodecError

-- `payloadReader.bytes`, and `uint8` to `uint64` as numbers of one to eight bytes.
unfoldable pub bytes : Field → ℕ → ℕ → List ℕ → Result CodecError (List ℕ × List ℕ)
bytes f i n r = or_err (read_full n r) (short f i)

unfoldable pub uint : Field → ℕ → ℕ → List ℕ → Result CodecError (ℕ × List ℕ)
unfolding bytes
uint f i k r = do (b, r') ← bytes f i k r; ok (get_be b, r')

-- `payloadReader.eof`.
unfoldable pub eof : List ℕ → Bool
eof [] = true
eof (b ∷ bs) = false

pub bytes_append :
    (f : Field) (i n : ℕ) (bs rest : List ℕ)
    → n ≡ length bs
    → bytes f i n (bs ++ rest) ≡ ok (bs, rest)
unfolding bytes
bytes_append f i n bs rest e = rw (e, read_full-append bs rest) refl

pub uint_append :
    (f : Field) (i k v : ℕ) (rest : List ℕ)
    → v < 256 ^ k
    → uint f i k (put_be k v ++ rest) ≡ ok (v, rest)
unfolding uint
uint_append f i k v rest h =
    rw (bytes_append f i k (put_be k v) rest (sym (length-put_be k v)), get_be-put_be k v h) refl

pub uint_all : (f : Field) (i k v : ℕ) → v < 256 ^ k → uint f i k (put_be k v) ≡ ok (v, [])
uint_all f i k v h = ap (uint f i k) (sym (append-nil (put_be k v))) ∙ uint_append f i k v [] h

pub uint_byte : (f : Field) (i b : ℕ) (rest : List ℕ) → uint f i 1 (b ∷ rest) ≡ ok (b, rest)
unfolding uint bytes
uint_byte f i b rest = ground arith

-- The integers of an int64.
abbrev pub FitsI64 : ℤ → Type 0
FitsI64 z = (negsuc (2 ^ 63 - 1) ≤ℤ z) × (z <ℤ pos (2 ^ 63))

pub signed_word-word_i32 : (z : ℤ) → FitsI32 z → signed_word (2 ^ 32) (word (2 ^ 32) z) ≡ z
signed_word-word_i32 (pos n) h = ground arith
signed_word-word_i32 (negsuc n) h = ground arith

pub signed_word-word_i64 : (z : ℤ) → FitsI64 z → signed_word (2 ^ 64) (word (2 ^ 64) z) ≡ z
signed_word-word_i64 (pos n) h = ground arith
signed_word-word_i64 (negsuc n) h = ground arith

pub word-lt : (m : ℕ) (z : ℤ) → 0 < m → word m z < m
word-lt m (pos n) h = mod-lt n h
word-lt m (negsuc n) h = omega arith
