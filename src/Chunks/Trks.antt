-- ===== src/Chunks/Trks.antt =====
-- chunks.go: `encodeTRKSPayload`, `decodeTRKSPayload` and the SESS payload.
use miniscram.Common.{
  ℕ, zero, suc, ◌+◌, ◌%◌, ◌^◌, ◌<◌, ◌≡◌, refl, ap, arith, List, [], ◌∷◌, ◌++◌, length, map, put_be,
  Result, ok, ◌>>=◌, guard, ℤ, word, signed_word, FitsI32, pos, neg_part, pos_part, All,
}
use miniscram.Disc.{Track, no_hashes}
use miniscram.Chunks.Reader.{
  Field, CodecError, trailing, bytes, uint, eof, bytes_append, uint_append, uint_byte, FitsI64,
  signed_word-word_i32, signed_word-word_i64, word-lt,
}

-- The rounds of the encoder's loop; what a round appends stands before the later rounds.
unfoldable pub encode_tracks : List Track → List ℕ
encode_tracks [] = []
encode_tracks (t ∷ ts) =
    word 256 t.number
    ∷ (length t.mode % 256)
    ∷ (t.mode
        ++ (put_be 4 (word (2 ^ 32) t.first_lba)
            ++ (put_be 8 (word (2 ^ 64) t.size)
                ++ (put_be 2 (length t.filename % 2 ^ 16) ++ (t.filename ++ encode_tracks ts)))))

unfoldable pub encode_trks_payload : List Track → List ℕ
encode_trks_payload tracks = put_be 2 (length tracks % 2 ^ 16) ++ encode_tracks tracks

-- One round of the decoder's loop. The fields that are not in the payload are Go's zero values.
unfoldable pub decode_track : ℕ → List ℕ → Result CodecError (Track × List ℕ)
decode_track i r0 = do
  (num, r1) ← uint Field.number i 1 r0
  (mode_len, r2) ← uint Field.mode_len i 1 r1
  (mode, r3) ← bytes Field.mode i mode_len r2
  (first, r4) ← uint Field.first_lba i 4 r3
  (size, r5) ← uint Field.size i 8 r4
  (fn_len, r6) ← uint Field.filename_len i 2 r5
  (fn, r7) ← bytes Field.filename i fn_len r6
  ok (
    record {
      number = pos num;
      session = 0;
      mode = mode;
      first_lba = signed_word (2 ^ 32) first;
      filename = fn;
      size = signed_word (2 ^ 64) size;
      hashes = no_hashes;
      file_offset = pos 0;
    },
    r7,
  )

unfoldable pub decode_tracks : ℕ → ℕ → List ℕ → Result CodecError (List Track × List ℕ)
decode_tracks zero i r = ok ([], r)
decode_tracks (suc left) i r = do
  (t, r1) ← decode_track i r
  (ts, r2) ← decode_tracks left (i + 1) r1
  ok (t ∷ ts, r2)

unfoldable pub decode_trks_payload : List ℕ → Result CodecError (List Track)
unfolding eof
decode_trks_payload payload = do
  (n, r) ← uint Field.count 0 2 payload
  (ts, rest) ← decode_tracks n 0 r
  _ ← guard (eof rest) (trailing (length rest) n)
  ok ts

-- The values that the payload's fields hold.
pub record IsWireTrack (t : Track) : Type 0 where
  pub number : (neg_part t.number ≡ 0) × (pos_part t.number < 256)
  pub mode : length t.mode < 256
  pub first_lba : FitsI32 t.first_lba
  pub size : FitsI64 t.size
  pub filename : length t.filename < 2 ^ 16

-- What the payload holds of a track.
abbrev pub bare : Track → Track
bare t = record t { session = 0; hashes = no_hashes; file_offset = pos 0 }

pos-word : (z : ℤ) → neg_part z ≡ 0 → pos_part z < 256 → pos (word 256 z) ≡ z
pos-word (pos n) h k = ap pos (omega arith)
pos-word (ℤ.negsuc n) h k = absurd (omega arith)

decode_track-encode_tracks :
    (i : ℕ) (t : Track) (ts : List Track)
    → IsWireTrack t
    → decode_track i (encode_tracks (t ∷ ts)) ≡ ok (bare t, encode_tracks ts)
unfolding decode_track encode_tracks
decode_track-encode_tracks i t ts h =
    rw
      (
        uint_byte Field.number i (word 256 t.number) _,
        uint_byte Field.mode_len i (length t.mode % 256) _,
        bytes_append Field.mode i (length t.mode % 256) t.mode _ (omega (arith, h.mode)),
        uint_append Field.first_lba i 4 (word (2 ^ 32) t.first_lba) _
            (word-lt (2 ^ 32) t.first_lba (omega arith)),
        uint_append Field.size i 8 (word (2 ^ 64) t.size) _ (word-lt (2 ^ 64) t.size (omega arith)),
        uint_append Field.filename_len i 2 (length t.filename % 2 ^ 16) _ (omega arith),
        bytes_append Field.filename i (length t.filename % 2 ^ 16) t.filename _
            (omega (arith, h.filename)),
        pos-word t.number h.number.0 h.number.1,
        signed_word-word_i32 t.first_lba h.first_lba,
        signed_word-word_i64 t.size h.size,
      )
      refl

decode_tracks-encode_tracks :
    (i : ℕ) (ts : List Track)
    → All IsWireTrack ts
    → decode_tracks (length ts) i (encode_tracks ts) ≡ ok (map bare ts, [])
unfolding decode_tracks
decode_tracks-encode_tracks i [] h = unfold encode_tracks in refl
decode_tracks-encode_tracks i (t ∷ ts) h =
    rw (decode_track-encode_tracks i t ts h.0, decode_tracks-encode_tracks (i + 1) ts h.1) refl

-- For fewer than 2^16 tracks whose values fit their fields, decoding the encoded payload gives
-- them back in order, without session, digests and file offset.
pub decode_trks_payload-encode_trks_payload :
    (ts : List Track)
    → All IsWireTrack ts
    → length ts < 2 ^ 16
    → decode_trks_payload (encode_trks_payload ts) ≡ ok (map bare ts)
unfolding decode_trks_payload encode_trks_payload
decode_trks_payload-encode_trks_payload ts h few =
    let e : length ts % 2 ^ 16 ≡ length ts = omega arith in
    rw
      (
        uint_append Field.count 0 2 (length ts % 2 ^ 16) (encode_tracks ts) (omega arith),
        e,
        decode_tracks-encode_tracks 0 ts h,
      )
      refl
