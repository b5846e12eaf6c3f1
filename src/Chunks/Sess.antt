-- ===== src/Chunks/Sess.antt =====
-- chunks.go: `encodeSESSPayload` and `decodeSESSPayload`.
use miniscram.Common.{
  ℕ, ◌+◌, ◌%◌, ◌^◌, ◌<◌, ◌≡◌, refl, arith, List, [], ◌∷◌, ◌++◌, length, put_be, Result, ok, ◌>>=◌,
  guard, All, ◌==◌,
}
use miniscram.Disc.{Track}
use miniscram.Chunks.Reader.{
  Field, CodecError, trailing, count_differs, uint, eof, uint_append, uint_byte,
}

unfoldable pub encode_sessions : List Track → List ℕ
encode_sessions [] = []
encode_sessions (t ∷ ts) = (t.session % 256) ∷ encode_sessions ts

unfoldable pub encode_sess_payload : List Track → List ℕ
encode_sess_payload tracks = put_be 2 (length tracks % 2 ^ 16) ++ encode_sessions tracks

-- The loop of `decodeSESSPayload`, which stamps the tracks one by one.
unfoldable pub decode_sessions : ℕ → List Track → List ℕ → Result CodecError (List Track × List ℕ)
decode_sessions i [] r = ok ([], r)
decode_sessions i (t ∷ ts) r = do
  (s, r1) ← uint Field.session i 1 r
  (ts', r2) ← decode_sessions (i + 1) ts r1
  ok ((record t { session = s }) ∷ ts', r2)

-- The result is the caller's slice after the call; on an error the caller drops it.
unfoldable pub decode_sess_payload : List ℕ → List Track → Result CodecError (List Track)
unfolding eof
decode_sess_payload payload tracks = do
  (n, r) ← uint Field.track_count 0 2 payload
  _ ← guard (n == length tracks) (count_differs n (length tracks))
  (ts, rest) ← decode_sessions 0 tracks r
  _ ← guard (eof rest) (trailing (length rest) n)
  ok ts

abbrev pub IsWireSession : Track → Type 0
IsWireSession t = t.session < 256

-- The second list's tracks with the first one's sessions.
abbrev pub with_sessions : List Track → List Track → List Track
with_sessions [] us = []
with_sessions (t ∷ ts) [] = []
with_sessions (t ∷ ts) (u ∷ us) = (record u { session = t.session }) ∷ with_sessions ts us

decode_sessions-encode_sessions :
    (i : ℕ) (ts us : List Track)
    → All IsWireSession ts
    → length us ≡ length ts
    → decode_sessions i us (encode_sessions ts) ≡ ok (with_sessions ts us, [])
unfolding decode_sessions encode_sessions
decode_sessions-encode_sessions i [] [] h e = refl
decode_sessions-encode_sessions i [] (u ∷ us) h e = absurd (omega arith)
decode_sessions-encode_sessions i (t ∷ ts) [] h e = absurd (omega arith)
decode_sessions-encode_sessions i (t ∷ ts) (u ∷ us) h e =
    let same : t.session % 256 ≡ t.session = omega (arith, h.0) in
    rw
      (
        uint_byte Field.session i (t.session % 256) (encode_sessions ts),
        decode_sessions-encode_sessions (i + 1) ts us h.1 (omega arith),
        same,
      )
      refl

-- For fewer than 2^16 tracks with sessions below 256, decoding their encoded sessions onto as
-- many tracks stamps each with the session of the track at its place.
pub decode_sess_payload-encode_sess_payload :
    (ts us : List Track)
    → All IsWireSession ts
    → length ts < 2 ^ 16
    → length us ≡ length ts
    → decode_sess_payload (encode_sess_payload ts) us ≡ ok (with_sessions ts us)
unfolding decode_sess_payload encode_sess_payload
decode_sess_payload-encode_sess_payload ts us h few e =
    let small : length ts % 2 ^ 16 ≡ length ts = omega arith in
    rw (uint_append Field.track_count 0 2 (length ts % 2 ^ 16) (encode_sessions ts) (omega arith))
      (ground (arith, small, decode_sessions-encode_sessions 0 ts us h e))
