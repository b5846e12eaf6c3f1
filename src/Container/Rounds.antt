-- ===== src/Container/Rounds.antt =====
-- The rounds of `ReadContainer` on the chunks of a container that was written.
use miniscram.Common.{
  ℕ, ◌^◌, ◌<◌, ◌≤◌, ◌≡◌, refl, sym, ap, ◌∙◌, arith, Bool, true, false, inr, Option, some, List, [],
  ◌∷◌, length, map, All, bytes_equal, ok,
}
use miniscram.Disc.{Manifest, Track, has_multiple_sessions}
use miniscram.Chunks.Mfst.{
  IsWireManifest, scalars, encode_mfst_payload, decode_mfst_payload-encode_mfst_payload,
}
use miniscram.Chunks.Trks.{
  IsWireTrack, bare, encode_trks_payload, decode_trks_payload-encode_trks_payload,
}
use miniscram.Chunks.Sess.{
  IsWireSession, with_sessions, encode_sess_payload, decode_sess_payload-encode_sess_payload,
}
use miniscram.Chunks.Hash.{encode_hash_payload, decode_hash_payload}
use miniscram.Chunks.Digests.{IsHashes, IsTrackHashes, without_hashes, blank}
use miniscram.Chunks.Frame.{
  IsFramable, write_chunk, mfst_tag, trks_tag, hash_tag, sess_tag, dlta_tag, chunk_length_cap,
}
use miniscram.Container.File.{
  ReadState, read_start, is_seen, is_critical, decoded, first_of, first_is_mfst, or_empty,
  take_chunk, on_chunk, finish, sess_chunk,
}
use miniscram.Container.Stored.{
  bare_is_blank, length-map_track, sessions_are_blank, stored, stored_track,
}

abbrev pub st_mfst : Manifest → ReadState
st_mfst m = record read_start {
  m = some (scalars m);
  seen = mfst_tag ∷ [];
  first_chunk = some mfst_tag;
}

abbrev pub st_trks : Manifest → ReadState
st_trks m = record (st_mfst m) {
  m = some (record (scalars m) { tracks = map bare m.tracks });
  tracks_read = true;
  seen = trks_tag ∷ mfst_tag ∷ [];
}

abbrev pub st_hash : Manifest → List ℕ → ReadState
st_hash m hashes = record (st_trks m) {
  hash_payload = hashes;
  seen = hash_tag ∷ trks_tag ∷ mfst_tag ∷ [];
}

abbrev pub st_sess : Manifest → List ℕ → ReadState
st_sess m hashes = record (st_hash m hashes) {
  m = some (record (scalars m) { tracks = with_sessions m.tracks (map bare m.tracks) });
  seen = sess_tag ∷ hash_tag ∷ trks_tag ∷ mfst_tag ∷ [];
}

abbrev pub st_dlta : ReadState → List ℕ → ReadState
st_dlta st delta = record st { dlta = delta; seen = dlta_tag ∷ st.seen }

-- What a manifest and a delta need to be stored: values that fit their fields, digests, at most
-- 255 tracks, and payloads within the caps.
pub record IsStorable (deflate : List ℕ → List ℕ) (m : Manifest) (delta : List ℕ) : Type 0 where
  pub wire : IsWireManifest m
  pub tracks : All IsWireTrack m.tracks
  pub sessions : All IsWireSession m.tracks
  pub digests : IsHashes m.scram.hashes
  pub track_digests : All IsTrackHashes m.tracks
  pub few : length m.tracks ≤ 255
  pub mfst_fits : length (encode_mfst_payload m) ≤ chunk_length_cap
  pub trks_fits : length (encode_trks_payload m.tracks) ≤ chunk_length_cap
  pub hash_fits : (bs : List ℕ) → encode_hash_payload m ≡ ok bs → length bs ≤ chunk_length_cap
  pub sess_fits : length (encode_sess_payload m.tracks) ≤ chunk_length_cap
  pub delta_fits : length (deflate delta) < 2 ^ 32

pub capped_IsFramable :
    (tag payload : List ℕ)
    → length tag ≡ 4
    → length payload ≤ chunk_length_cap
    → IsFramable tag payload
capped_IsFramable tag payload e h = record {
  tag_length = e;
  payload_length = omega arith;
  capped = inr h;
}

pub sess_chunk-multi :
    (deflate : List ℕ → List ℕ) (ts : List Track)
    → has_multiple_sessions ts ≡ true
    → sess_chunk deflate ts ≡ write_chunk sess_tag (encode_sess_payload ts)
unfolding sess_chunk
sess_chunk-multi deflate ts e = rw e refl

pub sess_chunk-single :
    (deflate : List ℕ → List ℕ) (ts : List Track)
    → has_multiple_sessions ts ≡ false
    → sess_chunk deflate ts ≡ []
unfolding sess_chunk
sess_chunk-single deflate ts e = rw e refl

module _ (inflate : List ℕ → Option (List ℕ)) where
  pub on_mfst :
      (m : Manifest)
      → IsWireManifest m
      → on_chunk inflate mfst_tag (encode_mfst_payload m) read_start ≡ ok (st_mfst m)
  unfolding on_chunk take_chunk is_seen is_critical first_of decoded bytes_equal
  on_mfst m h = rw (decode_mfst_payload-encode_mfst_payload m h) refl

  pub on_trks :
      (m : Manifest)
      → All IsWireTrack m.tracks
      → length m.tracks ≤ 255
      → on_chunk inflate trks_tag (encode_trks_payload m.tracks) (st_mfst m) ≡ ok (st_trks m)
  unfolding on_chunk take_chunk is_seen is_critical first_of decoded bytes_equal or_empty
  on_trks m h few = rw (decode_trks_payload-encode_trks_payload m.tracks h (omega arith)) refl

  pub on_hash :
      (m : Manifest) (hashes : List ℕ)
      → on_chunk inflate hash_tag hashes (st_trks m) ≡ ok (st_hash m hashes)
  unfolding on_chunk take_chunk is_seen is_critical first_of bytes_equal
  on_hash m hashes = refl

  pub on_sess :
      (m : Manifest) (hashes : List ℕ)
      → All IsWireSession m.tracks
      → length m.tracks ≤ 255
      → on_chunk inflate sess_tag (encode_sess_payload m.tracks) (st_hash m hashes)
        ≡ ok (st_sess m hashes)
  unfolding on_chunk take_chunk is_seen is_critical first_of decoded bytes_equal
  on_sess m hashes h few =
      rw
        (decode_sess_payload-encode_sess_payload m.tracks (map bare m.tracks) h (omega arith)
          (length-map_track bare m.tracks))
        refl

  pub on_dlta_single :
      (m : Manifest) (hashes packed delta : List ℕ)
      → inflate packed ≡ some delta
      → on_chunk inflate dlta_tag packed (st_hash m hashes) ≡ ok (st_dlta (st_hash m hashes) delta)
  unfolding on_chunk take_chunk is_seen is_critical first_of bytes_equal
  on_dlta_single m hashes packed delta e = rw e refl

  pub on_dlta_multi :
      (m : Manifest) (hashes packed delta : List ℕ)
      → inflate packed ≡ some delta
      → on_chunk inflate dlta_tag packed (st_sess m hashes) ≡ ok (st_dlta (st_sess m hashes) delta)
  unfolding on_chunk take_chunk is_seen is_critical first_of bytes_equal
  on_dlta_multi m hashes packed delta e = rw e refl

  pub finish_single :
      (m : Manifest) (hashes delta : List ℕ)
      → has_multiple_sessions m.tracks ≡ false
      → decode_hash_payload hashes (blank (stored m)) ≡ ok (stored m)
      → finish inflate (st_dlta (st_hash m hashes) delta) ≡ ok (stored m, delta)
  unfolding finish is_seen decoded first_is_mfst bytes_equal
  finish_single m hashes delta multi e =
      let same : record (scalars m) { tracks = map bare m.tracks } ≡ blank (stored m) =
        ap (λ (ts : List Track). record (scalars m) { tracks = ts }) (bare_is_blank m.tracks)
        ∙ ap
            (λ (b : Bool). record (scalars m) {
              tracks = map without_hashes (map (stored_track b) m.tracks);
            })
            (sym multi) in
      rw (ap (decode_hash_payload hashes) same ∙ e) refl

  pub finish_multi :
      (m : Manifest) (hashes delta : List ℕ)
      → has_multiple_sessions m.tracks ≡ true
      → decode_hash_payload hashes (blank (stored m)) ≡ ok (stored m)
      → finish inflate (st_dlta (st_sess m hashes) delta) ≡ ok (stored m, delta)
  unfolding finish is_seen decoded first_is_mfst bytes_equal
  finish_multi m hashes delta multi e =
      let same : record (scalars m) { tracks = with_sessions m.tracks (map bare m.tracks) }
          ≡ blank (stored m) =
        ap (λ (ts : List Track). record (scalars m) { tracks = ts }) (sessions_are_blank m.tracks)
        ∙ ap
            (λ (b : Bool). record (scalars m) {
              tracks = map without_hashes (map (stored_track b) m.tracks);
            })
            (sym multi) in
      rw (ap (decode_hash_payload hashes) same ∙ e) refl
