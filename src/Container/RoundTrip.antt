-- ===== src/Container/RoundTrip.antt =====
-- Reading back what was written.
use mathlib.Core.List.{append-nil}
use miniscram.Common.{
  ℕ, suc, ◌^◌, ◌<◌, ◌≡◌, refl, sym, ap, ◌∙◌, arith, Bool, inl, inr, Option, some, List, [], ◌∷◌,
  ◌++◌, length, Bool-cases, le→ltb, bytes_equal, ok, ◌>>=◌,
}
use miniscram.Disc.{Manifest, has_multiple_sessions}
use miniscram.Chunks.Mfst.{encode_mfst_payload}
use miniscram.Chunks.Trks.{encode_trks_payload}
use miniscram.Chunks.Sess.{encode_sess_payload}
use miniscram.Chunks.Hash.{encode_hash_payload, decode_hash_payload}
use miniscram.Chunks.Digests.{blank, decode_hash_payload-encode_hash_payload}
use miniscram.Chunks.Frame.{
  IsFramable, write_chunk, read_chunk, read_chunk-write_chunk, mfst_tag, trks_tag, hash_tag,
  sess_tag, dlta_tag,
}
use miniscram.Container.File.{
  container_magic, container_version, ReadState, read_start, on_chunk, read_loop, finish,
  read_container, sess_chunk, write_container,
}
use miniscram.Container.Stored.{
  encode_hash_payload-stored, length-map_track, stored, stored_hashes, stored_track,
}
use miniscram.Container.Rounds.{
  IsStorable, capped_IsFramable, finish_multi, finish_single, on_dlta_multi, on_dlta_single,
  on_hash, on_mfst, on_sess, on_trks, sess_chunk-multi, sess_chunk-single, st_dlta, st_hash,
  st_mfst, st_sess, st_trks,
}

module _ (inflate : List ℕ → Option (List ℕ)) where
  -- A round on a chunk that was written.
  read_loop-write_chunk :
      (fuel : ℕ) (tag payload rest : List ℕ) (st st' : ReadState)
      → IsFramable tag payload
      → on_chunk inflate tag payload st ≡ ok st'
      → read_loop inflate (suc fuel) (write_chunk tag payload ++ rest) st
        ≡ read_loop inflate fuel rest st'
  unfolding read_loop
  read_loop-write_chunk fuel tag payload rest st st' h e =
      rw (read_chunk-write_chunk tag payload rest h, e, read_loop) refl

  read_loop-end : (fuel : ℕ) (st : ReadState) → read_loop inflate (suc fuel) [] st ≡ ok st
  unfolding read_loop read_chunk
  read_loop-end fuel st = refl

  -- The DLTA chunk and the end of the file.
  last_chunk :
      (k : ℕ) (packed : List ℕ) (st st' : ReadState)
      → length packed < 2 ^ 32
      → on_chunk inflate dlta_tag packed st ≡ ok st'
      → read_loop inflate (suc (suc k)) (write_chunk dlta_tag packed) st ≡ ok st'
  last_chunk k packed st st' small e =
      ap (λ (bs : List ℕ). read_loop inflate (suc (suc k)) bs st)
        (sym (append-nil (write_chunk dlta_tag packed)))
      ∙ read_loop-write_chunk _ dlta_tag packed [] st st'
          (record { tag_length = refl; payload_length = small; capped = inl refl }) e
      ∙ read_loop-end k st'

  -- The loop over the chunks that were written, on a disc with one session and with several.
  read_loop-single :
      (k : ℕ) (deflate : List ℕ → List ℕ) (m : Manifest) (hashes delta : List ℕ)
      → IsStorable deflate m delta
      → encode_hash_payload m ≡ ok hashes
      → inflate (deflate delta) ≡ some delta
      → read_loop inflate
          (suc (suc (suc (suc (suc (suc k))))))
          (write_chunk mfst_tag (encode_mfst_payload m)
            ++ (write_chunk trks_tag (encode_trks_payload m.tracks)
                ++ (write_chunk hash_tag hashes ++ ([] ++ write_chunk dlta_tag (deflate delta)))))
          read_start
        ≡ ok (st_dlta (st_hash m hashes) delta)
  read_loop-single k deflate m hashes delta h emitted back =
      read_loop-write_chunk _ mfst_tag (encode_mfst_payload m) _ read_start (st_mfst m)
        (capped_IsFramable mfst_tag (encode_mfst_payload m) refl h.mfst_fits)
        (on_mfst inflate m h.wire)
      ∙ read_loop-write_chunk _ trks_tag (encode_trks_payload m.tracks) _ (st_mfst m) (st_trks m)
          (capped_IsFramable trks_tag (encode_trks_payload m.tracks) refl h.trks_fits)
          (on_trks inflate m h.tracks h.few)
      ∙ read_loop-write_chunk _ hash_tag hashes _ (st_trks m) (st_hash m hashes)
          (capped_IsFramable hash_tag hashes refl (h.hash_fits hashes emitted))
          (on_hash inflate m hashes)
      ∙ last_chunk (suc k) (deflate delta) (st_hash m hashes) (st_dlta (st_hash m hashes) delta)
          h.delta_fits (on_dlta_single inflate m hashes (deflate delta) delta back)

  read_loop-multi :
      (k : ℕ) (deflate : List ℕ → List ℕ) (m : Manifest) (hashes delta : List ℕ)
      → IsStorable deflate m delta
      → encode_hash_payload m ≡ ok hashes
      → inflate (deflate delta) ≡ some delta
      → read_loop inflate
          (suc (suc (suc (suc (suc (suc k))))))
          (write_chunk mfst_tag (encode_mfst_payload m)
            ++ (write_chunk trks_tag (encode_trks_payload m.tracks)
                ++ (write_chunk hash_tag hashes
                    ++ (write_chunk sess_tag (encode_sess_payload m.tracks)
                        ++ write_chunk dlta_tag (deflate delta)))))
          read_start
        ≡ ok (st_dlta (st_sess m hashes) delta)
  read_loop-multi k deflate m hashes delta h emitted back =
      read_loop-write_chunk _ mfst_tag (encode_mfst_payload m) _ read_start (st_mfst m)
        (capped_IsFramable mfst_tag (encode_mfst_payload m) refl h.mfst_fits)
        (on_mfst inflate m h.wire)
      ∙ read_loop-write_chunk _ trks_tag (encode_trks_payload m.tracks) _ (st_mfst m) (st_trks m)
          (capped_IsFramable trks_tag (encode_trks_payload m.tracks) refl h.trks_fits)
          (on_trks inflate m h.tracks h.few)
      ∙ read_loop-write_chunk _ hash_tag hashes _ (st_trks m) (st_hash m hashes)
          (capped_IsFramable hash_tag hashes refl (h.hash_fits hashes emitted))
          (on_hash inflate m hashes)
      ∙ read_loop-write_chunk _ sess_tag (encode_sess_payload m.tracks) _ (st_hash m hashes)
          (st_sess m hashes)
          (capped_IsFramable sess_tag (encode_sess_payload m.tracks) refl h.sess_fits)
          (on_sess inflate m hashes h.sessions h.few)
      ∙ last_chunk k (deflate delta) (st_sess m hashes) (st_dlta (st_sess m hashes) delta)
          h.delta_fits (on_dlta_multi inflate m hashes (deflate delta) delta back)

  -- The body of the file, read to its end and finished.
  read_body :
      (k : ℕ) (deflate : List ℕ → List ℕ) (m : Manifest) (hashes delta : List ℕ)
      → IsStorable deflate m delta
      → encode_hash_payload m ≡ ok hashes
      → decode_hash_payload hashes (blank (stored m)) ≡ ok (stored m)
      → inflate (deflate delta) ≡ some delta
      → (read_loop inflate
            (suc (suc (suc (suc (suc (suc k))))))
            (write_chunk mfst_tag (encode_mfst_payload m)
              ++ (write_chunk trks_tag (encode_trks_payload m.tracks)
                  ++ (write_chunk hash_tag hashes
                      ++ (sess_chunk deflate m.tracks ++ write_chunk dlta_tag (deflate delta)))))
            read_start
          >>= finish inflate)
        ≡ ok (stored m, delta)
  read_body k deflate m hashes delta h emitted decodes back =
      elim (Bool-cases (has_multiple_sessions m.tracks)) [
        | inl multi ↦
            rw
              (
                sess_chunk-multi deflate m.tracks multi,
                read_loop-multi k deflate m hashes delta h emitted back,
              )
              (finish_multi inflate m hashes delta multi decodes)
        | inr single ↦
            rw
              (
                sess_chunk-single deflate m.tracks single,
                read_loop-single k deflate m hashes delta h emitted back,
              )
              (finish_single inflate m hashes delta single decodes)
      ]

  -- The header is accepted, and the loop starts with a round for each byte of the file.
  read_header_lem :
      (tag body : List ℕ) (k : ℕ)
      → length (tag ++ body) ≡ suc k
      → read_container inflate (container_magic ++ (container_version ∷ (tag ++ body))) ≡ (
          read_loop inflate (suc (suc (suc (suc (suc (suc k)))))) (tag ++ body) read_start
          >>= finish inflate)
  unfolding read_container bytes_equal
  read_header_lem tag body k e =
      rw (e, le→ltb (suc (suc (suc (suc (suc (suc k)))))) 5 (omega arith)) refl

mfst_chunk_starts :
    (payload rest : List ℕ) → (k : ℕ) × (length (write_chunk mfst_tag payload ++ rest) ≡ suc k)
unfolding write_chunk
mfst_chunk_starts payload rest = (_, refl)

-- If `inflate` undoes `deflate` on the delta, then for a manifest and a delta that can be stored,
-- `WriteContainer` does not panic, and `ReadContainer` of the file gives the delta and the
-- manifest, without file offsets, and without sessions unless a track has one above 1.
pub read_container-write_container :
    (deflate : List ℕ → List ℕ) (inflate : List ℕ → Option (List ℕ)) (m : Manifest) (delta : List ℕ)
    → inflate (deflate delta) ≡ some delta
    → IsStorable deflate m delta
    → (file : List ℕ) × (write_container deflate m delta ≡ ok file)
      × (read_container inflate file ≡ ok (stored m, delta))
unfolding write_container
read_container-write_container deflate inflate m delta back h =
    let multi : Bool = has_multiple_sessions m.tracks in
    let (hashes, emitted, decodes) =
      decode_hash_payload-encode_hash_payload (stored m) h.digests
        (stored_hashes multi m.tracks h.track_digests)
        (omega (arith, length-map_track (stored_track multi) m.tracks, h.few)) in
    let emitted' : encode_hash_payload m ≡ ok hashes =
      sym (encode_hash_payload-stored m) ∙ emitted in
    let rest : List ℕ =
      write_chunk trks_tag (encode_trks_payload m.tracks)
      ++ (write_chunk hash_tag hashes
          ++ (sess_chunk deflate m.tracks ++ write_chunk dlta_tag (deflate delta))) in
    let (k, long) = mfst_chunk_starts (encode_mfst_payload m) rest in
    (
      _,
      rw emitted' refl,
      read_header_lem inflate (write_chunk mfst_tag (encode_mfst_payload m)) rest k long
          ∙ read_body inflate k deflate m hashes delta h emitted' decodes back,
    )
