-- ===== src/Container/Stored.antt =====
-- What a container keeps of a manifest.
use miniscram.Common.{
  ℕ, suc, ◌+◌, ◌≡◌, refl, ap, Bool, true, false, List, [], ◌∷◌, length, map, All, pos,
  if◌then◌else◌,
}
use miniscram.Disc.{Manifest, Track, has_multiple_sessions}
use miniscram.Chunks.Trks.{bare}
use miniscram.Chunks.Sess.{with_sessions}
use miniscram.Chunks.Hash.{emit_tracks, encode_hash_payload}
use miniscram.Chunks.Digests.{IsTrackHashes, without_hashes}

-- What a container holds of a track: the session is stored only on a disc with several.
abbrev pub stored_track : Bool → Track → Track
stored_track multi t = record t { session = if multi then t.session else 0; file_offset = pos 0 }

abbrev pub stored : Manifest → Manifest
stored m = record m { tracks = map (stored_track (has_multiple_sessions m.tracks)) m.tracks }

pub emit_tracks-map :
    (multi : Bool) (ts : List Track) (i : ℕ)
    → emit_tracks i (map (stored_track multi) ts) ≡ emit_tracks i ts
unfolding emit_tracks
emit_tracks-map multi [] i = refl
emit_tracks-map multi (t ∷ ts) i = rw (emit_tracks-map multi ts (i + 1)) refl

pub length-map_track : (f : Track → Track) (ts : List Track) → length (map f ts) ≡ length ts
length-map_track f [] = refl
length-map_track f (t ∷ ts) = ap suc (length-map_track f ts)

pub encode_hash_payload-stored :
    (m : Manifest) → encode_hash_payload (stored m) ≡ encode_hash_payload m
unfolding encode_hash_payload
encode_hash_payload-stored m =
    rw
      (
        emit_tracks-map (has_multiple_sessions m.tracks) m.tracks 0,
        length-map_track (stored_track (has_multiple_sessions m.tracks)) m.tracks,
      )
      refl

pub stored_hashes :
    (multi : Bool) (ts : List Track)
    → All IsTrackHashes ts
    → All IsTrackHashes (map (stored_track multi) ts)
stored_hashes multi [] h = tt
stored_hashes multi (t ∷ ts) h = (h.0, stored_hashes multi ts h.1)

pub bare_is_blank :
    (ts : List Track) → map bare ts ≡ map without_hashes (map (stored_track false) ts)
bare_is_blank [] = refl
bare_is_blank (t ∷ ts) = ap (◌∷◌ (bare t)) (bare_is_blank ts)

pub sessions_are_blank :
    (ts : List Track)
    → with_sessions ts (map bare ts) ≡ map without_hashes (map (stored_track true) ts)
sessions_are_blank [] = refl
sessions_are_blank (t ∷ ts) =
    ap (◌∷◌ (without_hashes (stored_track true t))) (sessions_are_blank ts)
