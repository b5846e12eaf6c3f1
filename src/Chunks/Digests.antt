-- ===== src/Chunks/Digests.antt =====
-- The HASH payload: what `encodeHASHPayload` writes restores the digests of a manifest.
use mathlib.Core.List.{append_assoc}
use miniscram.Common.{
  ℕ, zero, suc, ◌+◌, ◌*◌, ◌%◌, ◌^◌, ◌<◌, ◌≤◌, ◌≡◌, refl, sym, ap, ◌∙◌, arith, true, List, [], ◌∷◌,
  ◌++◌, length, map, put_be, leb, All, ok, length-append,
}
use miniscram.Disc.{FileHashes, Track, Manifest, no_hashes}
use miniscram.Chunks.Reader.{Field, uint_append}
use miniscram.Chunks.Hash.{
  Algo, emit_hashes, emit_tracks, encode_hash_payload, set_hash, set_track_hash, store_hash,
  decode_records, decode_hash_payload,
}
use miniscram.Chunks.HashRecord.{IsDigest, record_bytes, hash_record-ok, decode_record-record_bytes}

pub record IsHashes (h : FileHashes) : Type 0 where
  pub md5 : IsDigest Algo.md5 h.md5
  pub sha1 : IsDigest Algo.sha1 h.sha1
  pub sha256 : IsDigest Algo.s256 h.sha256

abbrev pub IsTrackHashes : Track → Type 0
IsTrackHashes t = IsHashes t.hashes

-- The three records of one file.
abbrev block : ℕ → (h : FileHashes) → IsHashes h → List ℕ
block target h ih =
    record_bytes target Algo.md5 ih.md5.digest
    ++ (record_bytes target Algo.sha1 ih.sha1.digest
        ++ record_bytes target Algo.s256 ih.sha256.digest)

emit_hashes-block :
    (target : ℕ) (h : FileHashes) (ih : IsHashes h) → emit_hashes target h ≡ ok (block target h ih)
unfolding emit_hashes
emit_hashes-block target h ih =
    rw
      (
        hash_record-ok target Algo.md5 h.md5 ih.md5,
        hash_record-ok target Algo.sha1 h.sha1 ih.sha1,
        hash_record-ok target Algo.s256 h.sha256 ih.sha256,
      )
      refl

-- One round of the decoder whose assignment succeeds.
decode_one :
    (left i target : ℕ) (algo : Algo) (hex : List ℕ) (h : IsDigest algo hex) (rest : List ℕ)
    (m m' : Manifest)
    → store_hash i target algo hex m ≡ ok m'
    → decode_records (suc left) i (record_bytes target algo h.digest ++ rest) m
      ≡ decode_records left (i + 1) rest m'
unfolding decode_records
decode_one left i target algo hex h rest m m' e =
    rw (decode_record-record_bytes i target algo hex h rest m, e) refl

-- Three rounds.
decode_block :
    (left i target : ℕ) (h : FileHashes) (ih : IsHashes h) (rest : List ℕ) (m m1 m2 m3 : Manifest)
    → store_hash i target Algo.md5 h.md5 m ≡ ok m1
    → store_hash (i + 1) target Algo.sha1 h.sha1 m1 ≡ ok m2
    → store_hash (i + 1 + 1) target Algo.s256 h.sha256 m2 ≡ ok m3
    → decode_records (suc (suc (suc left))) i (block target h ih ++ rest) m
      ≡ decode_records left (i + 1 + 1 + 1) rest m3
decode_block left i target h ih rest m m1 m2 m3 e1 e2 e3 =
    ap (λ (bs : List ℕ). decode_records (suc (suc (suc left))) i bs m)
      (append_assoc (record_bytes target Algo.md5 ih.md5.digest) _ rest
        ∙ ap (λ (bs : List ℕ). record_bytes target Algo.md5 ih.md5.digest ++ bs)
            (append_assoc (record_bytes target Algo.sha1 ih.sha1.digest)
              (record_bytes target Algo.s256 ih.sha256.digest) rest))
    ∙ decode_one (suc (suc left)) i target Algo.md5 h.md5 ih.md5 _ m m1 e1
    ∙ decode_one (suc left) (i + 1) target Algo.sha1 h.sha1 ih.sha1 _ m1 m2 e2
    ∙ decode_one left (i + 1 + 1) target Algo.s256 h.sha256 ih.sha256 rest m2 m3 e3

set_track_hash-append :
    (done us : List Track) (u : Track) (algo : Algo) (hex : List ℕ)
    → set_track_hash (length done) algo hex (done ++ (u ∷ us))
      ≡ done ++ ((record u { hashes = set_hash algo hex u.hashes }) ∷ us)
unfolding set_track_hash
set_track_hash-append [] us u algo hex = refl
set_track_hash-append (t ∷ done) us u algo hex =
    ap (◌∷◌ t) (set_track_hash-append done us u algo hex)

store_hash-append :
    (i : ℕ) (algo : Algo) (hex : List ℕ) (m : Manifest) (done us : List Track) (u : Track)
    → store_hash i (suc (length done)) algo hex (record m { tracks = done ++ (u ∷ us) })
      ≡ ok (record m { tracks = done ++ ((record u { hashes = set_hash algo hex u.hashes }) ∷ us) })
unfolding store_hash
store_hash-append i algo hex m done us u =
    let inside : leb (suc (length done)) (length (done ++ (u ∷ us))) ≡ true =
      ground (arith, length-append done (u ∷ us)) in
    rw (inside, set_track_hash-append done us u algo hex) refl

-- The three rounds of the track behind `done`.
decode_track_block :
    (left i : ℕ) (h : FileHashes) (ih : IsHashes h) (rest : List ℕ) (m : Manifest)
    (done us : List Track) (u : Track)
    → decode_records
        (suc (suc (suc left)))
        i
        (block (suc (length done)) h ih ++ rest)
        (record m { tracks = done ++ (u ∷ us) })
      ≡ decode_records left
          (i + 1 + 1 + 1)
          rest
          (record m { tracks = done ++ ((record u { hashes = h }) ∷ us) })
unfolding set_hash
decode_track_block left i h ih rest m done us u =
    decode_block left i (suc (length done)) h ih rest _ _ _ _
      (store_hash-append i Algo.md5 h.md5 m done us u)
      (store_hash-append (i + 1) Algo.sha1 h.sha1 m done us _)
      (store_hash-append (i + 1 + 1) Algo.s256 h.sha256 m done us _)

abbrev thrice : ℕ → ℕ
thrice zero = 0
thrice (suc n) = suc (suc (suc (thrice n)))

thrice_lem : (n : ℕ) → thrice n ≡ n * 3
thrice_lem zero = refl
thrice_lem (suc n) = omega (arith, thrice_lem n)

abbrev pub without_hashes : Track → Track
without_hashes t = record t { hashes = no_hashes }

-- The records of the tracks behind `done`, and what decoding them does.
emit_tracks_lem :
    (ts done : List Track) (j i : ℕ) (m : Manifest)
    → All IsTrackHashes ts
    → j ≡ length done
    → j + length ts < 256
    → (bs : List ℕ) × (emit_tracks j ts ≡ ok bs)
      × (decode_records
            (thrice (length ts))
            i
            bs
            (record m { tracks = done ++ map without_hashes ts })
          ≡ ok (record m { tracks = done ++ ts }, []))
unfolding emit_tracks decode_records
emit_tracks_lem [] done j i m h e small = ([], refl, refl)
emit_tracks_lem (t ∷ ts) done j i m h e small =
    let (bs, emits, decodes) =
      emit_tracks_lem ts (done ++ (t ∷ [])) (j + 1) (i + 1 + 1 + 1) m h.1
        (omega (arith, length-append done (t ∷ []))) (omega arith) in
    let target : (j + 1) % 256 ≡ suc (length done) = omega arith in
    (
      block (suc (length done)) t.hashes h.0 ++ bs,
      rw (target, emit_hashes-block (suc (length done)) t.hashes h.0, emits) refl,
      decode_track_block (thrice (length ts)) i t.hashes h.0 bs m done (map without_hashes ts)
            (without_hashes t)
          ∙ ap
              (λ (us : List Track).
                decode_records (thrice (length ts)) (i + 1 + 1 + 1) bs (record m { tracks = us }))
              (sym (append_assoc done (t ∷ []) (map without_hashes ts)))
          ∙ decodes
          ∙ ap (λ (us : List Track). ok (record m { tracks = us }, []))
              (append_assoc done (t ∷ []) ts),
    )

-- The manifest before its digests are read.
abbrev pub blank : Manifest → Manifest
blank m = record m {
  scram = record { size = m.scram.size; hashes = no_hashes };
  tracks = map without_hashes m.tracks;
}

-- For a manifest of at most 255 tracks whose digests are lowercase hex of the right lengths,
-- encoding the digests does not panic, and decoding the payload onto the manifest without them
-- gives the manifest.
pub decode_hash_payload-encode_hash_payload :
    (m : Manifest)
    → IsHashes m.scram.hashes
    → All IsTrackHashes m.tracks
    → length m.tracks ≤ 255
    → (bs : List ℕ) × (encode_hash_payload m ≡ ok bs) × (decode_hash_payload bs (blank m) ≡ ok m)
unfolding encode_hash_payload decode_hash_payload store_hash set_hash
decode_hash_payload-encode_hash_payload m scram tracks few =
    let (bs, emits, decodes) = emit_tracks_lem m.tracks [] 0 3 m tracks refl (omega arith) in
    let n : ℕ = (1 + length m.tracks) * 3 % 2 ^ 16 in
    let rounds : n ≡ suc (suc (suc (thrice (length m.tracks)))) =
      omega (arith, thrice_lem (length m.tracks)) in
    (
      put_be 2 n ++ (block 0 m.scram.hashes scram ++ bs),
      rw (emit_hashes-block 0 m.scram.hashes scram, emits) refl,
      rw
          (
            uint_append Field.count 0 2 n (block 0 m.scram.hashes scram ++ bs) (omega arith),
            rounds,
            decode_block (thrice (length m.tracks)) 0 0 m.scram.hashes scram bs (blank m) _ _ _ refl
                refl refl,
            decodes,
          )
          refl,
    )
