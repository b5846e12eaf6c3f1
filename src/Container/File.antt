-- ===== src/Container/File.antt =====
-- manifest.go: `WriteContainer` and `ReadContainer`, over the bytes of the file.
-- `compress/zlib` is a parameter: `deflate` is a writer at its best compression level, closed
-- after one write, `inflate` a reader read to its end. The temporary file, its rename and the
-- errors of the file system are not modelled.
use miniscram.Common.{
  ℕ, zero, suc, Bool, true, false, not, ◌&&◌, ◌||◌, Option, none, some, List, [], ◌∷◌, ◌++◌, length,
  get_or, leb, ◌==◌, bytes_equal, codes, read_full, take, if◌then◌else◌, Result, ok, err, ◌>>=◌,
  guard, or_err, pos,
}
use miniscram.Disc.{Manifest, Track, no_hashes, has_multiple_sessions}
use miniscram.Chunks.Reader.{CodecError}
use miniscram.Chunks.Mfst.{encode_mfst_payload, decode_mfst_payload}
use miniscram.Chunks.Trks.{encode_trks_payload, decode_trks_payload}
use miniscram.Chunks.Sess.{encode_sess_payload, decode_sess_payload}
use miniscram.Chunks.Hash.{HashPanic, encode_hash_payload, decode_hash_payload}
use miniscram.Chunks.Frame.{
  ChunkError, write_chunk, read_chunk, mfst_tag, trks_tag, hash_tag, sess_tag, dlta_tag,
}

abbrev pub container_magic : List ℕ
container_magic = codes "MSCM"

abbrev pub container_version : ℕ
container_version = 0x02

abbrev pub file_header_size : ℕ
file_header_size = 5

-- `isCritical`: the first letter is a capital.
unfoldable pub is_critical : List ℕ → Bool
is_critical tag = leb 65 (get_or tag 0 0) && leb (get_or tag 0 0) 90

-- `out_of_rounds` is no Go error: the loop would have used up its fuel. `panicked` is the use of
-- a manifest that was never read.
pub data ContainerError : Type 0 where
  file_header_short bad_magic : ContainerError
  bad_version : ℕ → ContainerError
  bad_chunk : ChunkError → ContainerError
  duplicate unsupported missing : List ℕ → ContainerError
  bad_payload : CodecError → ContainerError
  sess_early bad_delta mfst_not_first out_of_rounds panicked : ContainerError

-- The variables of `ReadContainer`'s loop. `seen` holds the tags, `tracks_read` is whether
-- `m.Tracks` is not nil.
pub record ReadState : Type 0 where
  pub m : Option Manifest
  pub tracks_read : Bool
  pub dlta : List ℕ
  pub hash_payload : List ℕ
  pub seen : List (List ℕ)
  pub first_chunk : Option (List ℕ)

abbrev pub read_start : ReadState
read_start = record {
  m = none;
  tracks_read = false;
  dlta = [];
  hash_payload = [];
  seen = [];
  first_chunk = none;
}

unfoldable pub is_seen : List ℕ → List (List ℕ) → Bool
is_seen tag [] = false
is_seen tag (t ∷ ts) = bytes_equal tag t || is_seen tag ts

-- A payload's error is returned as it is.
unfoldable pub decoded : {A : Type 0} → Result CodecError A → Result ContainerError A
decoded (err e) = err (bad_payload e)
decoded (ok a) = ok a

-- `&Manifest{}`.
abbrev empty_manifest : Manifest
empty_manifest = record {
  tool_version = [];
  created_unix = pos 0;
  write_offset_bytes = pos 0;
  leadin_lba = pos 0;
  scram = record { size = pos 0; hashes = no_hashes };
  tracks = [];
}

unfoldable pub or_empty : Option Manifest → Manifest
or_empty none = empty_manifest
or_empty (some m) = m

unfoldable pub first_of : Option (List ℕ) → List ℕ → Option (List ℕ)
first_of none tag = some tag
first_of (some t) tag = some t

unfoldable pub first_is_mfst : Option (List ℕ) → Bool
first_is_mfst none = true
first_is_mfst (some tag) = bytes_equal tag mfst_tag

module _ (inflate : List ℕ → Option (List ℕ)) where
  -- The `switch` over the tag.
  unfoldable pub take_chunk : List ℕ → List ℕ → ReadState → Result ContainerError ReadState
  unfolding decoded or_empty
  take_chunk tag payload st =
      if bytes_equal tag mfst_tag
      then (do
        m ← decoded (decode_mfst_payload payload)
        ok (record st { m = some m; tracks_read = false }))
      else if bytes_equal tag trks_tag
      then (do
        ts ← decoded (decode_trks_payload payload)
        ok (record st { m = some (record (or_empty st.m) { tracks = ts }); tracks_read = true }))
      else if bytes_equal tag hash_tag
      then ok (record st { hash_payload = payload })
      else if bytes_equal tag sess_tag
      then (do
        m ← or_err st.m sess_early
        _ ← guard st.tracks_read sess_early
        ts ← decoded (decode_sess_payload payload m.tracks)
        ok (record st { m = some (record m { tracks = ts }) }))
      else if bytes_equal tag dlta_tag
      then (do d ← or_err (inflate payload) bad_delta; ok (record st { dlta = d }))
      else if is_critical tag
      then err (unsupported tag)
      else ok st

  -- One round behind the read: the first tag and the tags seen, then the `switch`.
  unfoldable pub on_chunk : List ℕ → List ℕ → ReadState → Result ContainerError ReadState
  unfolding is_seen first_of
  on_chunk tag payload st = do
    _ ← guard (not (is_seen tag st.seen && is_critical tag)) (duplicate tag)
    take_chunk tag payload
        (record st { seen = tag ∷ st.seen; first_chunk = first_of st.first_chunk tag })

  -- The loop, up to the clean end of the file.
  unfoldable pub read_loop : ℕ → List ℕ → ReadState → Result ContainerError ReadState
  read_loop zero bs st = err out_of_rounds
  read_loop (suc fuel) bs st = elim (read_chunk bs) [
    | err e ↦ elim e [ ChunkError.end_of_file ↦ ok st | other ↦ err (bad_chunk other) ]
    | ok (tag, payload, rest) ↦ do st' ← on_chunk tag payload st; read_loop fuel rest st'
  ]

  -- The checks behind the loop, and the digests.
  unfoldable pub finish : ReadState → Result ContainerError (Manifest × List ℕ)
  unfolding is_seen decoded first_is_mfst
  finish st = do
    _ ← guard (is_seen mfst_tag st.seen) (missing mfst_tag)
    _ ← guard (is_seen trks_tag st.seen) (missing trks_tag)
    _ ← guard (is_seen hash_tag st.seen) (missing hash_tag)
    _ ← guard (is_seen dlta_tag st.seen) (missing dlta_tag)
    _ ← guard (first_is_mfst st.first_chunk) mfst_not_first
    m ← or_err st.m panicked
    m' ← decoded (decode_hash_payload st.hash_payload m)
    ok (m', st.dlta)

  -- `ReadContainer`. Each round reads a chunk of at least twelve bytes, so there are fewer rounds
  -- than bytes.
  unfoldable pub read_container : List ℕ → Result ContainerError (Manifest × List ℕ)
  read_container file = do
    (head, rest) ← or_err (read_full file_header_size file) file_header_short
    _ ← guard (bytes_equal (take 4 head) container_magic) bad_magic
    _ ← guard (get_or head 4 0 == container_version) (bad_version (get_or head 4 0))
    st ← read_loop (length file) rest read_start
    finish st

module _ (deflate : List ℕ → List ℕ) where
  unfoldable pub sess_chunk : List Track → List ℕ
  sess_chunk tracks =
      if has_multiple_sessions tracks then write_chunk sess_tag (encode_sess_payload tracks) else []

  -- `WriteContainer`: the bytes of the file, or the panic of the digests' encoder.
  unfoldable pub write_container : Manifest → List ℕ → Result HashPanic (List ℕ)
  unfolding sess_chunk
  write_container m delta = do
    hashes ← encode_hash_payload m
    ok (
        container_magic
        ++ (container_version
            ∷ (write_chunk mfst_tag (encode_mfst_payload m)
                ++ (write_chunk trks_tag (encode_trks_payload m.tracks)
                    ++ (write_chunk hash_tag hashes
                        ++ (sess_chunk m.tracks ++ write_chunk dlta_tag (deflate delta)))))))
