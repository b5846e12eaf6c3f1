-- ===== src/Chunks/Frame.antt =====
-- chunks.go: `writeChunk` and `readChunk`.
use mathlib.Core.List.{append_assoc}
use miniscram.Common.{
  ℕ, ◌*◌, ◌^◌, ◌%◌, ◌<◌, ◌≤◌, ◌≡◌, refl, sym, ap, ap₂, ◌∙◌, arith, true, ◌||◌, ◌⊎◌, inl, inr, List,
  [], ◌∷◌, ◌++◌, length, take, drop, leb, ◌==◌, bytes_equal, bytes_equal_refl, codes, get_be,
  put_be, get_be-put_be, put_be-get_be, read_full, read_full-append, length-append, length-drop,
  take-append-drop, take_append, drop_append, IsByte, All, All-take, All-drop, Result, ok, err,
  ◌>>=◌, guard, or_err, guard-eq-ok, or_err-eq-ok, >>=-eq-ok, ok-injective, some, get_be-lt_u32,
  read_full-eq-some,
}
use miniscram.Chunks.Crc.{crc32, crc32-lt}

abbrev pub chunk_length_cap : ℕ
chunk_length_cap = 16 * 2 ^ 20

-- The tags: `fourcc` of a literal is its bytes.
abbrev pub mfst_tag : List ℕ
mfst_tag = codes "MFST"

abbrev pub trks_tag : List ℕ
trks_tag = codes "TRKS"

abbrev pub hash_tag : List ℕ
hash_tag = codes "HASH"

abbrev pub sess_tag : List ℕ
sess_tag = codes "SESS"

abbrev pub dlta_tag : List ℕ
dlta_tag = codes "DLTA"

-- `end_of_file` is the clean `io.EOF` before a chunk.
pub data ChunkError : Type 0 where
  end_of_file header_short : ChunkError
  too_long : List ℕ → ℕ → ChunkError
  payload_short : List ℕ → ChunkError
  crc_short : List ℕ → ChunkError
  crc_mismatch : List ℕ → ChunkError

-- `writeChunk`: the bytes that it writes.
unfoldable pub write_chunk : List ℕ → List ℕ → List ℕ
write_chunk tag payload =
    tag ++ (put_be 4 (length payload % 2 ^ 32) ++ (payload ++ put_be 4 (crc32 (tag ++ payload))))

-- The body of `readChunk` on a reader that is not at its end.
unfoldable pub read_chunk_body : List ℕ → Result ChunkError (List ℕ × List ℕ × List ℕ)
read_chunk_body bs = do
  (head, r1) ← or_err (read_full 8 bs) header_short
  let tag = take 4 head
  let len = get_be (drop 4 head)
  _ ← guard (bytes_equal tag dlta_tag || leb len chunk_length_cap) (too_long tag len)
  (payload, r2) ← or_err (read_full len r1) (payload_short tag)
  (want, r3) ← or_err (read_full 4 r2) (crc_short tag)
  _ ← guard (crc32 (tag ++ payload) == get_be want) (crc_mismatch tag)
  ok (tag, payload, r3)

-- `readChunk`: the tag, the payload and what is left of the file.
unfoldable pub read_chunk : List ℕ → Result ChunkError (List ℕ × List ℕ × List ℕ)
unfolding read_chunk_body
read_chunk [] = err end_of_file
read_chunk (b ∷ bs) = read_chunk_body (b ∷ bs)

-- The tag and the payload can be framed: all lengths fit, and so does the cap.
pub record IsFramable (tag payload : List ℕ) : Type 0 where
  pub tag_length : length tag ≡ 4
  pub payload_length : length payload < 2 ^ 32
  pub capped : (tag ≡ dlta_tag) ⊎ (length payload ≤ chunk_length_cap)

read_chunk_full : (bs : List ℕ) → 0 < length bs → read_chunk bs ≡ read_chunk_body bs
unfolding read_chunk
read_chunk_full [] h = absurd (omega arith)
read_chunk_full (b ∷ bs) h = refl

allowed :
    (tag : List ℕ) (n : ℕ)
    → (tag ≡ dlta_tag) ⊎ (n ≤ chunk_length_cap)
    → (bytes_equal tag dlta_tag || leb n chunk_length_cap) ≡ true
allowed tag n (inl e) = rw (e, bytes_equal_refl dlta_tag) refl
allowed tag n (inr h) = ground arith

read_at : (n : ℕ) (xs rest : List ℕ) → n ≡ length xs → read_full n (xs ++ rest) ≡ some (xs, rest)
read_at n xs rest e = rw e (read_full-append xs rest)

read_header :
    (tag rest : List ℕ) (n : ℕ)
    → length tag ≡ 4
    → read_full 8 (tag ++ (put_be 4 n ++ rest)) ≡ some (tag ++ put_be 4 n, rest)
read_header tag rest n e =
    ap (read_full 8) (sym (append_assoc tag (put_be 4 n) rest))
    ∙ read_at 8 (tag ++ put_be 4 n) rest (omega (arith, length-append tag (put_be 4 n)))

take_tag : (tag rest : List ℕ) → length tag ≡ 4 → take 4 (tag ++ rest) ≡ tag
take_tag tag rest e = ap (λ (n : ℕ). take n (tag ++ rest)) (sym e) ∙ take_append tag rest

drop_tag : (tag rest : List ℕ) → length tag ≡ 4 → drop 4 (tag ++ rest) ≡ rest
drop_tag tag rest e = ap (λ (n : ℕ). drop n (tag ++ rest)) (sym e) ∙ drop_append tag rest

same_is_equal : (n : ℕ) → (n == n) ≡ true
same_is_equal n = ground arith

numbers_equal : (m n : ℕ) → (m == n) ≡ true → m ≡ n
numbers_equal m n h = ground arith

front_bytes : (n : ℕ) (bs front : List ℕ) → front ≡ take n bs → All IsByte bs → All IsByte front
front_bytes n bs front e h = rw e (All-take IsByte n bs h)

rest_bytes : (n : ℕ) (bs rest : List ℕ) → rest ≡ drop n bs → All IsByte bs → All IsByte rest
rest_bytes n bs rest e h = rw e (All-drop IsByte n bs h)

frame_assoc :
    (tag payload rest : List ℕ)
    → write_chunk tag payload ++ rest
      ≡ tag
        ++ (put_be 4 (length payload % 2 ^ 32)
            ++ (payload ++ (put_be 4 (crc32 (tag ++ payload)) ++ rest)))
unfolding write_chunk
frame_assoc tag payload rest =
    append_assoc tag
      (put_be 4 (length payload % 2 ^ 32) ++ (payload ++ put_be 4 (crc32 (tag ++ payload)))) rest
    ∙ ap (λ (t : List ℕ). tag ++ t)
        (append_assoc (put_be 4 (length payload % 2 ^ 32))
            (payload ++ put_be 4 (crc32 (tag ++ payload))) rest
          ∙ ap (λ (t : List ℕ). put_be 4 (length payload % 2 ^ 32) ++ t)
              (append_assoc payload (put_be 4 (crc32 (tag ++ payload))) rest))

-- A chunk with a tag of four bytes and a payload within the cap (unless it is DLTA) and below
-- 4 GiB is read back, whatever follows it, and what follows is left.
pub read_chunk-write_chunk :
    (tag payload rest : List ℕ)
    → IsFramable tag payload
    → read_chunk (write_chunk tag payload ++ rest) ≡ ok (tag, payload, rest)
unfolding read_chunk_body
read_chunk-write_chunk tag payload rest h =
    let size : length payload % 2 ^ 32 ≡ length payload = omega (arith, h.payload_length) in
    let crc : List ℕ = put_be 4 (crc32 (tag ++ payload)) ++ rest in
    ap read_chunk
      (frame_assoc tag payload rest ∙ ap (λ (t : ℕ). tag ++ (put_be 4 t ++ (payload ++ crc))) size)
    ∙ read_chunk_full _ (
        omega
          (arith, length-append tag (put_be 4 (length payload) ++ (payload ++ crc)), h.tag_length))
    ∙ rw
        (
          read_header tag (payload ++ crc) (length payload) h.tag_length,
          take_tag tag (put_be 4 (length payload)) h.tag_length,
          drop_tag tag (put_be 4 (length payload)) h.tag_length,
          get_be-put_be 4 (length payload) (omega (arith, h.payload_length)),
          allowed tag (length payload) h.capped,
          read_full-append payload crc,
          read_at 4 (put_be 4 (crc32 (tag ++ payload))) rest refl,
          get_be-put_be 4 (crc32 (tag ++ payload)) (crc32-lt (tag ++ payload)),
          same_is_equal (crc32 (tag ++ payload)),
        )
        refl

rebuild_chunk :
    (bs tag payload rest head r1 r2 want : List ℕ)
    → (bs ≡ head ++ r1) × (length head ≡ 8)
    → (r1 ≡ payload ++ r2) × (length payload ≡ get_be (drop 4 head))
    → (r2 ≡ want ++ rest) × (length want ≡ 4)
    → tag ≡ take 4 head
    → crc32 (tag ++ payload) ≡ get_be want
    → All IsByte head
    → All IsByte want
    → bs ≡ write_chunk tag payload ++ rest
rebuild_chunk bs tag payload rest head r1 r2 want h1 h2 h3 is_tag crc hb wb =
    let four : length (drop 4 head) ≡ 4 = omega (arith, length-drop 4 head, h1.1) in
    let small : length payload % 2 ^ 32 ≡ get_be (drop 4 head) =
      omega (arith, h2.1, get_be-lt_u32 (drop 4 head) four (All-drop IsByte 4 head hb)) in
    let size : put_be 4 (length payload % 2 ^ 32) ≡ drop 4 head =
      ap (put_be 4) small ∙ put_be-get_be 4 (drop 4 head) (sym four) (All-drop IsByte 4 head hb) in
    let sum : put_be 4 (crc32 (tag ++ payload)) ≡ want =
      ap (put_be 4) crc ∙ put_be-get_be 4 want (sym h3.1) wb in
    let split : head ≡ tag ++ drop 4 head =
      sym (take-append-drop 4 head) ∙ ap (λ (t : List ℕ). t ++ drop 4 head) (sym is_tag) in
    h1.0
    ∙ ap₂ ◌++◌ split (h2.0 ∙ ap (λ (t : List ℕ). payload ++ t) h3.0)
    ∙ append_assoc tag (drop 4 head) (payload ++ (want ++ rest))
    ∙ ap₂ (λ (s w : List ℕ). tag ++ (s ++ (payload ++ (w ++ rest)))) (sym size) (sym sum)
    ∙ sym (frame_assoc tag payload rest)

reads_rebuild :
    (bs tag payload rest head r1 payload' r2 want r3 : List ℕ)
    → read_full 8 bs ≡ some (head, r1)
    → read_full (get_be (drop 4 head)) r1 ≡ some (payload', r2)
    → read_full 4 r2 ≡ some (want, r3)
    → (crc32 (take 4 head ++ payload') == get_be want) ≡ true
    → ◌≡◌ {A = List ℕ × List ℕ × List ℕ} (take 4 head, payload', r3) (tag, payload, rest)
    → All IsByte bs
    → bs ≡ write_chunk tag payload ++ rest
reads_rebuild bs tag payload rest head r1 payload' r2 want r3 e1 e2 e3 same got h =
    let (p1, l1, f1, s1) = read_full-eq-some 8 bs e1 in
    let (p2, l2, f2, s2) = read_full-eq-some (get_be (drop 4 head)) r1 e2 in
    let (p3, l3, f3, s3) = read_full-eq-some 4 r2 e3 in
    let bytes2 : All IsByte r2 =
      rest_bytes (get_be (drop 4 head)) r1 r2 s2 (rest_bytes 8 bs r1 s1 h) in
    rebuild_chunk bs (take 4 head) payload' r3 head r1 r2 want (p1, l1) (p2, l2) (p3, l3) refl
      (numbers_equal _ _ same) (front_bytes 8 bs head f1 h) (front_bytes 4 r2 want f3 bytes2)
    ∙ ap (λ (t : List ℕ × List ℕ × List ℕ). write_chunk t.0 t.1 ++ t.2) got

-- On a file of bytes, whatever `readChunk` accepts is what `writeChunk` writes for the tag and the
-- payload that it returns, followed by what it leaves.
pub read_chunk-eq-ok :
    (bs tag payload rest : List ℕ)
    → All IsByte bs
    → read_chunk bs ≡ ok (tag, payload, rest)
    → bs ≡ write_chunk tag payload ++ rest
unfolding read_chunk read_chunk_body
read_chunk-eq-ok [] tag payload rest h e = cc
read_chunk-eq-ok (b ∷ bs) tag payload rest h e =
    let ((head, r1), head_read, e1) = >>=-eq-ok (or_err (read_full 8 (b ∷ bs)) header_short) _ e in
    let (_, _, e2) =
      >>=-eq-ok
        (guard (bytes_equal (take 4 head) dlta_tag || leb (get_be (drop 4 head)) chunk_length_cap)
          (too_long (take 4 head) (get_be (drop 4 head))))
        _ e1 in
    let ((payload', r2), payload_read, e3) =
      >>=-eq-ok (or_err (read_full (get_be (drop 4 head)) r1) (payload_short (take 4 head))) _ e2 in
    let ((want, r3), want_read, e4) =
      >>=-eq-ok (or_err (read_full 4 r2) (crc_short (take 4 head))) _ e3 in
    let (_, checked, e5) =
      >>=-eq-ok
        (guard (crc32 (take 4 head ++ payload') == get_be want) (crc_mismatch (take 4 head))) _
        e4 in
    reads_rebuild (b ∷ bs) tag payload rest head r1 payload' r2 want r3
      (or_err-eq-ok (read_full 8 (b ∷ bs)) header_short head_read)
      (or_err-eq-ok (read_full (get_be (drop 4 head)) r1) (payload_short (take 4 head))
        payload_read)
      (or_err-eq-ok (read_full 4 r2) (crc_short (take 4 head)) want_read)
      (guard-eq-ok (crc32 (take 4 head ++ payload') == get_be want) (crc_mismatch (take 4 head))
        checked)
      (ok-injective e5) h
