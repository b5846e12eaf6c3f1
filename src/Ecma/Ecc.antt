-- ===== src/Ecma/Ecc.antt =====
-- ecma130.go, clauses 14.5 and 14.6 with Annex A: the Reed-Solomon product code.
use miniscram.Common.{
  ℕ, zero, suc, ◌+◌, ◌-◌, ◌*◌, ◌%◌, bit_and, bit_xor, List, [], ◌∷◌, ◌++◌, ◌==◌, ◌||◌,
  if◌then◌else◌, get_or, set, replicate, take, drop,
}

pub record GfTables : Type 0 where
  pub exp : List ℕ
  pub log : List ℕ

-- The loop of `buildGFTables`: `left` rounds from the index `i`, at which alpha^i is `x`.
unfoldable pub gf_step : ℕ → ℕ → ℕ → GfTables → GfTables
gf_step zero i x t = t
gf_step (suc left) i x t =
    let x2 = x * 2 % 256 in
    gf_step left (i + 1) (if bit_and x 0x80 == 0 then x2 else bit_xor x2 0x1d)
      (record { exp = set t.exp i x; log = set t.log x (i % 256) })

unfoldable pub build_gf_tables : GfTables
unfolding gf_step
build_gf_tables =
    let t = gf_step 255 0 1 (record { exp = replicate 256 0; log = replicate 256 0 }) in
    record t { exp = set t.exp 255 (get_or t.exp 0 0) }

unfoldable pub gf_tables : GfTables
unfolding build_gf_tables
gf_tables = build_gf_tables

unfoldable pub gf_exp : ℕ → ℕ
unfolding gf_tables
gf_exp i = get_or gf_tables.exp i 0

unfoldable pub gf_log : ℕ → ℕ
unfolding gf_tables
gf_log a = get_or gf_tables.log a 0

unfoldable pub gf_mul : ℕ → ℕ → ℕ
unfolding gf_exp gf_log
gf_mul a b = if a == 0 || b == 0 then 0 else gf_exp ((gf_log a + gf_log b) % 255)

unfoldable pub gf_inv3 : ℕ
unfolding gf_exp gf_log
gf_inv3 = gf_exp ((255 - gf_log 3) % 255)

-- The two syndromes of one vector: `left` data bytes from the index `i` on, the weight of byte
-- `i` is alpha^(top - i). `at` gives the position of a byte in the stream.
unfoldable pub syndromes : List ℕ → (ℕ → ℕ) → ℕ → ℕ → ℕ → ℕ × ℕ → ℕ × ℕ
syndromes stream at top zero i s = s
syndromes stream at top (suc left) i (s0, s1) =
    let v = get_or stream (at i) 0 in
    syndromes stream at top left (i + 1)
      (bit_xor s0 v, bit_xor s1 (gf_mul (gf_exp ((top - i) % 255)) v))

-- The two parity bytes, written at `out0` and `out1`.
unfoldable pub parity : ℕ × ℕ → ℕ → ℕ → List ℕ → List ℕ
parity (s0, s1) out0 out1 stream =
    let v = gf_mul (bit_xor s0 s1) gf_inv3 in set (set stream out0 v) out1 (bit_xor s0 v)

-- One round of each loop of `rspcParity`.
unfoldable pub p_column : ℕ → List ℕ → List ℕ
unfolding syndromes parity
p_column np stream =
    parity (syndromes stream (λ i. 43 * i + np) 25 24 0 (0, 0)) (1032 + np) (1075 + np) stream

unfoldable pub q_diagonal : ℕ → List ℕ → List ℕ
unfolding syndromes parity
q_diagonal nq stream =
    parity (syndromes stream (λ mq. (44 * mq + 43 * nq) % 1118) 44 43 0 (0, 0)) (1118 + nq)
      (1144 + nq) stream

unfoldable pub rounds : (ℕ → List ℕ → List ℕ) → ℕ → ℕ → List ℕ → List ℕ
rounds body zero i stream = stream
rounds body (suc left) i stream = rounds body left (i + 1) (body i stream)

-- `rspcParity`: 43 columns, then 26 diagonals.
unfoldable pub rspc_parity : List ℕ → List ℕ
unfolding rounds
rspc_parity stream = rounds q_diagonal 26 0 (rounds p_column 43 0 stream)

-- The bytes at the even and at the odd places: the LSB and the MSB stream.
unfoldable pub deinterleave : List ℕ → List ℕ × List ℕ
deinterleave [] = ([], [])
deinterleave (l ∷ []) = (l ∷ [], [])
deinterleave (l ∷ m ∷ rest) = let (ls, ms) = deinterleave rest in (l ∷ ls, m ∷ ms)

unfoldable pub interleave : List ℕ → List ℕ → List ℕ
interleave [] ms = ms
interleave (l ∷ ls) [] = l ∷ ls
interleave (l ∷ ls) (m ∷ ms) = l ∷ m ∷ interleave ls ms

-- `ComputeECC`: bytes 2076 to 2351 are filled from both streams' positions 1032 to 1169.
unfoldable pub compute_ecc : List ℕ → List ℕ
unfolding deinterleave interleave rspc_parity
compute_ecc sec =
    let (lsb, msb) = deinterleave (drop 12 sec) in
    take 2076 sec ++ interleave (drop 1032 (rspc_parity lsb)) (drop 1032 (rspc_parity msb))
