-- ===== src/Common/Bytes.antt =====
-- Go's `encoding/binary` for big-endian numbers and `io.ReadFull`, over lists of bytes.
use Prim.Native.Nat.{ℕ, zero, suc, ◌+◌, ◌*◌, ◌/◌, ◌%◌, ◌^◌, ◌<◌, ◌≤◌}
use mathlib.Core.Path.{◌≡◌, refl, sym, ap, ap₂, ◌∙◌}
use mathlib.Core.List.{List, [], ◌∷◌, ◌++◌}
use mathlib.Core.Option.{Option, none, some}
use native.Mathlib.Nat.{pow-suc, div-div-eq-div-mul, div-eq_of_lt}
use native.Mathlib.Omega.{arith}
use miniscram.Common.Lists.{
  length, take, drop, All, take_append, drop_append, length-append, take-append-drop, length-take,
}
use Prim.Native.Char.{code}
use Prim.Native.String.{String}
use mathlib.Core.Bool.{Bool, true, false, ◌&&◌}
use miniscram.Common.Tests.{ltb, ◌==◌, if◌then◌else◌}

abbrev pub IsByte : ℕ → Type 0
IsByte b = b < 256

-- `binary.BigEndian.PutUint16`, `PutUint32` and `PutUint64`, with 2, 4 and 8 bytes.
abbrev pub put_be : ℕ → ℕ → List ℕ
put_be zero v = []
put_be (suc k) v = (v / 256 ^ k % 256) ∷ put_be k v

-- `binary.BigEndian.Uint16`, `Uint32` and `Uint64`, over an accumulator.
abbrev pub get_be_from : ℕ → List ℕ → ℕ
get_be_from acc [] = acc
get_be_from acc (b ∷ bs) = get_be_from (acc * 256 + b) bs

abbrev pub get_be : List ℕ → ℕ
get_be bs = get_be_from 0 bs

-- `io.ReadFull` of `n` bytes: the bytes and what is left, or nothing on a short read.
abbrev pub read_full : ℕ → List ℕ → Option (List ℕ × List ℕ)
read_full n bs = if ltb (length bs) n then none else some (take n bs, drop n bs)

pub length-put_be : (k v : ℕ) → length (put_be k v) ≡ k
length-put_be zero v = refl
length-put_be (suc k) v = ap suc (length-put_be k v)

pub put_be-IsByte : (k v : ℕ) → All IsByte (put_be k v)
put_be-IsByte zero v = tt
put_be-IsByte (suc k) v = (omega arith, put_be-IsByte k v)

next_digit : (k v : ℕ) → v / 256 ^ suc k * 256 + v / 256 ^ k % 256 ≡ v / 256 ^ k
next_digit k v =
    let e : v / 256 ^ suc k ≡ v / 256 ^ k / 256 =
      ap (λ (t : ℕ). v / t) (pow-suc 256 k) ∙ sym (div-div-eq-div-mul v (256 ^ k) 256) in
    rw e (omega arith)

put_be-mod : (k v : ℕ) → get_be_from (v / 256 ^ k) (put_be k v) ≡ v
put_be-mod zero v = omega arith
put_be-mod (suc k) v = ap (λ (t : ℕ). get_be_from t (put_be k v)) (next_digit k v) ∙ put_be-mod k v

-- Reading back what was written gives the number, if it fits the width.
pub get_be-put_be : (k v : ℕ) → v < 256 ^ k → get_be (put_be k v) ≡ v
get_be-put_be k v h = let e : v / 256 ^ k ≡ 0 = div-eq_of_lt h in rw (← e) (put_be-mod k v)

get_be_from-div : (a : ℕ) (bs : List ℕ) → All IsByte bs → get_be_from a bs / 256 ^ length bs ≡ a
get_be_from-div a [] h = omega arith
get_be_from-div a (b ∷ bs) h =
    let e : get_be_from (a * 256 + b) bs / 256 ^ suc (length bs)
        ≡ get_be_from (a * 256 + b) bs / 256 ^ length bs / 256 =
      ap (λ (t : ℕ). get_be_from (a * 256 + b) bs / t) (pow-suc 256 (length bs))
      ∙ sym (div-div-eq-div-mul (get_be_from (a * 256 + b) bs) (256 ^ length bs) 256) in
    rw (e, get_be_from-div (a * 256 + b) bs h.1) (omega (arith, h.0))

put_be-get_be_from :
    (a : ℕ) (bs : List ℕ) → All IsByte bs → put_be (length bs) (get_be_from a bs) ≡ bs
put_be-get_be_from a [] h = refl
put_be-get_be_from a (b ∷ bs) h =
    let digit : get_be_from (a * 256 + b) bs / 256 ^ length bs % 256 ≡ b =
      rw (get_be_from-div (a * 256 + b) bs h.1) (omega (arith, h.0)) in
    ap₂ ◌∷◌ digit (put_be-get_be_from (a * 256 + b) bs h.1)

-- Writing the number that some bytes mean, with as many bytes, gives them.
pub put_be-get_be :
    (k : ℕ) (bs : List ℕ) → k ≡ length bs → All IsByte bs → put_be k (get_be bs) ≡ bs
put_be-get_be k bs e h = ap (λ (t : ℕ). put_be t (get_be bs)) e ∙ put_be-get_be_from 0 bs h

-- Four bytes mean a uint32.
pub get_be-lt_u32 : (bs : List ℕ) → length bs ≡ 4 → All IsByte bs → get_be bs < 2 ^ 32
get_be-lt_u32 bs e h =
    let zero_above : get_be bs / 256 ^ 4 ≡ 0 =
      ap (λ (n : ℕ). get_be bs / 256 ^ n) (sym e) ∙ get_be_from-div 0 bs h in
    omega (arith, zero_above)

pub read_full-append :
    (front rest : List ℕ) → read_full (length front) (front ++ rest) ≡ some (front, rest)
read_full-append front rest =
    ground (arith, length-append front rest, take_append front rest, drop_append front rest)

pub read_full-le :
    (n : ℕ) (bs : List ℕ) → n ≤ length bs → read_full n bs ≡ some (take n bs, drop n bs)
read_full-le n bs h = ground arith

pub read_full-short : (n : ℕ) (bs : List ℕ) → length bs < n → read_full n bs ≡ none
read_full-short n bs h = ground arith

-- The parts of a read that succeeds.
pub read_full-eq-some :
    (n : ℕ) (bs : List ℕ) {front rest : List ℕ}
    → read_full n bs ≡ some (front, rest)
    → (bs ≡ front ++ rest) × (length front ≡ n) × (front ≡ take n bs) × (rest ≡ drop n bs)
read_full-eq-some n bs h = ground (arith, take-append-drop n bs, length-take n bs)

-- Go strings and `bytes.Equal`: the equality of byte sequences.
unfoldable pub bytes_equal : List ℕ → List ℕ → Bool
bytes_equal [] [] = true
bytes_equal [] (b ∷ bs) = false
bytes_equal (a ∷ xs) [] = false
bytes_equal (a ∷ xs) (b ∷ bs) = a == b && bytes_equal xs bs

pub bytes_equal→eq : (xs ys : List ℕ) → bytes_equal xs ys ≡ true → xs ≡ ys
unfolding bytes_equal
bytes_equal→eq [] [] h = refl
bytes_equal→eq [] (y ∷ ys) h = cc
bytes_equal→eq (x ∷ xs) [] h = cc
bytes_equal→eq (x ∷ xs) (y ∷ ys) h = ground (arith, bytes_equal→eq xs ys)

pub bytes_equal_refl : (xs : List ℕ) → bytes_equal xs xs ≡ true
unfolding bytes_equal
bytes_equal_refl [] = refl
bytes_equal_refl (x ∷ xs) = ground (arith, bytes_equal_refl xs)

-- The bytes of an ASCII text.
abbrev pub codes : String → List ℕ
codes String.[] = []
codes (String.◌∷◌ c s) = code c ∷ codes s
