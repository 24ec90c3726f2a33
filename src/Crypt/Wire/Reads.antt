-- ===== src/Crypt/Wire/Reads.antt =====
-- What was written in big-endian order is read back.
use slivingdoc.Base.{
  ℕ, zero, suc, ◌+◌, ◌*◌, ◌/◌, ◌%◌, ◌<◌, ◌≡◌, refl, sym, ap, ◌∙◌, arith, false, [], ◌∷◌, ◌++◌,
  Bytes, length, take, drop, length-append,
}
use slivingdoc.Crypt.Wire.{
  big_endian, value_from, value_of, Reader, read_u8, read_take, read_number, numbered,
}

-- The number of values of that many bytes.
abbrev pub limit : ℕ → ℕ
limit zero = 1
limit (suc n) = limit n * 256

pub length-big_endian : (n v : ℕ) → length (big_endian n v) ≡ n
length-big_endian zero v = refl
length-big_endian (suc n) v =
    omega
      (arith, length-append (big_endian n (v / 256)) (v % 256 ∷ []), length-big_endian n (v / 256))

value_from-append :
    (acc : ℕ) (xs ys : Bytes) → value_from acc (xs ++ ys) ≡ value_from (value_from acc xs) ys
value_from-append acc [] ys = refl
value_from-append acc (x ∷ xs) ys = value_from-append (acc * 256 + x) xs ys

-- A number of that many bytes is its value.
pub value_of-big_endian : (n v : ℕ) → v < limit n → value_of (big_endian n v) ≡ v
value_of-big_endian zero v h = omega (arith, h)
value_of-big_endian (suc n) v h = omega (
  arith,
  value_from-append 0 (big_endian n (v / 256)) (v % 256 ∷ []),
  value_of-big_endian n (v / 256) (omega (arith, h)),
)

pub take-append : (a b : Bytes) → take (length a) (a ++ b) ≡ a
unfolding take
take-append [] b = refl
take-append (x ∷ xs) b = ap (λ t. x ∷ t) (take-append xs b)

pub drop-append : (a b : Bytes) → drop (length a) (a ++ b) ≡ b
unfolding drop
drop-append [] b = refl
drop-append (x ∷ xs) b = drop-append xs b

abbrev pub at : Bytes → ℕ → Reader
at rest off = record { rest = rest; off = off; failed = false }

pub read_u8-cons :
    (x : ℕ) (rest : Bytes) (off : ℕ) → read_u8 (at (x ∷ rest) off) ≡ (x, at rest (off + 1))
unfolding read_u8
read_u8-cons x rest off = refl

pub read_take-append :
    (a rest : Bytes) (off n : ℕ)
    → length a ≡ n
    → read_take n (at (a ++ rest) off) ≡ (a, at rest (off + n))
unfolding read_take
read_take-append a rest off n h = ground (
  arith,
  length-append a rest,
  sym (ap (λ k. take k (a ++ rest)) h) ∙ take-append a rest,
  sym (ap (λ k. drop k (a ++ rest)) h) ∙ drop-append a rest,
)

pub read_number-append :
    (n v : ℕ) (rest : Bytes) (off : ℕ)
    → v < limit n
    → read_number n (at (big_endian n v ++ rest) off) ≡ (v, at rest (off + n))
unfolding read_number
read_number-append n v rest off h =
    ap numbered (read_take-append (big_endian n v) rest off n (length-big_endian n v))
    ∙ ap (λ k. (k, at rest (off + n))) (value_of-big_endian n v h)
