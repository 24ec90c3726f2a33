-- ===== src/Storage/Parse/Decimal.antt =====
-- internal/storage/key.go: the generation in a key's text, read back.
use slivingdoc.Base.{
  some, ℕ, zero, suc, ◌+◌, ◌/◌, ◌%◌, ◌^◌, ◌<◌, ◌≡◌, refl, ap, true, false, [], ◌∷◌, ltb, nat_eq,
  bytes_eq, bytes_beq_iff, Bytes, ok, arith, inl, inr, Bool-cases, has_byte, ◌∙◌,
}
use native.Mathlib.Nat.{pow-suc}
use slivingdoc.Storage.Key.{decimal, decimal_from}
use slivingdoc.Storage.Parse.{all_digits, digits_value, parse_uint, parse_generation, or_err}

tenth_lt : (n fuel : ℕ) → n < 10 ^ suc fuel → n / 10 < 10 ^ fuel
tenth_lt n fuel h = omega (arith, pow-suc 10 fuel)

digits_value-decimal_from :
    (fuel n : ℕ) (acc : Bytes)
    → n < 10 ^ fuel
    → digits_value 0 (decimal_from fuel n acc) ≡ digits_value n acc
unfolding digits_value decimal_from
digits_value-decimal_from zero n acc h = ap (λ k. digits_value k acc) (omega arith)
digits_value-decimal_from (suc fuel) n acc h = elim (Bool-cases (ltb n 10)) [
  | inl small ↦ rw small (ap (λ k. digits_value k acc) (omega arith))
  | inr large ↦ rw large (
      digits_value-decimal_from fuel (n / 10) ((b'0' + n % 10) ∷ acc) (tenth_lt n fuel h)
      ∙ ap (λ k. digits_value k acc) (omega arith))
]

all_digits-decimal_from :
    (fuel n : ℕ) (acc : Bytes) → all_digits acc ≡ true → all_digits (decimal_from fuel n acc) ≡ true
unfolding all_digits decimal_from
all_digits-decimal_from zero n acc h = h
all_digits-decimal_from (suc fuel) n acc h = elim (Bool-cases (ltb n 10)) [
  | inl small ↦ ground arith
  | inr large ↦
      rw large (all_digits-decimal_from fuel (n / 10) ((b'0' + n % 10) ∷ acc) (ground arith))
]

some_digits : (fuel n x : ℕ) (acc : Bytes) → ¬ (decimal_from fuel n (x ∷ acc) ≡ [])
unfolding decimal_from
some_digits zero n x acc p = ground arith
some_digits (suc fuel) n x acc p =
    ground (arith, some_digits fuel (n / 10) (b'0' + n % 10) (x ∷ acc))

pub decimal-some : (n : ℕ) → ¬ (decimal n ≡ [])
unfolding decimal decimal_from
decimal-some n p = ground (arith, some_digits 19 (n / 10) (b'0' + n % 10) [])

pub all_digits-decimal : (n : ℕ) → all_digits (decimal n) ≡ true
unfolding decimal all_digits
all_digits-decimal n = all_digits-decimal_from 20 n [] refl

pub digits_value-decimal : (n : ℕ) → n < 2 ^ 64 → digits_value 0 (decimal n) ≡ n
unfolding decimal digits_value
digits_value-decimal n h = digits_value-decimal_from 20 n [] (omega arith)

pub parse_uint-decimal : (n : ℕ) → n < 2 ^ 64 → parse_uint (decimal n) ≡ some n
unfolding parse_uint
parse_uint-decimal n h = ground (
  arith,
  all_digits-decimal n,
  digits_value-decimal n h,
  decimal-some n,
  bytes_beq_iff (decimal n) [],
)

-- For every `uint64`, the decimal text is read back as the number.
pub parse_generation-decimal : (n : ℕ) → n < 2 ^ 64 → parse_generation (decimal n) ≡ ok n
unfolding parse_generation parse_uint or_err
parse_generation-decimal n h = ground (
  arith,
  all_digits-decimal n,
  digits_value-decimal n h,
  decimal-some n,
  bytes_beq_iff (decimal n) [],
  bytes_beq_iff (decimal n) (decimal n),
)

pub digits_without : (c : ℕ) (s : Bytes) → c < b'0' → all_digits s ≡ true → has_byte c s ≡ false
unfolding all_digits has_byte
digits_without c [] small h = refl
digits_without c (x ∷ xs) small h = ground (arith, digits_without c xs small)
