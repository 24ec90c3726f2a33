-- ===== src/Storage/Strict/RoundTrip.antt =====
-- `Parse` of internal/strictjson/json.go gives back every strict tree.
use slivingdoc.Base.{
  ℕ, zero, suc, ◌+◌, ◌*◌, ◌≤◌, ◌<◌, ◌≡◌, refl, ap, ◌∙◌, Bool-cases, inl, inr, true, false, List, [],
  ◌∷◌, Bytes, bytes_eq, bytes_beq_iff, ◌==◌, arith, length, contains, has_byte, ok, ◌^◌,
}
use slivingdoc.Storage.Key.{decimal}
use slivingdoc.Storage.Parse.{all_digits}
use slivingdoc.Storage.Parse.Decimal.{
  parse_uint-decimal, all_digits-decimal, decimal-some, digits_without,
}
use slivingdoc.Storage.Json.{
  Value, Fields, Values, object, array, string, number, boolean, no_fields, field, no_values, value,
}
use slivingdoc.Storage.Strict.{
  Token, starts_with_minus, parse_uint64, mapped, followed, value_from_token, parse_object,
  parse_array, complete, parse_tokens, first_token, tail_then, fields_then, values_then, tokens_of,
  is_strict, are_strict_fields, are_strict_values,
}

digits_without_letter : (c : ℕ) (s : Bytes) → 57 < c → all_digits s ≡ true → has_byte c s ≡ false
unfolding all_digits has_byte
digits_without_letter c [] big h = refl
digits_without_letter c (x ∷ xs) big h = ground (arith, digits_without_letter c xs big)

digits_start : (s : Bytes) → all_digits s ≡ true → starts_with_minus s ≡ false
unfolding all_digits
digits_start [] h = refl
digits_start (c ∷ cs) h = ground (arith, h)

some_text : (s : Bytes) → ¬ (s ≡ []) → (s == []) ≡ false
some_text s some_byte = elim (Bool-cases (s == [])) [
  | inl e ↦ absurd (some_byte ((bytes_beq_iff s []).0 e))
  | inr d ↦ d
]

parse_uint64-decimal : (n : ℕ) → n < 2 ^ 64 → parse_uint64 (decimal n) ≡ ok (number n)
unfolding parse_uint64
parse_uint64-decimal n small =
    let digits = all_digits-decimal n in
    let empty = some_text (decimal n) (decimal-some n) in
    rw
      (
        empty,
        digits_start (decimal n) digits,
        digits_without b'.' (decimal n) (omega arith) digits,
        digits_without_letter b'e' (decimal n) (omega arith) digits,
        digits_without_letter b'E' (decimal n) (omega arith) digits,
        parse_uint-decimal n small,
      )
      refl

-- How many calls of the parser a tree takes, one inside another.
unfoldable mutual
  cost : Value → ℕ
  cost (object fs) = suc (cost_fields fs)
  cost (array vs) = suc (cost_values vs)
  cost (string s) = 1
  cost (number n) = 1
  cost (boolean b) = 1

  cost_fields : Fields → ℕ
  cost_fields no_fields = 1
  cost_fields (field name v fs) = suc (cost v + cost_fields fs)

  cost_values : Values → ℕ
  cost_values no_values = 1
  cost_values (value v vs) = suc (cost v + cost_values vs)

mutual
  unfolding cost tail_then

  cost-bound :
      (v : Value) (rest : List Token) → cost v + 3 * length rest ≤ 3 * length (tail_then v rest) + 1
  cost-bound (object fs) rest = omega (arith, cost_fields-bound fs (Token.close_object ∷ rest))
  cost-bound (array vs) rest = omega (arith, cost_values-bound vs (Token.close_array ∷ rest))
  cost-bound (string s) rest = omega arith
  cost-bound (number n) rest = omega arith
  cost-bound (boolean b) rest = omega arith

  cost_fields-bound :
      (fs : Fields) (rest : List Token)
      → cost_fields fs + 3 * length rest ≤ 3 * length (fields_then fs rest) + 1
  cost_fields-bound no_fields rest = omega arith
  cost_fields-bound (field name v fs) rest =
      omega (arith, cost-bound v (fields_then fs rest), cost_fields-bound fs rest)

  cost_values-bound :
      (vs : Values) (rest : List Token)
      → cost_values vs + 3 * length rest ≤ 3 * length (values_then vs rest) + 1
  cost_values-bound no_values rest = omega arith
  cost_values-bound (value v vs) rest =
      omega (arith, cost-bound v (values_then vs rest), cost_values-bound vs rest)

-- A value's first token is none that ends an array.
parse_array-value :
    (n : ℕ) (v : Value) (rest : List Token)
    → parse_array (suc n) (first_token v ∷ rest)
      ≡ followed value (value_from_token n (first_token v) rest) (parse_array n)
unfolding parse_array
parse_array-value n (object fs) rest = refl
parse_array-value n (array vs) rest = refl
parse_array-value n (string s) rest = refl
parse_array-value n (number k) rest = refl
parse_array-value n (boolean b) rest = refl

mutual
  unfolding cost tail_then is_strict value_from_token

  value_from_token-value :
      (v : Value) (n : ℕ) (rest : List Token)
      → cost v ≤ n
      → is_strict v ≡ true
      → value_from_token n (first_token v) (tail_then v rest) ≡ ok (v, rest)
  value_from_token-value (object fs) zero rest h s = absurd (omega arith)
  value_from_token-value (array vs) zero rest h s = absurd (omega arith)
  value_from_token-value (string t) zero rest h s = absurd (omega arith)
  value_from_token-value (number k) zero rest h s = absurd (omega arith)
  value_from_token-value (boolean b) zero rest h s = absurd (omega arith)
  value_from_token-value (object fs) (suc n) rest h s =
      ap (mapped object) (parse_object-fields fs n [] rest (omega arith) s)
  value_from_token-value (array vs) (suc n) rest h s =
      ap (mapped array) (parse_array-values vs n rest (omega arith) s)
  value_from_token-value (string t) (suc n) rest h s = refl
  value_from_token-value (number k) (suc n) rest h s =
      rw (parse_uint64-decimal k (ground (arith, s))) refl
  value_from_token-value (boolean b) (suc n) rest h s = refl

  parse_object-fields :
      (fs : Fields) (n : ℕ) (seen : List Bytes) (rest : List Token)
      → cost_fields fs ≤ n
      → are_strict_fields seen fs ≡ true
      → parse_object n seen (fields_then fs (Token.close_object ∷ rest)) ≡ ok (fs, rest)
  parse_object-fields no_fields zero seen rest h s = absurd (omega arith)
  parse_object-fields (field name v fs) zero seen rest h s = absurd (omega arith)
  parse_object-fields no_fields (suc n) seen rest h s = refl
  parse_object-fields (field name v fs) (suc n) seen rest h s =
      let fresh : contains seen name ≡ false = ground (arith, s) in
      let strict : is_strict v ≡ true = ground (arith, s) in
      let others : are_strict_fields (name ∷ seen) fs ≡ true = ground (arith, s) in
      rw
        (
          fresh,
          value_from_token-value v n (fields_then fs (Token.close_object ∷ rest)) (omega arith)
              strict,
          parse_object-fields fs n (name ∷ seen) rest (omega arith) others,
        )
        refl

  parse_array-values :
      (vs : Values) (n : ℕ) (rest : List Token)
      → cost_values vs ≤ n
      → are_strict_values vs ≡ true
      → parse_array n (values_then vs (Token.close_array ∷ rest)) ≡ ok (vs, rest)
  parse_array-values no_values zero rest h s = absurd (omega arith)
  parse_array-values (value v vs) zero rest h s = absurd (omega arith)
  parse_array-values no_values (suc n) rest h s = refl
  parse_array-values (value v vs) (suc n) rest h s =
      let strict : is_strict v ≡ true = ground (arith, s) in
      let others : are_strict_values vs ≡ true = ground (arith, s) in
      parse_array-value n v (tail_then v (values_then vs (Token.close_array ∷ rest)))
      ∙ ap (λ p. followed value p (parse_array n))
          (value_from_token-value v n (values_then vs (Token.close_array ∷ rest)) (omega arith)
            strict)
      ∙ ap (mapped (value v)) (parse_array-values vs n rest (omega arith) others)

-- The tokens of a tree whose objects have no name twice and whose numbers are 64-bit values are
-- parsed back to the tree.
pub parse_tokens-tokens_of : (v : Value) → is_strict v ≡ true → parse_tokens (tokens_of v) ≡ ok v
unfolding parse_tokens
parse_tokens-tokens_of v strict =
    ap complete (
      value_from_token-value v (3 * length (tokens_of v)) [] (omega (arith, cost-bound v []))
        strict)
