-- ===== src/Storage/Strict/Sound.antt =====
-- `Parse` of internal/strictjson/json.go gives strict trees only.
use mathlib.Core.Path.{subst}
use slivingdoc.Base.{
  ℕ, zero, suc, ◌*◌, ◌<◌, ◌^◌, ◌≡◌, refl, Bool, true, false, not, ◌||◌, Option, none, some, List,
  [], ◌∷◌, Bytes, bytes_eq, nat_eq, ◌==◌, arith, length, contains, has_byte, Result, ok, err,
  require-ok,
}
use slivingdoc.Storage.Parse.{parse_uint}
use slivingdoc.Storage.Json.{Value, Fields, Values, object, array, number, field, value}
use slivingdoc.Storage.Strict.{
  Token, StrictError, starts_with_minus, unsigned, parse_uint64, Parsed, mapped, with_rest,
  followed, named, next_value, value_from_token, parse_object, parse_array, complete, parsed_root,
  parse_tokens, is_strict, are_strict_fields, are_strict_values,
}

-- The answer of a part of the parser holds.
abbrev Gives : {A : Type 0} → (A → Bool) → Parsed A → Type 0
Gives test (ok (a, rest)) = test a ≡ true
Gives test (err e) = Unit {0}

mapped-Gives :
    {A B : Type 0} (f : A → B) (test : A → Bool) (test' : B → Bool)
    → ((a : A) → test a ≡ true → test' (f a) ≡ true)
    → (p : Parsed A) → Gives test p
    → Gives test' (mapped f p)
mapped-Gives f test test' keep (ok (a, rest)) g = keep a g
mapped-Gives f test test' keep (err e) g = tt

followed-Gives :
    {A B C : Type 0} (f : A → B → C) (test : A → Bool) (test' : B → Bool) (test'' : C → Bool)
    → ((a : A) (b : B) → test a ≡ true → test' b ≡ true → test'' (f a b) ≡ true)
    → (p : Parsed A) (next : List Token → Parsed B) → Gives test p
    → ((ts : List Token) → Gives test' (next ts))
    → Gives test'' (followed f p next)
followed-Gives f test test' test'' keep (err e) next g h = tt
followed-Gives f test test' test'' keep (ok (a, rest)) next g h =
    mapped-Gives (f a) test' test'' (λ b. keep a b g) (next rest) (h rest)

next_value-Gives :
    (parse : Token → List Token → Parsed Value)
    → ((t : Token) (ts : List Token) → Gives is_strict (parse t ts))
    → (ts : List Token) → Gives is_strict (next_value parse ts)
next_value-Gives parse h [] = tt
next_value-Gives parse h (t ∷ ts) = h t ts

parse_uint-small : (s : Bytes) (n : ℕ) → parse_uint s ≡ some n → n < 2 ^ 64
unfolding parse_uint
parse_uint-small s n h = ground (arith, h)

unsigned-strict :
    (s : Bytes) (o : Option ℕ) (v : Value)
    → parse_uint s ≡ o
    → unsigned o ≡ ok v
    → is_strict v ≡ true
unfolding is_strict
unsigned-strict s none v q h = absurd (ground arith)
unsigned-strict s (some n) v q h =
    let read : Result StrictError Value = ok (number n) in
    let given : read ≡ ok v = h in
    let same : number n ≡ v = ground (arith, given) in
    let small = parse_uint-small s n q in
    subst (λ v. is_strict v ≡ true) same (ground (arith, small))

number-Gives :
    (s : Bytes) (rest : List Token) (r : Result StrictError Value)
    → parse_uint64 s ≡ r
    → Gives is_strict (with_rest (λ v. v) rest r)
unfolding parse_uint64
number-Gives s rest (err e) q = tt
number-Gives s rest (ok v) q =
    let (some_digit, q1) =
      require-ok (not (s == [] || starts_with_minus s)) StrictError.not_unsigned _ q in
    let (whole, q2) =
      require-ok (not (has_byte b'.' s || (has_byte b'e' s || has_byte b'E' s)))
        StrictError.not_unsigned _ q1 in
    unsigned-strict s (parse_uint s) v refl q2

named-Gives :
    (name : Bytes) (seen : List Bytes) (b : Bool)
    → contains seen name ≡ b
    → (p : Parsed Value) (next : List Token → Parsed Fields) → Gives is_strict p
    → ((ts : List Token) → Gives (are_strict_fields (name ∷ seen)) (next ts))
    → Gives (are_strict_fields seen) (named name b p next)
unfolding is_strict
named-Gives name seen true q p next g h = tt
named-Gives name seen false q p next g h =
    followed-Gives (field name) is_strict (are_strict_fields (name ∷ seen)) (are_strict_fields seen)
      (λ v fs s r. ground (arith, q, s, r)) p next g h

element-Gives :
    (p : Parsed Value) (next : List Token → Parsed Values)
    → Gives is_strict p
    → ((ts : List Token) → Gives are_strict_values (next ts))
    → Gives are_strict_values (followed value p next)
unfolding is_strict
element-Gives p next g h =
    followed-Gives value is_strict are_strict_values are_strict_values
      (λ v vs s r. ground (arith, s, r)) p next g h

mutual
  unfolding value_from_token is_strict

  value_from_token-Gives :
      (n : ℕ) (t : Token) (rest : List Token) → Gives is_strict (value_from_token n t rest)
  value_from_token-Gives zero t rest = tt
  value_from_token-Gives (suc n) Token.open_object rest =
      mapped-Gives object (are_strict_fields []) is_strict (λ fs s. s) (parse_object n [] rest)
        (parse_object-Gives n [] rest)
  value_from_token-Gives (suc n) Token.open_array rest =
      mapped-Gives array are_strict_values is_strict (λ vs s. s) (parse_array n rest)
        (parse_array-Gives n rest)
  value_from_token-Gives (suc n) Token.close_object rest = tt
  value_from_token-Gives (suc n) Token.close_array rest = tt
  value_from_token-Gives (suc n) (Token.text_token s) rest = refl
  value_from_token-Gives (suc n) (Token.number_token s) rest =
      number-Gives s rest (parse_uint64 s) refl
  value_from_token-Gives (suc n) (Token.bool_token b) rest = refl
  value_from_token-Gives (suc n) Token.null_token rest = tt
  value_from_token-Gives (suc n) Token.failed rest = tt

  parse_object-Gives :
      (n : ℕ) (seen : List Bytes) (ts : List Token)
      → Gives (are_strict_fields seen) (parse_object n seen ts)
  parse_object-Gives zero seen ts = tt
  parse_object-Gives (suc n) seen [] = tt
  parse_object-Gives (suc n) seen (Token.close_object ∷ rest) = refl
  parse_object-Gives (suc n) seen (Token.close_array ∷ rest) = tt
  parse_object-Gives (suc n) seen (Token.failed ∷ rest) = tt
  parse_object-Gives (suc n) seen (Token.text_token name ∷ ts) =
      named-Gives name seen (contains seen name) refl (next_value (value_from_token n) ts)
        (parse_object n (name ∷ seen))
        (next_value-Gives (value_from_token n) (value_from_token-Gives n) ts)
        (parse_object-Gives n (name ∷ seen))
  parse_object-Gives (suc n) seen (Token.open_object ∷ rest) = tt
  parse_object-Gives (suc n) seen (Token.open_array ∷ rest) = tt
  parse_object-Gives (suc n) seen (Token.number_token s ∷ rest) = tt
  parse_object-Gives (suc n) seen (Token.bool_token b ∷ rest) = tt
  parse_object-Gives (suc n) seen (Token.null_token ∷ rest) = tt

  parse_array-Gives : (n : ℕ) (ts : List Token) → Gives are_strict_values (parse_array n ts)
  parse_array-Gives zero ts = tt
  parse_array-Gives (suc n) [] = tt
  parse_array-Gives (suc n) (Token.close_array ∷ rest) = refl
  parse_array-Gives (suc n) (Token.close_object ∷ rest) = tt
  parse_array-Gives (suc n) (Token.open_object ∷ rest) =
      element-Gives (value_from_token n Token.open_object rest) (parse_array n)
        (value_from_token-Gives n Token.open_object rest) (parse_array-Gives n)
  parse_array-Gives (suc n) (Token.open_array ∷ rest) =
      element-Gives (value_from_token n Token.open_array rest) (parse_array n)
        (value_from_token-Gives n Token.open_array rest) (parse_array-Gives n)
  parse_array-Gives (suc n) (Token.text_token s ∷ rest) =
      element-Gives (value_from_token n (Token.text_token s) rest) (parse_array n)
        (value_from_token-Gives n (Token.text_token s) rest) (parse_array-Gives n)
  parse_array-Gives (suc n) (Token.number_token s ∷ rest) =
      element-Gives (value_from_token n (Token.number_token s) rest) (parse_array n)
        (value_from_token-Gives n (Token.number_token s) rest) (parse_array-Gives n)
  parse_array-Gives (suc n) (Token.bool_token b ∷ rest) =
      element-Gives (value_from_token n (Token.bool_token b) rest) (parse_array n)
        (value_from_token-Gives n (Token.bool_token b) rest) (parse_array-Gives n)
  parse_array-Gives (suc n) (Token.null_token ∷ rest) =
      element-Gives (value_from_token n Token.null_token rest) (parse_array n)
        (value_from_token-Gives n Token.null_token rest) (parse_array-Gives n)
  parse_array-Gives (suc n) (Token.failed ∷ rest) =
      element-Gives (value_from_token n Token.failed rest) (parse_array n)
        (value_from_token-Gives n Token.failed rest) (parse_array-Gives n)

complete-strict :
    (p : Parsed Value) (v : Value) → Gives is_strict p → complete p ≡ ok v → is_strict v ≡ true
complete-strict (err e) v g h = absurd (ground arith)
complete-strict (ok (w, [])) v g h = subst (λ v. is_strict v ≡ true) (ground arith) g
complete-strict (ok (w, t ∷ ts)) v g h = absurd (ground arith)

-- Whatever the tokens are, a tree that `Parse` gives has no field name twice in an object, at any
-- level, and only 64-bit numbers.
pub parse_tokens_strict :
    (ts : List Token) (v : Value) → parse_tokens ts ≡ ok v → is_strict v ≡ true
unfolding parse_tokens
parse_tokens_strict [] v h = absurd (ground arith)
parse_tokens_strict (t ∷ ts) v h =
    complete-strict (parsed_root (t ∷ ts)) v (value_from_token-Gives (3 * length (t ∷ ts)) t ts) h
