-- ===== src/Storage/Strict.antt =====
-- internal/strictjson/json.go: `Parse` over the tokens that a `json.Decoder` of Go's library gives
-- with `UseNumber`; the end of the list is `io.EOF`.
pub mod RoundTrip
pub mod Sound
use slivingdoc.Base.{
  ℕ, zero, suc, ◌*◌, Bool, true, false, not, ◌&&◌, ◌||◌, Option, none, some, List, [], ◌∷◌, ◌==◌,
  nat_eq, bytes_eq, Bytes, codes, length, contains, has_byte, runes, if◌then◌else◌, Result, ok, err,
  ◌>>=◌, ◌>>◌, require, ltb, ◌^◌,
}
use slivingdoc.Storage.Json.{
  Value, Fields, Values, object, array, string, number, boolean, no_fields, field, no_values, value,
}
use slivingdoc.Storage.Key.{decimal}
use slivingdoc.Storage.Parse.{parse_uint}

-- `failed` is a call of `Token` that returns an error.
pub data Token : Type 0 where
  open_object : Token
  close_object : Token
  open_array : Token
  close_array : Token
  text_token : Bytes → Token
  number_token : Bytes → Token
  bool_token : Bool → Token
  null_token : Token
  failed : Token

pub data StrictError : Type 0 where
  no_token : StrictError
  unexpected_delimiter : StrictError
  not_unsigned : StrictError
  explicit_null : StrictError
  name_not_string : StrictError
  duplicate_field : StrictError
  trailing_data : StrictError

abbrev pub starts_with_minus : Bytes → Bool
starts_with_minus [] = false
starts_with_minus (c ∷ cs) = c == b'-'

abbrev pub unsigned : Option ℕ → Result StrictError Value
unsigned none = err StrictError.not_unsigned
unsigned (some n) = ok (number n)

-- `parseUint64`
unfoldable pub parse_uint64 : Bytes → Result StrictError Value
parse_uint64 s = do
  require (not (s == [] || starts_with_minus s)) StrictError.not_unsigned
  require (not (has_byte b'.' s || (has_byte b'e' s || has_byte b'E' s))) StrictError.not_unsigned
  unsigned (parse_uint s)

abbrev pub Parsed : Type 0 → Type 0
Parsed A = Result StrictError (A × List Token)

abbrev pub with_rest : {A B : Type 0} → (A → B) → List Token → Result StrictError A → Parsed B
with_rest f rest (ok a) = ok (f a, rest)
with_rest f rest (err e) = err e

abbrev pub mapped : {A B : Type 0} → (A → B) → Parsed A → Parsed B
mapped f (ok (a, rest)) = ok (f a, rest)
mapped f (err e) = err e

-- The answer of one part, and the parse of what follows it.
abbrev pub followed : {A B C : Type 0} → (A → B → C) → Parsed A → (List Token → Parsed B) → Parsed C
followed f (err e) next = err e
followed f (ok (a, rest)) next = mapped (f a) (next rest)

-- A name that was not seen, with its value, in front of the other fields.
abbrev pub named : Bytes → Bool → Parsed Value → (List Token → Parsed Fields) → Parsed Fields
named name true v next = err StrictError.duplicate_field
named name false v next = followed (field name) v next

-- The token behind a name, and the value it starts.
abbrev pub next_value : (Token → List Token → Parsed Value) → List Token → Parsed Value
next_value parse [] = err StrictError.no_token
next_value parse (t ∷ rest) = parse t rest

-- `valueFromToken`, `parseObject` and `parseArray` on fuel; `seen` are the names of the object so far.
unfoldable mutual
  pub value_from_token : ℕ → Token → List Token → Parsed Value
  value_from_token zero t rest = err StrictError.no_token
  value_from_token (suc n) Token.open_object rest = mapped object (parse_object n [] rest)
  value_from_token (suc n) Token.open_array rest = mapped array (parse_array n rest)
  value_from_token (suc n) Token.close_object rest = err StrictError.unexpected_delimiter
  value_from_token (suc n) Token.close_array rest = err StrictError.unexpected_delimiter
  value_from_token (suc n) (Token.text_token s) rest = ok (string s, rest)
  value_from_token (suc n) (Token.number_token s) rest = with_rest (λ v. v) rest (parse_uint64 s)
  value_from_token (suc n) (Token.bool_token b) rest = ok (boolean b, rest)
  value_from_token (suc n) Token.null_token rest = err StrictError.explicit_null
  value_from_token (suc n) Token.failed rest = err StrictError.no_token

  pub parse_object : ℕ → List Bytes → List Token → Parsed Fields
  parse_object zero seen ts = err StrictError.no_token
  parse_object (suc n) seen [] = err StrictError.no_token
  parse_object (suc n) seen (Token.close_object ∷ rest) = ok (no_fields, rest)
  parse_object (suc n) seen (Token.close_array ∷ rest) = err StrictError.unexpected_delimiter
  parse_object (suc n) seen (Token.failed ∷ rest) = err StrictError.no_token
  parse_object (suc n) seen (Token.text_token name ∷ ts) =
      named name (contains seen name) (next_value (value_from_token n) ts)
        (parse_object n (name ∷ seen))
  parse_object (suc n) seen (_ ∷ rest) = err StrictError.name_not_string

  pub parse_array : ℕ → List Token → Parsed Values
  parse_array zero ts = err StrictError.no_token
  parse_array (suc n) [] = err StrictError.no_token
  parse_array (suc n) (Token.close_array ∷ rest) = ok (no_values, rest)
  parse_array (suc n) (Token.close_object ∷ rest) = err StrictError.unexpected_delimiter
  parse_array (suc n) (t ∷ rest) = followed value (value_from_token n t rest) (parse_array n)

abbrev pub complete : Parsed Value → Result StrictError Value
complete (err e) = err e
complete (ok (v, [])) = ok v
complete (ok (v, t ∷ ts)) = err StrictError.trailing_data

abbrev pub parsed_root : List Token → Parsed Value
parsed_root [] = err StrictError.no_token
parsed_root (t ∷ ts) = value_from_token (3 * length (t ∷ ts)) t ts

-- `Parse`. No more than three calls of the parser are needed for a token.
unfoldable pub parse_tokens : List Token → Result StrictError Value
parse_tokens ts = complete (parsed_root ts)

-- `utf8.Valid`
abbrev pub is_utf8 : Bytes → Bool
is_utf8 s = elim (runes s) [ none ↦ false | some rs ↦ true ]

-- The tokens of the text that encoding/json writes for a value, in front of others.
abbrev pub first_token : Value → Token
first_token (object fs) = Token.open_object
first_token (array vs) = Token.open_array
first_token (string s) = Token.text_token s
first_token (number n) = Token.number_token (decimal n)
first_token (boolean b) = Token.bool_token b

unfoldable mutual
  pub tail_then : Value → List Token → List Token
  tail_then (object fs) rest = fields_then fs (Token.close_object ∷ rest)
  tail_then (array vs) rest = values_then vs (Token.close_array ∷ rest)
  tail_then (string s) rest = rest
  tail_then (number n) rest = rest
  tail_then (boolean b) rest = rest

  pub fields_then : Fields → List Token → List Token
  fields_then no_fields rest = rest
  fields_then (field name v fs) rest =
      Token.text_token name ∷ first_token v ∷ tail_then v (fields_then fs rest)

  pub values_then : Values → List Token → List Token
  values_then no_values rest = rest
  values_then (value v vs) rest = first_token v ∷ tail_then v (values_then vs rest)

abbrev pub tokens_of : Value → List Token
tokens_of v = first_token v ∷ tail_then v []

-- The strings and names of a value are valid UTF-8, which encoding/json writes as they are.
unfoldable mutual
  pub is_text : Value → Bool
  is_text (object fs) = are_text_fields fs
  is_text (array vs) = are_text_values vs
  is_text (string s) = is_utf8 s
  is_text (number n) = true
  is_text (boolean b) = true

  pub are_text_fields : Fields → Bool
  are_text_fields no_fields = true
  are_text_fields (field name v fs) = is_utf8 name && (is_text v && are_text_fields fs)

  pub are_text_values : Values → Bool
  are_text_values no_values = true
  are_text_values (value v vs) = is_text v && are_text_values vs

-- What a tree of `Parse` is: names are unique, and numbers are 64-bit values.
unfoldable mutual
  pub is_strict : Value → Bool
  is_strict (object fs) = are_strict_fields [] fs
  is_strict (array vs) = are_strict_values vs
  is_strict (string s) = true
  is_strict (number n) = ltb n (2 ^ 64)
  is_strict (boolean b) = true

  pub are_strict_fields : List Bytes → Fields → Bool
  are_strict_fields seen no_fields = true
  are_strict_fields seen (field name v fs) =
      not (contains seen name) && (is_strict v && are_strict_fields (name ∷ seen) fs)

  pub are_strict_values : Values → Bool
  are_strict_values no_values = true
  are_strict_values (value v vs) = is_strict v && are_strict_values vs
