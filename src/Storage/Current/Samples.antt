-- ===== src/Storage/Current/Samples.antt =====
-- A library of texts that reads back what it writes: a value is written behind its parts, as pairs of
-- an instruction and a number, and read by a machine with a stack.
use slivingdoc.Base.{
  ℕ, zero, suc, ◌≡◌, refl, sym, ap, ◌∙◌, true, true, false, Option, none, some, List, [], ◌∷◌, ◌++◌,
  Bytes, ok, err, codes, arith, ◌==◌, nat_eq, if◌then◌else◌, runes, cons_rune, contains, bytes_beq,
  ◌+◌,
}
use mathlib.Core.List.{append_assoc, append-nil}
use slivingdoc.Storage.Parse.{hex_text, hex_digit}
use slivingdoc.Storage.Key.{key_text, decimal}
use slivingdoc.Storage.Manifest.{IsValid}
use slivingdoc.Storage.Manifest.Refines.{validate_manifest_iff}
use slivingdoc.Storage.Decode.Encode.{encode_manifest}
use slivingdoc.Storage.Json.{
  Value, Fields, Values, object, array, string, number, boolean, no_fields, field, no_values, value,
}
use slivingdoc.Storage.Strict.{Token, tokens_of, is_utf8, is_strict, is_text, parse_tokens}
use slivingdoc.Storage.Strict.RoundTrip.{parse_tokens-tokens_of}
use slivingdoc.Storage.Strict.Sound.{parse_tokens_strict}
use slivingdoc.Storage.Current.{
  TextLibrary, IsTextLibrary, wrapped_current_size, wrap_current_envelope, CurrentEncoding,
  CurrentError, classify_current, decode_stored_current, encode_current,
}
use slivingdoc.Storage.Current.Stored.{
  wrap_current_envelope-classified, decode_stored_current-encode_current,
}
use slivingdoc.Storage.Samples.{
  plain_ids, sample_manifest, sample_manifest-IsValid, sample_manifest-IsTyped,
}

data Item : Type 0 where
  bytes_item : Bytes → Item
  value_item : Value → Item
  fields_item : Fields → Item
  values_item : Values → Item

abbrev execute : ℕ → ℕ → List Item → List Item
execute zero n s = bytes_item [] ∷ s
execute (suc zero) n (bytes_item b ∷ s) = bytes_item (n ∷ b) ∷ s
execute (suc (suc zero)) n (bytes_item b ∷ s) = value_item (string b) ∷ s
execute (suc (suc (suc zero))) n s = value_item (number n) ∷ s
execute (suc (suc (suc (suc zero)))) zero s = value_item (boolean false) ∷ s
execute (suc (suc (suc (suc zero)))) (suc n) s = value_item (boolean true) ∷ s
execute (suc (suc (suc (suc (suc zero))))) n s = fields_item no_fields ∷ s
execute (suc (suc (suc (suc (suc (suc zero)))))) n
      (bytes_item b ∷ value_item v ∷ fields_item fs ∷ s) =
    fields_item (field b v fs) ∷ s
execute (suc (suc (suc (suc (suc (suc (suc zero))))))) n (fields_item fs ∷ s) =
    value_item (object fs) ∷ s
execute (suc (suc (suc (suc (suc (suc (suc (suc zero)))))))) n s = values_item no_values ∷ s
execute (suc (suc (suc (suc (suc (suc (suc (suc (suc zero))))))))) n
      (value_item v ∷ values_item vs ∷ s) =
    values_item (value v vs) ∷ s
execute (suc (suc (suc (suc (suc (suc (suc (suc (suc (suc zero)))))))))) n (values_item vs ∷ s) =
    value_item (array vs) ∷ s
execute _ _ s = []

abbrev run : Bytes → List Item → List Item
run (i ∷ n ∷ rest) s = run rest (execute i n s)
run _ s = s

abbrev written_bytes : Bytes → Bytes
written_bytes [] = 0 ∷ 0 ∷ []
written_bytes (x ∷ xs) = written_bytes xs ++ (1 ∷ x ∷ [])

mutual
  pub written : Value → Bytes
  written (object fs) = written_fields fs ++ (7 ∷ 0 ∷ [])
  written (array vs) = written_values vs ++ (10 ∷ 0 ∷ [])
  written (string b) = written_bytes b ++ (2 ∷ 0 ∷ [])
  written (number n) = 3 ∷ n ∷ []
  written (boolean false) = 4 ∷ 0 ∷ []
  written (boolean true) = 4 ∷ 1 ∷ []

  written_fields : Fields → Bytes
  written_fields no_fields = 5 ∷ 0 ∷ []
  written_fields (field b v fs) =
      written_fields fs ++ (written v ++ (written_bytes b ++ (6 ∷ 0 ∷ [])))

  written_values : Values → Bytes
  written_values no_values = 8 ∷ 0 ∷ []
  written_values (value v vs) = written_values vs ++ (written v ++ (9 ∷ 0 ∷ []))

run-written_bytes :
    (b rest : Bytes) (s : List Item) → run (written_bytes b ++ rest) s ≡ run rest (bytes_item b ∷ s)
run-written_bytes [] rest s = refl
run-written_bytes (x ∷ xs) rest s =
    ap (λ t. run t s) (append_assoc (written_bytes xs) (1 ∷ x ∷ []) rest)
    ∙ run-written_bytes xs (1 ∷ x ∷ rest) s

mutual
  unfolding written

  run-written :
      (v : Value) (rest : Bytes) (s : List Item)
      → run (written v ++ rest) s ≡ run rest (value_item v ∷ s)
  run-written (object fs) rest s =
      ap (λ t. run t s) (append_assoc (written_fields fs) (7 ∷ 0 ∷ []) rest)
      ∙ run-written_fields fs (7 ∷ 0 ∷ rest) s
  run-written (array vs) rest s =
      ap (λ t. run t s) (append_assoc (written_values vs) (10 ∷ 0 ∷ []) rest)
      ∙ run-written_values vs (10 ∷ 0 ∷ rest) s
  run-written (string b) rest s =
      ap (λ t. run t s) (append_assoc (written_bytes b) (2 ∷ 0 ∷ []) rest)
      ∙ run-written_bytes b (2 ∷ 0 ∷ rest) s
  run-written (number n) rest s = refl
  run-written (boolean false) rest s = refl
  run-written (boolean true) rest s = refl

  run-written_fields :
      (fs : Fields) (rest : Bytes) (s : List Item)
      → run (written_fields fs ++ rest) s ≡ run rest (fields_item fs ∷ s)
  run-written_fields no_fields rest s = refl
  run-written_fields (field b v fs) rest s =
      ap (λ t. run t s)
        (append_assoc (written_fields fs) (written v ++ (written_bytes b ++ (6 ∷ 0 ∷ []))) rest
          ∙ ap (λ t. written_fields fs ++ t)
              (append_assoc (written v) (written_bytes b ++ (6 ∷ 0 ∷ [])) rest
                ∙ ap (λ t. written v ++ t) (append_assoc (written_bytes b) (6 ∷ 0 ∷ []) rest)))
      ∙ run-written_fields fs (written v ++ (written_bytes b ++ (6 ∷ 0 ∷ rest))) s
      ∙ run-written v (written_bytes b ++ (6 ∷ 0 ∷ rest)) (fields_item fs ∷ s)
      ∙ run-written_bytes b (6 ∷ 0 ∷ rest) (value_item v ∷ fields_item fs ∷ s)

  run-written_values :
      (vs : Values) (rest : Bytes) (s : List Item)
      → run (written_values vs ++ rest) s ≡ run rest (values_item vs ∷ s)
  run-written_values no_values rest s = refl
  run-written_values (value v vs) rest s =
      ap (λ t. run t s)
        (append_assoc (written_values vs) (written v ++ (9 ∷ 0 ∷ [])) rest
          ∙ ap (λ t. written_values vs ++ t) (append_assoc (written v) (9 ∷ 0 ∷ []) rest))
      ∙ run-written_values vs (written v ++ (9 ∷ 0 ∷ rest)) s
      ∙ run-written v (9 ∷ 0 ∷ rest) (values_item vs ∷ s)

abbrev top_value : List Item → Option Value
top_value (value_item v ∷ s) = some v
top_value _ = none

pub read_back : Bytes → Option Value
read_back b = top_value (run b [])

abbrev tokens_at : Option Value → List Token
tokens_at none = Token.failed ∷ []
tokens_at (some v) = tokens_of v

-- A number in unary, closed by another character, in place of Base64.
abbrev ticks : ℕ → Bytes → Bytes
ticks zero rest = b'B' ∷ rest
ticks (suc n) rest = b'A' ∷ ticks n rest

abbrev hex : Bytes → Bytes
hex [] = []
hex (x ∷ xs) = ticks x (hex xs)

abbrev prepended : ℕ → Option Bytes → Option Bytes
prepended n none = none
prepended n (some b) = some (n ∷ b)

pub unhex_from : ℕ → Bytes → Option Bytes
unhex_from n [] = some []
unhex_from n (c ∷ cs) =
    let more = unhex_from (suc n) cs in
    let next = unhex_from 0 cs in if c == b'A' then more else prepended n next

unhex-ticks :
    (n x : ℕ) (rest : Bytes) → unhex_from n (ticks x rest) ≡ prepended (n + x) (unhex_from 0 rest)
unfolding unhex_from
unhex-ticks n zero rest = ap (λ k. prepended k (unhex_from 0 rest)) (omega arith)
unhex-ticks n (suc x) rest =
    unhex-ticks (suc n) x rest ∙ ap (λ k. prepended k (unhex_from 0 rest)) (omega arith)

unhex-hex : (b : Bytes) → unhex_from 0 (hex b) ≡ some b
unfolding unhex_from
unhex-hex [] = refl
unhex-hex (x ∷ xs) =
    unhex-ticks 0 x (hex xs)
    ∙ ap (λ k. prepended k (unhex_from 0 (hex xs))) (omega arith)
    ∙ ap (prepended x) (unhex-hex xs)

ticks-runes :
    (x : ℕ) (rest : Bytes) (rs : List ℕ)
    → runes rest ≡ some rs
    → (qs : List ℕ) × (runes (ticks x rest) ≡ some qs)
unfolding runes
ticks-runes zero rest rs h = (b'B' ∷ rs, ap (cons_rune b'B') h)
ticks-runes (suc x) rest rs h =
    let (qs, q) = ticks-runes x rest rs h in (b'A' ∷ qs, ap (cons_rune b'A') q)

hex-runes : (b : Bytes) → (qs : List ℕ) × (runes (hex b) ≡ some qs)
unfolding runes
hex-runes [] = ([], refl)
hex-runes (x ∷ xs) = let (qs, q) = hex-runes xs in ticks-runes x (hex xs) qs q

hex-text : (b : Bytes) → is_utf8 (hex b) ≡ true
hex-text b = let (qs, q) = hex-runes b in rw (is_utf8, q) refl

abbrev pub stack_texts : TextLibrary
stack_texts = record {
  print = written;
  tokens = λ b. tokens_at (read_back b);
  base64 = hex;
  from_base64 = unhex_from 0;
}

pub stack_texts-IsTextLibrary : IsTextLibrary stack_texts
unfolding read_back
stack_texts-IsTextLibrary = record {
  tokens_print = λ v text.
      ap (λ b. tokens_at (top_value (run b []))) (sym (append-nil (written v)))
      ∙ ap (λ s. tokens_at (top_value s)) (run-written v [] []);
  base64_text = hex-text;
  from_base64_base64 = unhex-hex;
}

abbrev sample_wrapper : Bytes
sample_wrapper = written (
    object (
      field (codes "version") (number 2)
        (field (codes "envelope") (string (hex (2 ∷ 1 ∷ []))) no_fields)))

small_wrapped : wrap_current_envelope stack_texts (2 ∷ 1 ∷ []) ≡ ok sample_wrapper
unfolding wrap_current_envelope wrapped_current_size
small_wrapped = refl

wrap_current_envelope-classified_example :
    (classify_current stack_texts sample_wrapper ≡ ok (CurrentEncoding.encrypted (2 ∷ 1 ∷ [])))
    × (decode_stored_current stack_texts plain_ids sample_wrapper ≡ err CurrentError.key_required)
wrap_current_envelope-classified_example =
    wrap_current_envelope-classified stack_texts stack_texts-IsTextLibrary plain_ids (2 ∷ 1 ∷ [])
      sample_wrapper small_wrapped

sample_strict : is_strict (encode_manifest plain_ids sample_manifest) ≡ true
unfolding is_strict encode_manifest contains bytes_beq
sample_strict = refl

sample_text : is_text (encode_manifest plain_ids sample_manifest) ≡ true
unfolding is_text encode_manifest runes hex_text hex_digit key_text decimal
sample_text = refl

parse_tokens-tokens_of_example :
    parse_tokens (tokens_of (encode_manifest plain_ids sample_manifest))
    ≡ ok (encode_manifest plain_ids sample_manifest)
parse_tokens-tokens_of_example =
    parse_tokens-tokens_of (encode_manifest plain_ids sample_manifest) sample_strict

pub sample_encoded :
    encode_current stack_texts plain_ids sample_manifest
    ≡ ok (stack_texts.print (encode_manifest plain_ids sample_manifest))
unfolding encode_current
sample_encoded =
    rw ((validate_manifest_iff plain_ids sample_manifest).1 sample_manifest-IsValid) refl

decode_stored_current-encode_current_example :
    IsValid plain_ids sample_manifest
    × (decode_stored_current stack_texts plain_ids
          (stack_texts.print (encode_manifest plain_ids sample_manifest))
        ≡ ok sample_manifest)
decode_stored_current-encode_current_example =
    decode_stored_current-encode_current stack_texts stack_texts-IsTextLibrary plain_ids
      sample_manifest (stack_texts.print (encode_manifest plain_ids sample_manifest))
      sample_manifest-IsTyped sample_strict sample_text sample_encoded

parse_tokens_strict_example : is_strict (encode_manifest plain_ids sample_manifest) ≡ true
parse_tokens_strict_example =
    parse_tokens_strict (tokens_of (encode_manifest plain_ids sample_manifest))
      (encode_manifest plain_ids sample_manifest)
      (parse_tokens-tokens_of (encode_manifest plain_ids sample_manifest) sample_strict)
