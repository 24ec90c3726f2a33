-- ===== src/Storage/Current.antt =====
-- internal/storage/manifest.go and internal/notebook/encryption.go: the bytes of `current`. The text
-- of a JSON value and the Base64 of an envelope come from Go's library, and are parameters.
pub mod Stored
pub mod Samples
use slivingdoc.Base.{
  ℕ, ◌≡◌, ◌+◌, ◌*◌, ◌/◌, ◌^◌, Bool, true, false, not, ◌||◌, Option, none, some, List, [], ◌∷◌, ◌==◌,
  nat_eq, Bytes, codes, length, ltb, leb, if◌then◌else◌, Result, ok, err, ◌>>=◌, ◌>>◌, require,
  bytes_eq,
}
use slivingdoc.Storage.Key.{UuidLibrary}
use slivingdoc.Storage.Manifest.{Manifest, ManifestError, validate_manifest}
use slivingdoc.Storage.Json.{
  Value, object, string, number, field, no_fields, JsonKind, kind_of, json_kind_beq, num_of, str_of,
  get_field, only_known,
}
use slivingdoc.Storage.Strict.{Token, StrictError, parse_tokens, tokens_of, is_text, is_utf8}
use slivingdoc.Storage.Decode.{DecodeError, decode_manifest}
use slivingdoc.Storage.Decode.Encode.{encode_manifest}

-- `json.Marshal`, the tokens of a `json.Decoder`, and the encoding of encoding/base64.
pub record TextLibrary : Type 0 where
  pub print : Value → Bytes
  pub tokens : Bytes → List Token
  pub base64 : Bytes → Bytes
  pub from_base64 : Bytes → Option Bytes

-- What the documentation of the two packages says: the text of a value has the tokens of the value,
-- where its strings are valid UTF-8, and Base64 is text that is decoded back.
pub record IsTextLibrary (lib : TextLibrary) : Type 0 where
  pub tokens_print : (v : Value) → is_text v ≡ true → lib.tokens (lib.print v) ≡ tokens_of v
  pub base64_text : (b : Bytes) → is_utf8 (lib.base64 b) ≡ true
  pub from_base64_base64 : (b : Bytes) → lib.from_base64 (lib.base64 b) ≡ some b

abbrev pub wrapper_version : ℕ
wrapper_version = 2

abbrev pub current_limit : ℕ
current_limit = 2 ^ 20

-- `currentWrapperOverhead`, the length of the wrapper around an empty text.
abbrev pub wrapper_overhead : ℕ
wrapper_overhead = length (codes "{\"version\":2,\"envelope\":\"\"}")

unfoldable pub wrapped_current_size : ℕ → ℕ
wrapped_current_size n = wrapper_overhead + (n + 2) / 3 * 4

pub data WrapError : Type 0 where
  envelope_too_large : WrapError

-- A stored object that is no wrapper, or the envelope of one.
pub data CurrentEncoding : Type 0 where
  plaintext : CurrentEncoding
  encrypted : Bytes → CurrentEncoding

pub data CurrentError : Type 0 where
  needs_upgrade : ℕ → CurrentError
  malformed_wrapper : CurrentError
  not_json : CurrentError
  undecodable : DecodeError → CurrentError
  key_required : CurrentError
  rolled_back : CurrentError

-- `strictjson.Parse`: `none` is an error.
abbrev pub strict_root : Result StrictError Value → Option Value
strict_root (ok v) = some v
strict_root (err e) = none

module _ (text : TextLibrary) where
  unfoldable pub wrap_current_envelope : Bytes → Result WrapError Bytes
  wrap_current_envelope envelope = do
    require (leb (wrapped_current_size (length envelope)) current_limit)
        WrapError.envelope_too_large
    ok (
        text.print (
          object (
            field (codes "version") (number wrapper_version)
              (field (codes "envelope") (string (text.base64 envelope)) no_fields))))

  abbrev pub unwrapped : Option Bytes → Result CurrentError CurrentEncoding
  unwrapped none = err CurrentError.malformed_wrapper
  unwrapped (some envelope) = ok (CurrentEncoding.encrypted envelope)

  abbrev pub envelope_of : Option Value → Result CurrentError CurrentEncoding
  envelope_of none = err CurrentError.malformed_wrapper
  envelope_of (some f) =
      if not (json_kind_beq (kind_of f) JsonKind.string_kind)
      then err CurrentError.malformed_wrapper
      else unwrapped (text.from_base64 (str_of f))

  abbrev pub classify_version : Value → Option Value → Result CurrentError CurrentEncoding
  classify_version root none = ok CurrentEncoding.plaintext
  classify_version root (some version) =
      if not (json_kind_beq (kind_of version) JsonKind.number_kind)
        || ltb (num_of version) wrapper_version
      then ok CurrentEncoding.plaintext
      else if ltb wrapper_version (num_of version)
      then err (CurrentError.needs_upgrade (num_of version))
      else if not (only_known root (codes "version" ∷ codes "envelope" ∷ []))
      then err CurrentError.malformed_wrapper
      else envelope_of (get_field root (codes "envelope"))

  abbrev pub classify_root : Option Value → Result CurrentError CurrentEncoding
  classify_root none = ok CurrentEncoding.plaintext
  classify_root (some root) =
      if not (json_kind_beq (kind_of root) JsonKind.object_kind)
      then ok CurrentEncoding.plaintext
      else classify_version root (get_field root (codes "version"))

  unfoldable pub classify_current : Bytes → Result CurrentError CurrentEncoding
  classify_current contents = classify_root (strict_root (parse_tokens (text.tokens contents)))

  module _ (lib : UuidLibrary) where
    -- `EncodeManifest`; a tail is never nil here.
    unfoldable pub encode_current : Manifest → Result ManifestError Bytes
    encode_current m = validate_manifest lib m >> ok (text.print (encode_manifest lib m))

    abbrev pub decoded : Result DecodeError Manifest → Result CurrentError Manifest
    decoded (ok m) = ok m
    decoded (err e) = err (CurrentError.undecodable e)

    abbrev pub decode_root : Option Value → Result CurrentError Manifest
    decode_root none = err CurrentError.not_json
    decode_root (some root) = decoded (decode_manifest lib root)

    -- `DecodeManifest`
    unfoldable pub decode_current : Bytes → Result CurrentError Manifest
    decode_current contents = decode_root (strict_root (parse_tokens (text.tokens contents)))

    abbrev pub decode_encoding : Bytes → CurrentEncoding → Result CurrentError Manifest
    decode_encoding contents CurrentEncoding.plaintext = decode_current contents
    decode_encoding contents (CurrentEncoding.encrypted _) = err CurrentError.key_required

    -- `decodeStoredCurrent` without a keyring.
    unfoldable pub decode_stored_current : Bytes → Result CurrentError Manifest
    decode_stored_current contents = classify_current contents >>= decode_encoding contents

-- `CheckManifestRollback`
unfoldable pub check_manifest_rollback : Manifest → ℕ → Result CurrentError (Unit {0})
check_manifest_rollback m baseline_generation =
    if leb baseline_generation m.generation then ok tt else err CurrentError.rolled_back
