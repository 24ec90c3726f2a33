-- ===== src/Storage/Current/Stored.antt =====
-- What internal/storage/manifest.go writes to `current` is read back as it was, in clear or wrapped.
use slivingdoc.Base.{
  ◌≡◌, true, refl, ◌∙◌, ap, some, nat_eq, Bytes, codes, arith, bytes_beq, contains, runes, Result,
  ok, err, require-ok, bind-ok,
}
use slivingdoc.Storage.Key.{UuidLibrary}
use slivingdoc.Storage.Manifest.{Manifest, IsValid, validate_manifest}
use slivingdoc.Storage.Manifest.Refines.{validate_manifest_iff}
use slivingdoc.Storage.Json.{
  Value, object, string, number, field, no_fields, get_field, find_field, only_known, all_allowed,
}
use slivingdoc.Storage.Strict.{parse_tokens, is_strict, is_text}
use slivingdoc.Storage.Strict.RoundTrip.{parse_tokens-tokens_of}
use slivingdoc.Storage.Decode.{manifest_version}
use slivingdoc.Storage.Decode.Encode.{encode_manifest, IsTyped, decode_manifest-encode_manifest}
use slivingdoc.Storage.Current.{
  TextLibrary, IsTextLibrary, strict_root, wrap_current_envelope, CurrentEncoding, classify_root,
  classify_current, encode_current, decode_current, decode_stored_current, CurrentError, WrapError,
  wrapper_version, unwrapped,
}

module _ (text : TextLibrary) (texts : IsTextLibrary text) where
  wrapper : Bytes → Value
  wrapper envelope = object (
      field (codes "version") (number wrapper_version)
        (field (codes "envelope") (string (text.base64 envelope)) no_fields))

  classify_wrapper :
      (envelope : Bytes)
      → classify_root text (some (wrapper envelope))
        ≡ unwrapped text (text.from_base64 (text.base64 envelope))
  unfolding wrapper get_field find_field only_known all_allowed bytes_beq contains
  classify_wrapper envelope = refl

  printed_ok : Bytes → Result WrapError Bytes
  printed_ok b = ok b

  -- The tree of a text that was printed.
  parsed_print :
      (v : Value)
      → is_text v ≡ true
      → is_strict v ≡ true
      → strict_root (parse_tokens (text.tokens (text.print v))) ≡ some v
  parsed_print v is_utf strict =
      ap (λ ts. strict_root (parse_tokens ts)) (texts.tokens_print v is_utf)
      ∙ ap strict_root (parse_tokens-tokens_of v strict)

  wrapper_text : (envelope : Bytes) → is_text (wrapper envelope) ≡ true
  unfolding wrapper is_text runes
  wrapper_text envelope = ground (arith, texts.base64_text envelope)

  wrapper_strict : (envelope : Bytes) → is_strict (wrapper envelope) ≡ true
  unfolding wrapper is_strict contains bytes_beq
  wrapper_strict envelope = refl

  classify_stored :
      (envelope stored : Bytes)
      → printed_ok (text.print (wrapper envelope)) ≡ printed_ok stored
      → classify_current text stored ≡ ok (CurrentEncoding.encrypted envelope)
  unfolding classify_current printed_ok
  classify_stored envelope stored h =
      let same : text.print (wrapper envelope) ≡ stored = ground arith in
      rw (← same, parsed_print (wrapper envelope) (wrapper_text envelope) (wrapper_strict envelope))
        (classify_wrapper envelope ∙ ap (unwrapped text) (texts.from_base64_base64 envelope))

  key_needed :
      (lib : UuidLibrary) (stored envelope : Bytes)
      → classify_current text stored ≡ ok (CurrentEncoding.encrypted envelope)
      → decode_stored_current text lib stored ≡ err CurrentError.key_required
  unfolding decode_stored_current
  key_needed lib stored envelope h = rw h refl

  -- A wrapped envelope, read through the strict parser, is told apart as encrypted and gives the
  -- envelope back, and a reader without a key is refused. The text of a value has the tokens of the
  -- value, and Base64 is text that is decoded back.
  pub wrap_current_envelope-classified :
      (lib : UuidLibrary) (envelope stored : Bytes)
      → wrap_current_envelope text envelope ≡ ok stored
      → (classify_current text stored ≡ ok (CurrentEncoding.encrypted envelope))
        × (decode_stored_current text lib stored ≡ err CurrentError.key_required)
  unfolding wrap_current_envelope wrapper printed_ok
  wrap_current_envelope-classified lib envelope stored h =
      let (fits, printed) =
        require-ok _ WrapError.envelope_too_large (ok (text.print (wrapper envelope))) h in
      let classified = classify_stored envelope stored printed in
      (classified, key_needed lib stored envelope classified)

  classify_encoded :
      (lib : UuidLibrary) (m : Manifest)
      → m.version ≡ manifest_version
      → classify_root text (some (encode_manifest lib m)) ≡ ok CurrentEncoding.plaintext
  unfolding encode_manifest get_field find_field bytes_beq
  classify_encoded lib m h = ground (arith, h)

  -- A manifest that was encoded satisfies the cross-field rules, and its bytes are read back as it
  -- was, without a key, through the strict parser. Its fields are values of their Go types, its
  -- numbers fit in 64 bits and its strings are UTF-8; and the text of a value has the tokens of the
  -- value.
  pub decode_stored_current-encode_current :
      (lib : UuidLibrary) (m : Manifest) (stored : Bytes)
      → IsTyped lib m
      → is_strict (encode_manifest lib m) ≡ true
      → is_text (encode_manifest lib m) ≡ true
      → encode_current text lib m ≡ ok stored
      → IsValid lib m × (decode_stored_current text lib stored ≡ ok m)
  unfolding encode_current decode_stored_current classify_current decode_current printed_ok
  decode_stored_current-encode_current lib m stored typed strict utf h =
      let (u, validated, printed) =
        bind-ok (validate_manifest lib m) (λ u. ok (text.print (encode_manifest lib m))) h in
      let valid : IsValid lib m = (validate_manifest_iff lib m).0 validated in
      let same : text.print (encode_manifest lib m) ≡ stored = ground arith in
      (
        valid,
        rw
            (
              ← same,
              parsed_print (encode_manifest lib m) utf strict,
              classify_encoded lib m typed.version_is,
            )
            (rw
              (
                parsed_print (encode_manifest lib m) utf strict,
                decode_manifest-encode_manifest lib m typed valid,
              )
              refl),
      )
