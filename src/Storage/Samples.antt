-- ===== src/Storage/Samples.antt =====
-- Sample values for internal/storage, and its operations on them.
use slivingdoc.Base.{
  ℕ, zero, suc, ◌<◌, ◌≡◌, ◌↔◌, refl, true, false, [], ◌∷◌, Bytes, codes, some, All, arith, ok,
  length, bytes_beq, contains, lookup, has_byte,
}
use slivingdoc.Storage.Key.{Uuid, UuidLibrary, PackKind, key_text, decimal, decimal_from}
use slivingdoc.Storage.Manifest.{
  Checkpoint, Increment, Manifest, IsValid, validate_manifest, check_chain, check_checkpoint,
  check_increments, check_increment, check_descriptor_key, binds_same, check_retained,
}
use slivingdoc.Storage.Manifest.Refines.{validate_manifest_iff}
use slivingdoc.Storage.Parse.{parse_key}
use slivingdoc.Storage.Parse.Canonical.{key_text-parse_key}
use slivingdoc.Storage.Parse.Printed.{IsUuidV7, parse_key-key_text}
use slivingdoc.Storage.Decode.{decode_manifest, manifest_version}
use slivingdoc.Storage.Decode.Encode.{
  IsBytes, IsTypedCheckpoint, IsTypedIncrement, IsTyped, encode_manifest,
  decode_manifest-encode_manifest, decode_manifest-IsValid,
}
use slivingdoc.Base.{◌≤◌, ◌++◌, split, has_prefix, ends_with}
use slivingdoc.Storage.Names.{
  is_new_space_name, new_space_name_chars, name_chars_from, any_prefix, any_suffix, has_suffix,
  reserved_name_prefixes, reserved_name_suffixes, validate_prefix, check_prefix,
  check_prefix_segments, join_key,
}
use slivingdoc.Storage.Names.Accepted.{
  IsNameChar, IsPrefixSegment, is_new_space_name-chars, split-join_key,
}
use slivingdoc.Storage.Metadata.{Metadata, fields, parse_metadata}
use slivingdoc.Storage.Metadata.RoundTrip.{parse_metadata-fields}

-- An id library whose text of an id is the bytes of the id.
abbrev pub plain_ids : UuidLibrary
plain_ids = record {
  parse = λ s. some s;
  version = λ u. 7;
  variant_is_rfc4122 = λ u. true;
  text = λ u. u;
}

abbrev pub repeated : ℕ → ℕ → Bytes
repeated zero x = []
repeated (suc n) x = x ∷ repeated n x

abbrev pub sample_checkpoint : Checkpoint
sample_checkpoint = record {
  id = codes "a";
  publication = codes "p";
  through_generation = 1;
  head = repeated 20 1;
  key = record { kind = PackKind.checkpoint; generation = 1; id = codes "a" };
  sha256 = repeated 32 9;
  size = 5;
}

abbrev pub second : Increment
second = record {
  generation = 2;
  publication = codes "q";
  parent = repeated 20 1;
  head = repeated 20 2;
  key = record { kind = PackKind.increment; generation = 2; id = codes "q" };
  sha256 = repeated 32 9;
  size = 7;
}

abbrev pub third : Increment
third = record {
  generation = 3;
  publication = codes "r";
  parent = repeated 20 2;
  head = repeated 20 3;
  key = record { kind = PackKind.increment; generation = 3; id = codes "r" };
  sha256 = repeated 32 9;
  size = 7;
}

abbrev pub sample_manifest : Manifest
sample_manifest = record {
  version = 1;
  generation = 3;
  head = repeated 20 3;
  checkpoint = sample_checkpoint;
  increments = second ∷ third ∷ [];
  retained = [];
}

sample_accepted : validate_manifest plain_ids sample_manifest ≡ ok tt
unfolding validate_manifest check_chain check_checkpoint check_increments check_increment
    check_descriptor_key binds_same check_retained contains lookup bytes_beq key_text decimal
    decimal_from
sample_accepted = refl

pub sample_manifest-IsValid : IsValid plain_ids sample_manifest
sample_manifest-IsValid = (validate_manifest_iff plain_ids sample_manifest).0 sample_accepted

validate_manifest_iff_example :
    (validate_manifest plain_ids sample_manifest ≡ ok tt) ↔ IsValid plain_ids sample_manifest
validate_manifest_iff_example = validate_manifest_iff plain_ids sample_manifest

plain_id : (u : Uuid) → ¬ (u ≡ []) → has_byte b'/' u ≡ false → IsUuidV7 plain_ids u
plain_id u h g = record {
  parsed = refl;
  seventh = refl;
  variant = refl;
  some_text = h;
  no_slash = g;
}

pub letter-IsUuidV7 : (c : ℕ) → ¬ (c ≡ b'/') → IsUuidV7 plain_ids (c ∷ [])
unfolding has_byte
letter-IsUuidV7 c h = plain_id (c ∷ []) (λ p. ground arith) (ground arith)

pub repeated-IsBytes : (n x : ℕ) → x < 256 → IsBytes n (repeated n x)
repeated-IsBytes n x h = record { width_is = width n; are_bytes = bytes n }
  where
    width : (n : ℕ) → length (repeated n x) ≡ n
    width zero = refl
    width (suc n) = omega (arith, width n)

    bytes : (n : ℕ) → All (λ y. y < 256) (repeated n x)
    bytes zero = tt
    bytes (suc n) = (h, bytes n)

pub sample_checkpoint-IsTyped : IsTypedCheckpoint plain_ids sample_checkpoint
sample_checkpoint-IsTyped = record {
  id_is = letter-IsUuidV7 b'a' (ground arith);
  publication_is = letter-IsUuidV7 b'p' (ground arith);
  head_is = repeated-IsBytes 20 1 (omega arith);
  key_is = record { generation_fits = omega arith; id_is = letter-IsUuidV7 b'a' (ground arith) };
  sha256_is = repeated-IsBytes 32 9 (omega arith);
}

pub second-IsTyped : IsTypedIncrement plain_ids second
second-IsTyped = record {
  publication_is = letter-IsUuidV7 b'q' (ground arith);
  parent_is = repeated-IsBytes 20 1 (omega arith);
  head_is = repeated-IsBytes 20 2 (omega arith);
  key_is = record { generation_fits = omega arith; id_is = letter-IsUuidV7 b'q' (ground arith) };
  sha256_is = repeated-IsBytes 32 9 (omega arith);
}

pub third-IsTyped : IsTypedIncrement plain_ids third
third-IsTyped = record {
  publication_is = letter-IsUuidV7 b'r' (ground arith);
  parent_is = repeated-IsBytes 20 2 (omega arith);
  head_is = repeated-IsBytes 20 3 (omega arith);
  key_is = record { generation_fits = omega arith; id_is = letter-IsUuidV7 b'r' (ground arith) };
  sha256_is = repeated-IsBytes 32 9 (omega arith);
}

pub sample_manifest-IsTyped : IsTyped plain_ids sample_manifest
sample_manifest-IsTyped = record {
  version_is = refl;
  head_is = repeated-IsBytes 20 3 (omega arith);
  checkpoint_is = sample_checkpoint-IsTyped;
  increments_are = (second-IsTyped, (third-IsTyped, tt));
  retained_are = tt;
}

decode_manifest-encode_manifest_example :
    decode_manifest plain_ids (encode_manifest plain_ids sample_manifest) ≡ ok sample_manifest
decode_manifest-encode_manifest_example =
    decode_manifest-encode_manifest plain_ids sample_manifest sample_manifest-IsTyped
      sample_manifest-IsValid

sample_decoded :
    decode_manifest plain_ids (encode_manifest plain_ids sample_manifest) ≡ ok sample_manifest
sample_decoded =
    decode_manifest-encode_manifest plain_ids sample_manifest sample_manifest-IsTyped
      sample_manifest-IsValid

decode_manifest-IsValid_example : (1 ≡ manifest_version) × IsValid plain_ids sample_manifest
decode_manifest-IsValid_example =
    decode_manifest-IsValid plain_ids (encode_manifest plain_ids sample_manifest) sample_manifest
      sample_decoded

second_parsed : parse_key plain_ids (key_text plain_ids second.key) ≡ ok second.key
second_parsed = parse_key-key_text plain_ids second.key (omega arith) second-IsTyped.key_is.id_is

parse_key-key_text_example : parse_key plain_ids (key_text plain_ids second.key) ≡ ok second.key
parse_key-key_text_example =
    parse_key-key_text plain_ids second.key (omega arith) (letter-IsUuidV7 b'q' (ground arith))

key_text-parse_key_example : key_text plain_ids second.key ≡ codes "packs/increments/2-q.pack"
unfolding key_text decimal decimal_from
key_text-parse_key_example =
    key_text-parse_key plain_ids (codes "packs/increments/2-q.pack") second.key second_parsed

sample_name : is_new_space_name (codes "notes-1") ≡ true
unfolding is_new_space_name new_space_name_chars name_chars_from any_prefix any_suffix has_suffix
    has_prefix bytes_beq
sample_name = refl

is_new_space_name-chars_example :
    (3 ≤ 7)
    × (7 ≤ 63)
    × All IsNameChar (codes "notes-1")
    × (has_prefix (codes "notes-1") (codes "-") ≡ false)
    × (ends_with b'-' (codes "notes-1") ≡ false)
    × (any_prefix reserved_name_prefixes (codes "notes-1") ≡ false)
    × (any_suffix reserved_name_suffixes (codes "notes-1") ≡ false)
is_new_space_name-chars_example = is_new_space_name-chars (codes "notes-1") sample_name

sample_prefix : validate_prefix (codes "team/a") ≡ ok tt
unfolding validate_prefix check_prefix check_prefix_segments split has_prefix ends_with has_byte
    bytes_beq
sample_prefix = refl

split-join_key_example :
    (split b'/' (join_key (codes "team/a") (codes "current"))
      ≡ split b'/' (codes "team/a") ++ split b'/' (codes "current"))
    × All IsPrefixSegment (split b'/' (codes "team/a"))
split-join_key_example =
    split-join_key (codes "team/a") (codes "current") sample_prefix (λ p. ground arith)

abbrev pub sample_metadata : Metadata
sample_metadata = record {
  sha256 = repeated 32 9;
  size = 7;
  kind = some PackKind.increment;
  generation = 2;
}

parse_metadata-fields_example : parse_metadata (fields sample_metadata) ≡ ok sample_metadata
parse_metadata-fields_example =
    parse_metadata-fields sample_metadata PackKind.increment refl (omega arith) (omega arith)
      (repeated-IsBytes 32 9 (omega arith))
