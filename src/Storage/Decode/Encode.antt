-- ===== src/Storage/Decode/Encode.antt =====
-- internal/storage/manifest.go: what `EncodeManifest` writes, as a value tree: the struct tags give
-- the names and their order, the methods `MarshalJSON` the texts.
use slivingdoc.Base.{
  ℕ, ◌*◌, ◌<◌, ◌^◌, ◌≡◌, refl, sym, ap, List, [], ◌∷◌, Bytes, codes, arith, All, length, ok,
  bytes_beq, contains,
}
use slivingdoc.Storage.Key.{UuidLibrary, Key, key_text}
use slivingdoc.Storage.Manifest.{Oid, Sha256, Checkpoint, Increment, Retained, Manifest, IsValid}
use slivingdoc.Storage.Manifest.Refines.{validate_manifest_iff}
use slivingdoc.Storage.Parse.{parse_oid, parse_sha256, hex_text}
use slivingdoc.Storage.Parse.Canonical.{parse_hex-hex_text}
use slivingdoc.Storage.Parse.Printed.{IsUuidV7, parse_uuid_v7-text, parse_key-key_text}
use slivingdoc.Storage.Json.{
  Value, object, array, string, number, field, no_fields, Values, value, no_values, kind_of,
  JsonKind, get_field, find_field, only_known, all_allowed, values_list,
}
use slivingdoc.Storage.Decode.{
  required_value, required_uint, required_string, required_oid, required_sha256, required_uuid,
  required_key, decode_checkpoint, decode_increment, decode_increments, decode_retained_entry,
  decode_retained, decode_fields, decode_manifest, manifest_version,
}

-- A value of a Go array of bytes.
pub record IsBytes (width : ℕ) (bytes : Bytes) : Type 0 where
  pub width_is : length bytes ≡ width
  pub are_bytes : All (λ x. x < 256) bytes

length-hex_text : (s : Bytes) → length (hex_text s) ≡ 2 * length s
unfolding hex_text
length-hex_text [] = omega arith
length-hex_text (x ∷ xs) = omega (arith, length-hex_text xs)

pub parse_oid-text : (o : Oid) → IsBytes 20 o → parse_oid (hex_text o) ≡ ok o
unfolding parse_oid
parse_oid-text o h = ground (arith, h.width_is, length-hex_text o, parse_hex-hex_text o h.are_bytes)

pub parse_sha256-text : (d : Sha256) → IsBytes 32 d → parse_sha256 (hex_text d) ≡ ok d
unfolding parse_sha256
parse_sha256-text d h =
    ground (arith, h.width_is, length-hex_text d, parse_hex-hex_text d h.are_bytes)

module _ (lib : UuidLibrary) where
  abbrev pub encode_checkpoint : Checkpoint → Value
  encode_checkpoint c = object (
      field (codes "id") (string (lib.text c.id)) (
        field (codes "publication") (string (lib.text c.publication)) (
          field (codes "throughGeneration") (number c.through_generation) (
            field (codes "head") (string (hex_text c.head)) (
              field (codes "key") (string (key_text lib c.key)) (
                field (codes "sha256") (string (hex_text c.sha256))
                  (field (codes "size") (number c.size) no_fields)))))))

  abbrev pub encode_increment : Increment → Value
  encode_increment inc = object (
      field (codes "generation") (number inc.generation) (
        field (codes "publication") (string (lib.text inc.publication)) (
          field (codes "parent") (string (hex_text inc.parent)) (
            field (codes "head") (string (hex_text inc.head)) (
              field (codes "key") (string (key_text lib inc.key)) (
                field (codes "sha256") (string (hex_text inc.sha256))
                  (field (codes "size") (number inc.size) no_fields)))))))

  abbrev pub encode_increments : List Increment → Values
  encode_increments [] = no_values
  encode_increments (inc ∷ incs) = value (encode_increment inc) (encode_increments incs)

  abbrev pub encode_retained_entry : Retained → Value
  encode_retained_entry r = object (
      field (codes "retiredAtGeneration") (number r.retired_at_generation) (
        field (codes "head") (string (hex_text r.head)) (
          field (codes "checkpoint") (encode_checkpoint r.checkpoint)
            (field (codes "increments") (array (encode_increments r.increments)) no_fields))))

  abbrev pub encode_retained : List Retained → Values
  encode_retained [] = no_values
  encode_retained (r ∷ rs) = value (encode_retained_entry r) (encode_retained rs)

  unfoldable pub encode_manifest : Manifest → Value
  encode_manifest m = object (
      field (codes "version") (number m.version) (
        field (codes "generation") (number m.generation) (
          field (codes "head") (string (hex_text m.head)) (
            field (codes "checkpoint") (encode_checkpoint m.checkpoint) (
              field (codes "increments") (array (encode_increments m.increments))
                (field (codes "retained") (array (encode_retained m.retained)) no_fields))))))

  -- What the Go types ensure: the range of a generation, and ids that came from `ParseUUIDv7` or
  -- `NewUUIDv7`.
  pub record IsKey (k : Key) : Type 0 where
    pub generation_fits : k.generation < 2 ^ 64
    pub id_is : IsUuidV7 lib k.id

  pub record IsTypedCheckpoint (c : Checkpoint) : Type 0 where
    pub id_is : IsUuidV7 lib c.id
    pub publication_is : IsUuidV7 lib c.publication
    pub head_is : IsBytes 20 c.head
    pub key_is : IsKey c.key
    pub sha256_is : IsBytes 32 c.sha256

  pub record IsTypedIncrement (inc : Increment) : Type 0 where
    pub publication_is : IsUuidV7 lib inc.publication
    pub parent_is : IsBytes 20 inc.parent
    pub head_is : IsBytes 20 inc.head
    pub key_is : IsKey inc.key
    pub sha256_is : IsBytes 32 inc.sha256

  pub record IsTypedRetained (r : Retained) : Type 0 where
    pub head_is : IsBytes 20 r.head
    pub checkpoint_is : IsTypedCheckpoint r.checkpoint
    pub increments_are : All IsTypedIncrement r.increments

  pub record IsTyped (m : Manifest) : Type 0 where
    pub version_is : m.version ≡ manifest_version
    pub head_is : IsBytes 20 m.head
    pub checkpoint_is : IsTypedCheckpoint m.checkpoint
    pub increments_are : All IsTypedIncrement m.increments
    pub retained_are : All IsTypedRetained m.retained

  decode_increment-encode :
      (inc : Increment)
      → IsTypedIncrement inc
      → decode_increment lib (encode_increment inc) ≡ ok inc
  unfolding decode_increment required_value required_uint required_string required_oid
      required_sha256 required_uuid required_key get_field find_field only_known all_allowed
      bytes_beq contains
  decode_increment-encode inc h =
      rw (parse_uuid_v7-text lib inc.publication h.publication_is) rw
        (parse_oid-text inc.parent h.parent_is) rw (parse_oid-text inc.head h.head_is) rw
        (parse_key-key_text lib inc.key h.key_is.generation_fits h.key_is.id_is) rw
        (parse_sha256-text inc.sha256 h.sha256_is) refl

  decode_checkpoint-encode :
      (c : Checkpoint) → IsTypedCheckpoint c → decode_checkpoint lib (encode_checkpoint c) ≡ ok c
  unfolding decode_checkpoint required_value required_uint required_string required_oid
      required_sha256 required_uuid required_key get_field find_field only_known all_allowed
      bytes_beq contains
  decode_checkpoint-encode c h =
      rw (parse_uuid_v7-text lib c.id h.id_is) rw
        (parse_uuid_v7-text lib c.publication h.publication_is) rw (parse_oid-text c.head h.head_is)
        rw (parse_key-key_text lib c.key h.key_is.generation_fits h.key_is.id_is) rw
        (parse_sha256-text c.sha256 h.sha256_is) refl

  decode_increments-encode :
      (incs : List Increment)
      → All IsTypedIncrement incs
      → decode_increments lib (values_list (encode_increments incs)) ≡ ok incs
  unfolding decode_increments
  decode_increments-encode [] h = refl
  decode_increments-encode (inc ∷ incs) h =
      rw (decode_increment-encode inc h.0) rw (decode_increments-encode incs h.1) refl

  decode_retained_entry-encode :
      (r : Retained)
      → IsTypedRetained r
      → decode_retained_entry lib (encode_retained_entry r) ≡ ok r
  unfolding decode_retained_entry required_value required_uint required_string required_oid
      get_field find_field only_known all_allowed bytes_beq contains
  decode_retained_entry-encode r h =
      rw (parse_oid-text r.head h.head_is) rw
        (decode_checkpoint-encode r.checkpoint h.checkpoint_is) rw
        (decode_increments-encode r.increments h.increments_are) refl

  decode_retained-encode :
      (rs : List Retained)
      → All IsTypedRetained rs
      → decode_retained lib (values_list (encode_retained rs)) ≡ ok rs
  unfolding decode_retained
  decode_retained-encode [] h = refl
  decode_retained-encode (r ∷ rs) h =
      rw (decode_retained_entry-encode r h.0) rw (decode_retained-encode rs h.1) refl

  decode_fields-encode : (m : Manifest) → IsTyped m → decode_fields lib (encode_manifest m) ≡ ok m
  unfolding decode_fields encode_manifest required_value required_uint required_string required_oid
      get_field find_field only_known all_allowed bytes_beq contains
  decode_fields-encode m h =
      rw (parse_oid-text m.head h.head_is) rw
        (decode_checkpoint-encode m.checkpoint h.checkpoint_is) rw
        (decode_increments-encode m.increments h.increments_are) rw
        (decode_retained-encode m.retained h.retained_are)
        (ap (λ v. ok (record m { version = v })) (sym h.version_is))

  encode_manifest-version :
      (m : Manifest) → required_uint (encode_manifest m) (codes "version") ≡ ok m.version
  unfolding encode_manifest required_uint required_value get_field find_field bytes_beq
  encode_manifest-version m = refl

  encode_manifest-kind : (m : Manifest) → kind_of (encode_manifest m) ≡ JsonKind.object_kind
  unfolding encode_manifest
  encode_manifest-kind m = refl

  -- A manifest of version 1 that satisfies the cross-field rules is decoded from its encoded tree
  -- as it was, where its object ids, digests, keys and ids are values of their Go types.
  pub decode_manifest-encode_manifest :
      (m : Manifest) → IsTyped m → IsValid lib m → decode_manifest lib (encode_manifest m) ≡ ok m
  unfolding decode_manifest
  decode_manifest-encode_manifest m h valid = ground (
    arith,
    encode_manifest-kind m,
    encode_manifest-version m,
    h.version_is,
    decode_fields-encode m h,
    (validate_manifest_iff lib m).1 valid,
  )

  decode_fields-version :
      (root : Value) (m : Manifest) → decode_fields lib root ≡ ok m → m.version ≡ manifest_version
  unfolding decode_fields
  decode_fields-version root m h = ground arith

  -- Every manifest that `decode_manifest` returns has version 1 and satisfies the cross-field rules.
  pub decode_manifest-IsValid :
      (root : Value) (m : Manifest)
      → decode_manifest lib root ≡ ok m
      → (m.version ≡ manifest_version) × IsValid lib m
  unfolding decode_manifest
  decode_manifest-IsValid root m h =
      ground (arith, decode_fields-version root m, (validate_manifest_iff lib m).0)
