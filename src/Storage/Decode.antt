-- ===== src/Storage/Decode.antt =====
-- internal/storage/manifest.go: the decoder of a stored manifest, from the value tree on.
pub mod Encode
use slivingdoc.Base.{
  ℕ, Bool, true, false, not, List, [], ◌∷◌, ◌==◌, ltb, leb, nat_eq, bytes_eq, Bytes, codes, Option,
  none, some, Result, ok, err, ◌>>=◌, ◌>>◌, require,
}
use slivingdoc.Storage.Key.{Uuid, UuidLibrary, Key}
use slivingdoc.Storage.Manifest.{
  Oid, Sha256, Checkpoint, Increment, Retained, Manifest, ManifestError, validate_manifest,
}
use slivingdoc.Storage.Parse.{ParseError, parse_uuid_v7, parse_oid, parse_sha256, parse_key}
use slivingdoc.Storage.Json.{
  Value, JsonKind, kind_of, str_of, num_of, arr_of, get_field, only_known, json_kind_beq,
}

-- `upgrade_required` is `*UpgradeRequiredError`; all others are wrapped as `ErrIntegrity`.
pub data DecodeError : Type 0 where
  upgrade_required : ℕ → DecodeError
  root_not_object : DecodeError
  unsupported_version : DecodeError
  unknown_field : DecodeError
  missing_field : DecodeError
  wrong_value_kind : DecodeError
  not_object : DecodeError
  malformed : ParseError → DecodeError
  inconsistent : ManifestError → DecodeError

abbrev pub Decoded : Type 0 → Type 0
Decoded = Result DecodeError

abbrev pub manifest_version : ℕ
manifest_version = 1

abbrev pub reject_unknown : Value → List Bytes → Decoded (Unit {0})
reject_unknown v allowed = require (only_known v allowed) DecodeError.unknown_field

abbrev pub of_kind : JsonKind → Option Value → Decoded Value
of_kind kind none = err DecodeError.missing_field
of_kind kind (some f) =
    require (json_kind_beq (kind_of f) kind) DecodeError.wrong_value_kind >> ok f

unfoldable pub required_value : Value → Bytes → JsonKind → Decoded Value
required_value v name kind = of_kind kind (get_field v name)

unfoldable pub required_uint : Value → Bytes → Decoded ℕ
required_uint v name = do f ← required_value v name JsonKind.number_kind; ok (num_of f)

unfoldable pub required_string : Value → Bytes → Decoded Bytes
required_string v name = do f ← required_value v name JsonKind.string_kind; ok (str_of f)

abbrev pub parsed : {A : Type 0} → Result ParseError A → Decoded A
parsed (ok a) = ok a
parsed (err e) = err (DecodeError.malformed e)

abbrev pub validated : Result ManifestError (Unit {0}) → Decoded (Unit {0})
validated (ok _) = ok tt
validated (err e) = err (DecodeError.inconsistent e)

unfoldable pub required_oid : Value → Bytes → Decoded Oid
required_oid v name = do s ← required_string v name; parsed (parse_oid s)

unfoldable pub required_sha256 : Value → Bytes → Decoded Sha256
required_sha256 v name = do s ← required_string v name; parsed (parse_sha256 s)

module _ (lib : UuidLibrary) where
  unfoldable pub required_uuid : Value → Bytes → Decoded Uuid
  required_uuid v name = do s ← required_string v name; parsed (parse_uuid_v7 lib s)

  unfoldable pub required_key : Value → Bytes → Decoded Key
  required_key v name = do s ← required_string v name; parsed (parse_key lib s)

  unfoldable pub decode_checkpoint : Value → Decoded Checkpoint
  decode_checkpoint v = do
    reject_unknown v (
        codes "id"
        ∷ codes "publication"
        ∷ codes "throughGeneration"
        ∷ codes "head"
        ∷ codes "key"
        ∷ codes "sha256"
        ∷ codes "size"
        ∷ [])
    id ← required_uuid v (codes "id")
    publication ← required_uuid v (codes "publication")
    through ← required_uint v (codes "throughGeneration")
    head ← required_oid v (codes "head")
    key ← required_key v (codes "key")
    sha256 ← required_sha256 v (codes "sha256")
    size ← required_uint v (codes "size")
    ok (record {
      id = id;
      publication = publication;
      through_generation = through;
      head = head;
      key = key;
      sha256 = sha256;
      size = size;
    })

  -- the body of the loop of `decodeIncrements`
  unfoldable pub decode_increment : Value → Decoded Increment
  decode_increment v = do
    require (json_kind_beq (kind_of v) JsonKind.object_kind) DecodeError.not_object
    reject_unknown v (
        codes "generation"
        ∷ codes "publication"
        ∷ codes "parent"
        ∷ codes "head"
        ∷ codes "key"
        ∷ codes "sha256"
        ∷ codes "size"
        ∷ [])
    generation ← required_uint v (codes "generation")
    publication ← required_uuid v (codes "publication")
    parent ← required_oid v (codes "parent")
    head ← required_oid v (codes "head")
    key ← required_key v (codes "key")
    sha256 ← required_sha256 v (codes "sha256")
    size ← required_uint v (codes "size")
    ok (record {
      generation = generation;
      publication = publication;
      parent = parent;
      head = head;
      key = key;
      sha256 = sha256;
      size = size;
    })

  unfoldable pub decode_increments : List Value → Decoded (List Increment)
  decode_increments [] = ok []
  decode_increments (v ∷ vs) = do
    inc ← decode_increment v
    incs ← decode_increments vs
    ok (inc ∷ incs)

  -- the body of the loop of `decodeRetained`
  unfoldable pub decode_retained_entry : Value → Decoded Retained
  decode_retained_entry v = do
    require (json_kind_beq (kind_of v) JsonKind.object_kind) DecodeError.not_object
    reject_unknown v
        (codes "retiredAtGeneration" ∷ codes "head" ∷ codes "checkpoint" ∷ codes "increments" ∷ [])
    retired_at ← required_uint v (codes "retiredAtGeneration")
    head ← required_oid v (codes "head")
    checkpoint_value ← required_value v (codes "checkpoint") JsonKind.object_kind
    checkpoint ← decode_checkpoint checkpoint_value
    increments_value ← required_value v (codes "increments") JsonKind.array_kind
    increments ← decode_increments (arr_of increments_value)
    ok (record {
      retired_at_generation = retired_at;
      head = head;
      checkpoint = checkpoint;
      increments = increments;
    })

  unfoldable pub decode_retained : List Value → Decoded (List Retained)
  decode_retained [] = ok []
  decode_retained (v ∷ vs) = do r ← decode_retained_entry v; rs ← decode_retained vs; ok (r ∷ rs)

  -- `decodeManifest`
  unfoldable pub decode_fields : Value → Decoded Manifest
  decode_fields root = do
    reject_unknown root (
        codes "version"
        ∷ codes "generation"
        ∷ codes "head"
        ∷ codes "checkpoint"
        ∷ codes "increments"
        ∷ codes "retained"
        ∷ [])
    generation ← required_uint root (codes "generation")
    head ← required_oid root (codes "head")
    checkpoint_value ← required_value root (codes "checkpoint") JsonKind.object_kind
    checkpoint ← decode_checkpoint checkpoint_value
    increments_value ← required_value root (codes "increments") JsonKind.array_kind
    increments ← decode_increments (arr_of increments_value)
    retained_value ← required_value root (codes "retained") JsonKind.array_kind
    retained ← decode_retained (arr_of retained_value)
    ok (record {
      version = manifest_version;
      generation = generation;
      head = head;
      checkpoint = checkpoint;
      increments = increments;
      retained = retained;
    })

  -- `DecodeManifest` behind `strictjson.Parse`.
  unfoldable pub decode_manifest : Value → Decoded Manifest
  decode_manifest root = do
    require (json_kind_beq (kind_of root) JsonKind.object_kind) DecodeError.root_not_object
    version ← required_uint root (codes "version")
    require (leb version manifest_version) (DecodeError.upgrade_required version)
    require (version == manifest_version) DecodeError.unsupported_version
    m ← decode_fields root
    validated (validate_manifest lib m)
    ok m
