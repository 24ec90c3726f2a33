-- ===== src/Storage/Metadata.antt =====
-- internal/storage/metadata.go: the metadata of an upload as named text fields. The fields of a map
-- are a list of its entries.
pub mod RoundTrip
use slivingdoc.Base.{
  ℕ, ◌<◌, Bool, true, false, Option, none, some, List, [], ◌∷◌, ◌==◌, bytes_eq, Bytes, codes,
  if◌then◌else◌, lookup, Result, ok, err, ◌>>=◌, ◌>>◌,
}
use slivingdoc.Storage.Key.{PackKind, decimal}
use slivingdoc.Storage.Manifest.{Sha256}
use slivingdoc.Storage.Parse.{ParseError, parse_sha256, parse_uint, hex_text}

pub data MetadataError : Type 0 where
  bad_sha256 : MetadataError
  bad_size : MetadataError
  bad_kind : MetadataError
  bad_generation : MetadataError

-- `none` is the empty `PackKind`, Go's zero value.
pub record Metadata : Type 0 where
  pub sha256 : Sha256
  pub size : ℕ
  pub kind : Option PackKind
  pub generation : ℕ

-- `SHA256{}`, `[32]byte` of zeros.
abbrev pub zero_sha256 : Sha256
zero_sha256 =
    0 ∷ 0 ∷ 0 ∷ 0 ∷ 0 ∷ 0 ∷ 0 ∷ 0 ∷ 0 ∷ 0 ∷ 0 ∷ 0 ∷ 0 ∷ 0 ∷ 0 ∷ 0 ∷ 0 ∷ 0 ∷ 0 ∷ 0 ∷ 0 ∷ 0 ∷ 0 ∷ 0
    ∷ 0 ∷ 0 ∷ 0 ∷ 0 ∷ 0 ∷ 0 ∷ 0 ∷ 0 ∷ []

abbrev pub kind_name : Option PackKind → Bytes
kind_name none = []
kind_name (some PackKind.checkpoint) = codes "checkpoint"
kind_name (some PackKind.increment) = codes "increment"

unfoldable pub fields : Metadata → List (Bytes × Bytes)
fields m =
    (codes "slivingdoc-sha256", hex_text m.sha256)
    ∷ (codes "slivingdoc-size", decimal m.size)
    ∷ (codes "slivingdoc-kind", kind_name m.kind)
    ∷ (codes "slivingdoc-generation", decimal m.generation)
    ∷ []

unfoldable pub field_sha256 : Option Bytes → Result MetadataError Sha256
field_sha256 none = ok zero_sha256
field_sha256 (some v) = elim (parse_sha256 v) [ ok h ↦ ok h | err _ ↦ err MetadataError.bad_sha256 ]

unfoldable pub field_uint : MetadataError → Option Bytes → Result MetadataError ℕ
field_uint e none = ok 0
field_uint e (some v) = elim (parse_uint v) [ some n ↦ ok n | none ↦ err e ]

unfoldable pub field_kind : Option Bytes → Result MetadataError (Option PackKind)
field_kind none = ok none
field_kind (some v) =
    if v == codes "checkpoint"
    then ok (some PackKind.checkpoint)
    else if v == codes "increment"
    then ok (some PackKind.increment)
    else err MetadataError.bad_kind

unfoldable pub parse_metadata : List (Bytes × Bytes) → Result MetadataError Metadata
parse_metadata fs = do
  sha256 ← field_sha256 (lookup (codes "slivingdoc-sha256") fs)
  size ← field_uint MetadataError.bad_size (lookup (codes "slivingdoc-size") fs)
  kind ← field_kind (lookup (codes "slivingdoc-kind") fs)
  generation ← field_uint MetadataError.bad_generation (lookup (codes "slivingdoc-generation") fs)
  ok (record { sha256 = sha256; size = size; kind = kind; generation = generation })
