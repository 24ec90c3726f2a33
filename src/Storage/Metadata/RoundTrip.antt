-- ===== src/Storage/Metadata/RoundTrip.antt =====
-- internal/storage/metadata.go: `ParseMetadata` reads what `Fields` renders.
use slivingdoc.Base.{◌<◌, ◌^◌, ◌≡◌, refl, some, bytes_eq, bytes_beq, codes, lookup, ok, arith}
use slivingdoc.Storage.Key.{PackKind, decimal}
use slivingdoc.Storage.Parse.{hex_text}
use slivingdoc.Storage.Parse.Decimal.{parse_uint-decimal}
use slivingdoc.Storage.Decode.Encode.{IsBytes, parse_sha256-text}
use slivingdoc.Storage.Metadata.{
  Metadata, kind_name, fields, field_sha256, field_uint, field_kind, parse_metadata,
}

field_kind-kind_name :
    (kind : PackKind) → field_kind (some (kind_name (some kind))) ≡ ok (some kind)
unfolding field_kind bytes_beq
field_kind-kind_name PackKind.checkpoint = refl
field_kind-kind_name PackKind.increment = refl

look_sha256 :
    (m : Metadata) → lookup (codes "slivingdoc-sha256") (fields m) ≡ some (hex_text m.sha256)
unfolding lookup fields bytes_beq
look_sha256 m = refl

look_size : (m : Metadata) → lookup (codes "slivingdoc-size") (fields m) ≡ some (decimal m.size)
unfolding lookup fields bytes_beq
look_size m = refl

look_kind : (m : Metadata) → lookup (codes "slivingdoc-kind") (fields m) ≡ some (kind_name m.kind)
unfolding lookup fields bytes_beq
look_kind m = refl

look_generation :
    (m : Metadata) → lookup (codes "slivingdoc-generation") (fields m) ≡ some (decimal m.generation)
unfolding lookup fields bytes_beq
look_generation m = refl

-- The metadata of an upload, with a protocol kind, `uint64` numbers and a digest of 32 bytes, is
-- parsed back from its fields.
pub parse_metadata-fields :
    (m : Metadata) (kind : PackKind)
    → m.kind ≡ some kind
    → m.size < 2 ^ 64
    → m.generation < 2 ^ 64
    → IsBytes 32 m.sha256
    → parse_metadata (fields m) ≡ ok m
unfolding parse_metadata field_sha256 field_uint
parse_metadata-fields m kind is_kind size generation digest = ground (
  arith,
  look_sha256 m,
  look_size m,
  look_kind m,
  look_generation m,
  parse_sha256-text m.sha256 digest,
  parse_uint-decimal m.size size,
  parse_uint-decimal m.generation generation,
  field_kind-kind_name kind,
  is_kind,
)
