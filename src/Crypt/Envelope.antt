-- ===== src/Crypt/Envelope.antt =====
-- internal/crypt/envelope.go: the structure of an envelope, encoded and decoded. The code of
-- crypto/hmac is a parameter.
pub mod Sections
pub mod Fields
pub mod RoundTrip
use slivingdoc.Base.{
  ℕ, zero, suc, ◌+◌, ◌*◌, ◌/◌, ◌%◌, ◌^◌, ◌-◌, Bool, true, false, not, List, [], ◌∷◌, ◌++◌, ◌==◌,
  nat_eq, bytes_eq, Bytes, codes, length, take, drop, ltb, leb, if◌then◌else◌, Result, ok, err,
  ◌>>=◌, ◌>>◌, require, contains,
}
use slivingdoc.Crypt.Wire.{big_endian, value_of, Reader, reader_of, read_u8, read_take, read_number}
use slivingdoc.Crypt.Door.{
  CryptError, Door, format_version, is_door, kdf_argon2id, door_body_size, decode_door_body,
  byte_at, header_transcript,
}

abbrev pub magic : Bytes
magic = codes "SLIVENC" ++ (0 ∷ [])

abbrev pub preamble_size : ℕ
preamble_size = 15

abbrev pub core_size : ℕ
core_size = 28

abbrev pub commitment_size : ℕ
commitment_size = 32

abbrev pub tag_size : ℕ
tag_size = 16

abbrev pub default_chunk_size : ℕ
default_chunk_size = 65536

abbrev pub max_header_length : ℕ
max_header_length = 1048576

-- `ObjectKind.supported`: `KindCurrent` and `KindPack`.
abbrev pub supported : ℕ → Bool
supported kind = is_door kind

pub record Extension : Type 0 where
  pub kind : ℕ
  pub value : Bytes

-- `Header`, whose format version is always `formatVersion`; its doors are those of `parsed`.
pub record Header : Type 0 where
  pub kind : ℕ
  pub chunk_size : ℕ
  pub plaintext_size : ℕ
  pub nonce_prefix : Bytes
  pub doors : List Door
  pub extensions : List Extension
  pub commitment : Bytes

pub record Parsed : Type 0 where
  pub header : Header
  pub body : Bytes
  pub unknown_doors : List Bytes
  pub payload : Bytes

-- `Header.core`
unfoldable pub core : Header → Bytes
core h = big_endian 4 h.chunk_size ++ (big_endian 8 h.plaintext_size ++ h.nonce_prefix)

-- The doors that were read, and the reader behind them.
pub record DoorState : Type 0 where
  pub reader : Reader
  pub known : List Door
  pub unknown : List Bytes

-- The end of a turn of the loop over the doors, from `if r.err != nil` on.
abbrev pub keep_door : DoorState → ℕ → ℕ → Bytes → Reader → Result CryptError DoorState
keep_door s kind kdf_id body r =
    if r.failed
    then err CryptError.malformed
    else if not (is_door kind)
    then ok (record s {
      reader = r;
      unknown = s.unknown ++ (take (r.off - s.reader.off) s.reader.rest ∷ []);
    })
    else if not (kdf_id == kdf_argon2id)
    then err CryptError.unsupported
    else if not (length body == door_body_size)
    then err CryptError.malformed
    else ok (record s { reader = r; known = s.known ++ (decode_door_body kind kdf_id body ∷ []) })

abbrev pub with_body : DoorState → ℕ → ℕ → Bytes × Reader → Result CryptError DoorState
with_body s kind kdf_id (body, r) = keep_door s kind kdf_id body r

abbrev pub with_length : DoorState → ℕ → ℕ → ℕ × Reader → Result CryptError DoorState
with_length s kind kdf_id (size, r) = with_body s kind kdf_id (read_take size r)

abbrev pub with_kdf : DoorState → ℕ → ℕ × Reader → Result CryptError DoorState
with_kdf s kind (kdf_id, r) = with_length s kind kdf_id (read_number 2 r)

abbrev pub with_kind : DoorState → ℕ × Reader → Result CryptError DoorState
with_kind s (kind, r) = with_kdf s kind (read_u8 r)

unfoldable pub decode_door : DoorState → Result CryptError DoorState
decode_door s = with_kind s (read_u8 s.reader)

unfoldable pub decode_doors : ℕ → DoorState → Result CryptError DoorState
decode_doors zero s = ok s
decode_doors (suc n) s = decode_door s >>= decode_doors n

-- The extensions that were read, the types that were seen, and the reader behind them.
pub record ExtensionState : Type 0 where
  pub reader : Reader
  pub seen : List ℕ
  pub extensions : List Extension

abbrev pub keep_extension : ExtensionState → ℕ → Bytes × Reader → Result CryptError ExtensionState
keep_extension s kind (value, r) =
    if r.failed
    then err CryptError.malformed
    else if contains s.seen kind
    then err CryptError.malformed
    else ok (record {
      reader = r;
      seen = kind ∷ s.seen;
      extensions = s.extensions ++ (record { kind = kind; value = value } ∷ []);
    })

abbrev pub with_size : ExtensionState → ℕ → ℕ × Reader → Result CryptError ExtensionState
with_size s kind (size, r) = keep_extension s kind (read_take size r)

abbrev pub with_type : ExtensionState → ℕ × Reader → Result CryptError ExtensionState
with_type s (kind, r) = with_size s kind (read_number 2 r)

unfoldable pub decode_extension : ExtensionState → Result CryptError ExtensionState
decode_extension s = with_type s (read_number 2 s.reader)

unfoldable pub decode_extensions : ℕ → ExtensionState → Result CryptError ExtensionState
decode_extensions zero s = ok s
decode_extensions (suc n) s = decode_extension s >>= decode_extensions n

-- `checkPayloadLength`, in 64 bits.
unfoldable pub data_records : ℕ → ℕ → ℕ
data_records plaintext_size chunk_size =
    (plaintext_size + chunk_size + (2 ^ 64 - 1)) % 2 ^ 64 / chunk_size

unfoldable pub payload_size : ℕ → ℕ → ℕ
payload_size plaintext_size chunk_size =
    (plaintext_size + (data_records plaintext_size chunk_size + 1) * tag_size) % 2 ^ 64

unfoldable pub check_payload_length : ℕ → ℕ → ℕ → Result CryptError (Unit {0})
check_payload_length plaintext_size chunk_size payload_length = do
  require (leb plaintext_size payload_length) CryptError.malformed
  require (payload_size plaintext_size chunk_size == payload_length) CryptError.malformed

-- The end of `decodeHeader`: the commitment is all that is left.
abbrev pub finish_header :
    Bytes → ℕ → ℕ → ℕ → Bytes → DoorState → ExtensionState → Result CryptError Parsed
finish_header hdr kind chunk_size plaintext_size prefix doors exts = do
  require (not exts.reader.failed) CryptError.malformed
  require (exts.reader.off + commitment_size == length hdr) CryptError.malformed
  ok (record {
    header = record {
      kind = kind;
      chunk_size = chunk_size;
      plaintext_size = plaintext_size;
      nonce_prefix = prefix;
      doors = doors.known;
      extensions = exts.extensions;
      commitment = exts.reader.rest;
    };
    body = take exts.reader.off hdr;
    unknown_doors = doors.unknown;
    payload = [];
  })

abbrev pub with_extensions :
    Bytes → ℕ → ℕ → ℕ → Bytes → DoorState → ℕ × Reader → Result CryptError Parsed
with_extensions hdr kind chunk_size plaintext_size prefix doors (count, r) =
    decode_extensions count (record { reader = r; seen = []; extensions = [] })
    >>= finish_header hdr kind chunk_size plaintext_size prefix doors

abbrev pub after_doors : Bytes → ℕ → ℕ → ℕ → Bytes → DoorState → Result CryptError Parsed
after_doors hdr kind chunk_size plaintext_size prefix doors =
    with_extensions hdr kind chunk_size plaintext_size prefix doors (read_u8 doors.reader)

abbrev pub with_doors : Bytes → ℕ → ℕ → ℕ → Bytes → ℕ × Reader → Result CryptError Parsed
with_doors hdr kind chunk_size plaintext_size prefix (count, r) =
    decode_doors count (record { reader = r; known = []; unknown = [] })
    >>= after_doors hdr kind chunk_size plaintext_size prefix

abbrev pub with_prefix : Bytes → ℕ → ℕ → ℕ → Bytes × Reader → Result CryptError Parsed
with_prefix hdr kind chunk_size plaintext_size (prefix, r) =
    with_doors hdr kind chunk_size plaintext_size prefix (read_u8 r)

abbrev pub with_plaintext_size : Bytes → ℕ → ℕ → ℕ × Reader → Result CryptError Parsed
with_plaintext_size hdr kind chunk_size (plaintext_size, r) =
    with_prefix hdr kind chunk_size plaintext_size (read_take 16 r)

abbrev pub with_chunk_size : Bytes → ℕ → ℕ × Reader → Result CryptError Parsed
with_chunk_size hdr kind (chunk_size, r) =
    require (chunk_size == default_chunk_size) CryptError.unsupported
    >> with_plaintext_size hdr kind chunk_size (read_number 8 r)

unfoldable pub decode_header : Bytes → ℕ → Result CryptError Parsed
decode_header hdr kind = do
  require (leb (core_size + 2 + commitment_size) (length hdr)) CryptError.malformed
  with_chunk_size hdr kind (read_number 4 (reader_of hdr))

abbrev pub checked_payload : Bytes → Parsed → Result CryptError Parsed
checked_payload payload p =
    check_payload_length p.header.plaintext_size p.header.chunk_size (length payload)
    >> ok (record p { payload = payload })

-- `decodeEnvelope`, with the object kind and the header length that it reads from the preamble.
unfoldable pub open_parts : Bytes → ℕ → ℕ → Result CryptError Parsed
open_parts raw kind header_length = do
  require (leb preamble_size (length raw)) CryptError.malformed
  require (take 8 raw == magic) CryptError.malformed
  require (value_of (take 2 (drop 8 raw)) == format_version) CryptError.unsupported
  require (supported kind) CryptError.unsupported
  require (leb header_length max_header_length) CryptError.malformed
  require (leb (preamble_size + header_length) (length raw)) CryptError.malformed
  p ← decode_header (take header_length (drop preamble_size raw)) kind
  checked_payload (drop (preamble_size + header_length) raw) p

unfoldable pub decode_envelope : Bytes → Result CryptError Parsed
decode_envelope raw = open_parts raw (byte_at 10 raw) (value_of (take 4 (drop 11 raw)))

-- The concatenation of the records.
abbrev pub joined : List Bytes → Bytes
joined [] = []
joined (r ∷ rs) = r ++ joined rs

unfoldable pub encode_door_section : List Bytes → Result CryptError Bytes
encode_door_section records = do
  require (leb (length records) 255) CryptError.unsupported
  ok (length records ∷ joined records)

abbrev pub extension_record : Extension → Bytes
extension_record e = big_endian 2 e.kind ++ (big_endian 2 (length e.value) ++ e.value)

unfoldable pub encode_extension_records : List Extension → Result CryptError Bytes
encode_extension_records [] = ok []
encode_extension_records (e ∷ es) = do
  require (leb (length e.value) 65535) CryptError.malformed
  rest ← encode_extension_records es
  ok (extension_record e ++ rest)

unfoldable pub encode_extension_section : List Extension → Result CryptError Bytes
encode_extension_section es = do
  require (leb (length es) 255) CryptError.unsupported
  rest ← encode_extension_records es
  ok (length es ∷ rest)

module _ (mac : Bytes → Bytes → Bytes) where
  unfoldable pub encode_header : ℕ → Bytes → Bytes → Bytes → Bytes → Bytes → Result CryptError Bytes
  encode_header kind core doors extensions mac_key encoded_key =
      let body = core ++ (doors ++ extensions) in
      require (leb (length body + commitment_size) max_header_length) CryptError.malformed
      >> ok (body ++ mac mac_key (header_transcript kind encoded_key body))

unfoldable pub assemble_envelope : ℕ → Bytes → Bytes → Bytes
assemble_envelope kind header payload =
    magic
    ++ (big_endian 2 format_version
        ++ (kind ∷ (big_endian 4 (length header) ++ (header ++ payload))))
