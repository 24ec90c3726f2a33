-- ===== src/Crypt/Envelope/Fields.antt =====
-- A header of internal/crypt/envelope.go is read back field by field.
use mathlib.Core.List.{append_assoc}
use slivingdoc.Base.{
  ℕ, ◌+◌, ◌<◌, ◌≡◌, refl, ap, ◌∙◌, arith, true, List, [], ◌∷◌, ◌++◌, map, nat_eq, Bytes, length,
  length-append, take, leb, ok, ◌>>=◌, All,
}
use slivingdoc.Crypt.Wire.{big_endian, reader_of, read_u8, read_number}
use slivingdoc.Crypt.Wire.Reads.{limit, at, read_u8-cons, read_take-append, read_number-append}
use slivingdoc.Crypt.Door.RoundTrip.{take_of}
use slivingdoc.Crypt.Envelope.{
  Header, Parsed, Extension, DoorState, core, joined, default_chunk_size, commitment_size,
  with_chunk_size, with_plaintext_size, with_prefix, with_doors, after_doors, with_extensions,
  finish_header, decode_header,
}
use slivingdoc.Crypt.Envelope.Sections.{
  WireDoor, record_of, IsWire, known_doors, unknown_doors, decode_doors-records, IsExtension,
  AreNew, extension_bytes, decode_extensions-records, seen_after,
}

-- What is in a header: its fields, and every record of its section of doors.
pub record Contents : Type 0 where
  pub kind : ℕ
  pub plaintext_size : ℕ
  pub nonce_prefix : Bytes
  pub doors : List WireDoor
  pub extensions : List Extension

abbrev pub header_of : Contents → Bytes → Header
header_of c commitment = record {
  kind = c.kind;
  chunk_size = default_chunk_size;
  plaintext_size = c.plaintext_size;
  nonce_prefix = c.nonce_prefix;
  doors = known_doors c.doors;
  extensions = c.extensions;
  commitment = commitment;
}

-- The bytes of the two sections, and the header in front of its commitment.
abbrev pub door_bytes : List WireDoor → Bytes
door_bytes ws = length ws ∷ joined (map record_of ws)

abbrev pub extension_section : List Extension → Bytes
extension_section es = length es ∷ extension_bytes es

abbrev pub body_of : Contents → Bytes
body_of c = core (header_of c []) ++ (door_bytes c.doors ++ extension_section c.extensions)

pub record AreContents (c : Contents) : Type 0 where
  pub size_fits : c.plaintext_size < limit 8
  pub prefix_is : length c.nonce_prefix ≡ 16
  pub doors_are : All IsWire c.doors
  pub extensions_are : All IsExtension c.extensions
  pub extensions_new : AreNew [] c.extensions

module _ (c : Contents) (fields : AreContents c) (commitment : Bytes)
    (width : length commitment ≡ 32) where
  abbrev hdr : Bytes
  hdr = body_of c ++ commitment

  abbrev after_prefix : Bytes
  after_prefix =
      length c.doors
      ∷ (joined (map record_of c.doors)
          ++ (length c.extensions ∷ (extension_bytes c.extensions ++ commitment)))

  abbrev wire : Bytes
  wire =
      big_endian 4 default_chunk_size
      ++ (big_endian 8 c.plaintext_size ++ (c.nonce_prefix ++ after_prefix))

  hdr-wire : hdr ≡ wire
  unfolding core
  hdr-wire =
      ap (λ t. big_endian 4 default_chunk_size ++ (big_endian 8 c.plaintext_size ++ t))
        (append_assoc c.nonce_prefix (door_bytes c.doors ++ extension_section c.extensions)
            commitment
          ∙ ap (λ t. c.nonce_prefix ++ (length c.doors ∷ t))
              (append_assoc (joined (map record_of c.doors)) (extension_section c.extensions)
                commitment))

  abbrev end_of : ℕ
  end_of =
      0
      + 4
      + 8
      + 16
      + 1
      + length (joined (map record_of c.doors))
      + 1
      + length (extension_bytes c.extensions)

  body_length : length (body_of c) ≡ end_of
  unfolding core
  body_length = omega (
    arith,
    fields.prefix_is,
    length-append c.nonce_prefix (door_bytes c.doors ++ extension_section c.extensions),
    length-append (joined (map record_of c.doors)) (extension_section c.extensions),
  )

  abbrev pub parsed_of : Parsed
  parsed_of = record {
    header = header_of c commitment;
    body = body_of c;
    unknown_doors = unknown_doors c.doors;
    payload = [];
  }

  finished :
      (doors : DoorState) (seen : List ℕ)
      → doors.known ≡ known_doors c.doors
      → doors.unknown ≡ unknown_doors c.doors
      → finish_header hdr c.kind default_chunk_size c.plaintext_size c.nonce_prefix doors
          (record { reader = at commitment end_of; seen = seen; extensions = c.extensions })
        ≡ ok parsed_of
  finished doors seen p q =
      let total : end_of + commitment_size ≡ length hdr =
        omega (arith, body_length, width, length-append (body_of c) commitment) in
      let whole : take end_of hdr ≡ body_of c = take_of end_of (body_of c) commitment body_length in
      ground (arith, total, whole, p, q)

  -- The loops over the two sections.
  sections-read :
      with_doors hdr c.kind default_chunk_size c.plaintext_size c.nonce_prefix
        (read_u8 (at after_prefix 28))
      ≡ ok parsed_of
  sections-read =
      let exts = length c.extensions ∷ (extension_bytes c.extensions ++ commitment) in
      let off = 28 + 1 + length (joined (map record_of c.doors)) in
      let doors : DoorState = record {
        reader = at exts off;
        known = known_doors c.doors;
        unknown = unknown_doors c.doors;
      } in
      ap (with_doors hdr c.kind default_chunk_size c.plaintext_size c.nonce_prefix)
        (read_u8-cons (length c.doors) _ 28)
      ∙ ap (λ r. r >>= after_doors hdr c.kind default_chunk_size c.plaintext_size c.nonce_prefix)
          (decode_doors-records c.doors exts (28 + 1) [] [] fields.doors_are)
      ∙ ap (with_extensions hdr c.kind default_chunk_size c.plaintext_size c.nonce_prefix doors)
          (read_u8-cons (length c.extensions) _ off)
      ∙ ap
          (λ r.
            r >>= finish_header hdr c.kind default_chunk_size c.plaintext_size c.nonce_prefix doors)
          (decode_extensions-records c.extensions commitment (off + 1) [] [] fields.extensions_are
            fields.extensions_new)
      ∙ finished doors (seen_after [] c.extensions) refl refl

  fields-read : with_chunk_size hdr c.kind (read_number 4 (reader_of hdr)) ≡ ok parsed_of
  fields-read =
      ap (λ b. with_chunk_size hdr c.kind (read_number 4 (reader_of b))) hdr-wire
      ∙ ap (with_chunk_size hdr c.kind) (
          read_number-append 4 default_chunk_size
            (big_endian 8 c.plaintext_size ++ (c.nonce_prefix ++ after_prefix)) 0 (omega arith))
      ∙ ap (with_plaintext_size hdr c.kind default_chunk_size) (
          read_number-append 8 c.plaintext_size (c.nonce_prefix ++ after_prefix) 4 fields.size_fits)
      ∙ ap (with_prefix hdr c.kind default_chunk_size c.plaintext_size)
          (read_take-append c.nonce_prefix after_prefix 12 16 fields.prefix_is)
      ∙ sections-read

  long_enough : leb 62 (length hdr) ≡ true
  long_enough = ground (arith, body_length, width, length-append (body_of c) commitment)

  pub decode_header-body_of : decode_header hdr c.kind ≡ ok parsed_of
  unfolding decode_header
  decode_header-body_of = ground (arith, long_enough, fields-read)
