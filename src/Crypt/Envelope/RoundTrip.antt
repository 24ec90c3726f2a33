-- ===== src/Crypt/Envelope/RoundTrip.antt =====
-- An envelope of internal/crypt/envelope.go that was assembled is read back.
use mathlib.Core.Path.{subst}
use slivingdoc.Base.{
  ℕ, ◌+◌, ◌≤◌, ◌≡◌, refl, sym, ap, ◌∙◌, arith, true, List, [], ◌∷◌, ◌++◌, map, nat_eq, Bytes,
  length, length-append, take, drop, Result, ok, ◌>>=◌, require-ok, bind-ok, bytes_eq, bytes_beq,
}
use slivingdoc.Crypt.Wire.{big_endian, value_of}
use slivingdoc.Crypt.Wire.Reads.{take-append, drop-append, value_of-big_endian}
use slivingdoc.Crypt.Door.{CryptError, header_transcript, format_version}
use slivingdoc.Crypt.Door.RoundTrip.{drop-beyond}
use slivingdoc.Crypt.Envelope.{
  Parsed, Extension, core, joined, extension_record, encode_extension_records, encode_door_section,
  encode_extension_section, encode_header, assemble_envelope, decode_header, open_parts,
  decode_envelope, check_payload_length, default_chunk_size, commitment_size, max_header_length,
  supported, magic,
}
use slivingdoc.Crypt.Envelope.Sections.{WireDoor, record_of, unknown_doors, extension_bytes}
use slivingdoc.Crypt.Envelope.Fields.{
  Contents, AreContents, header_of, body_of, door_bytes, extension_section, parsed_of,
  decode_header-body_of,
}

abbrev written_ok : Bytes → Result CryptError Bytes
written_ok b = ok b

written-injective : (a b : Bytes) → written_ok a ≡ ok b → a ≡ b
written-injective a b h = ground arith

length-records : (ws : List WireDoor) → length (map record_of ws) ≡ length ws
length-records [] = refl
length-records (w ∷ ws) = omega (arith, length-records ws)

door_section-bytes :
    (ws : List WireDoor) (section : Bytes)
    → encode_door_section (map record_of ws) ≡ ok section
    → door_bytes ws ≡ section
unfolding encode_door_section
door_section-bytes ws section h =
    let (few, written) =
      require-ok _ CryptError.unsupported
        (written_ok (length (map record_of ws) ∷ joined (map record_of ws))) h in
    sym (ap (λ n. n ∷ joined (map record_of ws)) (length-records ws))
    ∙ written-injective _ section written

extension_records-bytes :
    (es : List Extension) (bytes : Bytes)
    → encode_extension_records es ≡ ok bytes
    → extension_bytes es ≡ bytes
unfolding encode_extension_records
extension_records-bytes [] bytes h = written-injective [] bytes h
extension_records-bytes (e ∷ es) bytes h =
    let (short, h1) =
      require-ok _ CryptError.malformed
        (encode_extension_records es >>= (λ rest. written_ok (extension_record e ++ rest))) h in
    let (rest, made, written) =
      bind-ok (encode_extension_records es) (λ rest. written_ok (extension_record e ++ rest)) h1 in
    ap (λ t. extension_record e ++ t) (extension_records-bytes es rest made)
    ∙ written-injective _ bytes written

extension_section-bytes :
    (es : List Extension) (section : Bytes)
    → encode_extension_section es ≡ ok section
    → extension_section es ≡ section
unfolding encode_extension_section
extension_section-bytes es section h =
    let (few, h1) =
      require-ok _ CryptError.unsupported
        (encode_extension_records es >>= (λ rest. written_ok (length es ∷ rest))) h in
    let (rest, made, written) =
      bind-ok (encode_extension_records es) (λ rest. written_ok (length es ∷ rest)) h1 in
    ap (λ t. length es ∷ t) (extension_records-bytes es rest made)
    ∙ written-injective _ section written

-- The parts of the preamble.
module _ (kind : ℕ) (hdr payload : Bytes) where
  abbrev raw : Bytes
  raw = assemble_envelope kind hdr payload

  abbrev preamble : Bytes
  preamble = magic ++ (big_endian 2 format_version ++ (kind ∷ big_endian 4 (length hdr)))

  raw_is : raw ≡ preamble ++ (hdr ++ payload)
  unfolding assemble_envelope
  raw_is = refl

  opened :
      (p : Parsed)
      → supported kind ≡ true
      → length hdr ≤ max_header_length
      → decode_header hdr kind ≡ ok p
      → check_payload_length p.header.plaintext_size p.header.chunk_size (length payload) ≡ ok tt
      → open_parts raw kind (length hdr) ≡ ok (record p { payload = payload })
  unfolding open_parts assemble_envelope take drop bytes_beq
  opened p known short read sized =
      let front : take (length hdr) (hdr ++ payload) ≡ hdr = take-append hdr payload in
      let back : drop (15 + length hdr) raw ≡ payload =
        drop-beyond (length hdr) preamble (hdr ++ payload) ∙ drop-append hdr payload in
      let total : length raw ≡ 15 + length hdr + length payload =
        omega (arith, length-append hdr payload) in
      ground (arith, known, short, read, sized, front, back, total)

  preamble-read :
      length hdr ≤ max_header_length → decode_envelope raw ≡ open_parts raw kind (length hdr)
  unfolding decode_envelope assemble_envelope take drop
  preamble-read short =
      let size : value_of (big_endian 4 (length hdr)) ≡ length hdr =
        value_of-big_endian 4 (length hdr) (omega (arith, short)) in
      let kind_is : value_of (kind ∷ []) ≡ kind = omega arith in
      ap (λ k. open_parts raw k (value_of (big_endian 4 (length hdr)))) kind_is
      ∙ ap (open_parts raw kind) size

module _ (mac : Bytes → Bytes → Bytes) (mac-width : (k t : Bytes) → length (mac k t) ≡ 32) where
  abbrev pub commitment_of : Contents → Bytes → Bytes → Bytes
  commitment_of c mac_key encoded_key =
      mac mac_key (header_transcript c.kind encoded_key (body_of c))

  made_of :
      (c : Contents) (mac_key encoded_key header : Bytes)
      → encode_header mac c.kind
          (core (header_of c []))
          (door_bytes c.doors)
          (extension_section c.extensions)
          mac_key
          encoded_key
        ≡ ok header
      → (body_of c ++ commitment_of c mac_key encoded_key ≡ header)
        × (length (body_of c) + commitment_size ≤ max_header_length)
  unfolding encode_header
  made_of c mac_key encoded_key header h =
      let (fits, written) =
        require-ok _ CryptError.malformed
          (written_ok (body_of c ++ commitment_of c mac_key encoded_key)) h in
      (written-injective _ header written, ground (arith, fits))

  -- An envelope that was assembled from a header and its sections is read back with the fields of the
  -- header, the known doors in order, the records of unknown doors byte for byte in order, the
  -- extensions, the body that the commitment authenticates, the commitment and the payload. The
  -- fields have the ranges of their Go types, the extension types differ, the commitment has 32
  -- bytes, and the payload has the length that its plaintext size declares.
  pub decode_envelope-assemble_envelope :
      (c : Contents) (mac_key encoded_key doors extensions header payload : Bytes)
      → AreContents c
      → supported c.kind ≡ true
      → encode_door_section (map record_of c.doors) ≡ ok doors
      → encode_extension_section c.extensions ≡ ok extensions
      → encode_header mac c.kind (core (header_of c [])) doors extensions mac_key encoded_key
        ≡ ok header
      → check_payload_length c.plaintext_size default_chunk_size (length payload) ≡ ok tt
      → let commitment = commitment_of c mac_key encoded_key in
        decode_envelope (assemble_envelope c.kind header payload)
        ≡ ok (record {
          header = header_of c commitment;
          body = body_of c;
          unknown_doors = unknown_doors c.doors;
          payload = payload;
        })
  unfolding encode_header
  decode_envelope-assemble_envelope c mac_key encoded_key doors extensions header payload fields
        known doors_are extensions_are made sized =
      let commitment = commitment_of c mac_key encoded_key in
      let (same, fits) = made_of c mac_key encoded_key header (
        ap
          (λ d.
            encode_header mac c.kind (core (header_of c [])) d (extension_section c.extensions)
              mac_key encoded_key)
          (door_section-bytes c.doors doors doors_are)
        ∙ ap (λ x. encode_header mac c.kind (core (header_of c [])) doors x mac_key encoded_key)
            (extension_section-bytes c.extensions extensions extensions_are)
        ∙ made) in
      let width = mac-width mac_key (header_transcript c.kind encoded_key (body_of c)) in
      let short : length (body_of c ++ commitment) ≤ max_header_length =
        omega (arith, fits, width, length-append (body_of c) commitment) in
      subst
        (λ h.
          decode_envelope (assemble_envelope c.kind h payload)
          ≡ ok (record {
            header = header_of c commitment;
            body = body_of c;
            unknown_doors = unknown_doors c.doors;
            payload = payload;
          }))
        same
        (preamble-read c.kind (body_of c ++ commitment) payload short
          ∙ opened c.kind (body_of c ++ commitment) payload (parsed_of c fields commitment width)
              known short (decode_header-body_of c fields commitment width) sized)
