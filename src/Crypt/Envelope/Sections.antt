-- ===== src/Crypt/Envelope/Sections.antt =====
-- The sections of doors and of extensions of internal/crypt/envelope.go are read back.
use mathlib.Core.List.{append_assoc, append-nil}
use slivingdoc.Base.{
  ℕ, ◌+◌, ◌-◌, ◌<◌, ◌≡◌, refl, sym, ap, ◌∙◌, arith, true, false, List, [], ◌∷◌, ◌++◌, map, nat_eq,
  Bytes, length, length-append, take, contains, Result, ok, ◌>>=◌, All,
}
use slivingdoc.Crypt.Wire.{big_endian, read_u8}
use slivingdoc.Crypt.Wire.Reads.{at, take-append, read_take-append, read_number-append}
use slivingdoc.Crypt.Door.{
  CryptError, Door, door_record, is_door, kdf_argon2id, encode_door_body, decode_door_body,
}
use slivingdoc.Crypt.Door.RoundTrip.{IsDoor, decode_door_body-encode, length-encode_door_body}
use slivingdoc.Crypt.Envelope.{
  DoorState, keep_door, with_body, with_length, decode_door, decode_doors, Extension,
  ExtensionState, keep_extension, with_size, with_type, decode_extension, decode_extensions, joined,
  extension_record,
}

-- A record of the section of doors: a door, or a record of another type.
pub data WireDoor : Type 0 where
  known_door : Door → WireDoor
  opaque_door : ℕ → ℕ → Bytes → WireDoor

abbrev pub record_of : WireDoor → Bytes
record_of (known_door d) = door_record d.kind d.kdf_id (encode_door_body d)
record_of (opaque_door kind kdf_id body) = door_record kind kdf_id body

-- What the encoder accepts of a door, and what makes another record opaque.
abbrev pub IsWire : WireDoor → Type 0
IsWire (known_door d) = IsDoor d × (is_door d.kind ≡ true) × (d.kdf_id ≡ kdf_argon2id)
IsWire (opaque_door kind kdf_id body) = (is_door kind ≡ false) × (length body < 65536)

abbrev pub known_doors : List WireDoor → List Door
known_doors [] = []
known_doors (known_door d ∷ ws) = d ∷ known_doors ws
known_doors (opaque_door _ _ _ ∷ ws) = known_doors ws

abbrev pub unknown_doors : List WireDoor → List Bytes
unknown_doors [] = []
unknown_doors (known_door d ∷ ws) = unknown_doors ws
unknown_doors (opaque_door kind kdf_id body ∷ ws) = door_record kind kdf_id body ∷ unknown_doors ws

abbrev doors_at : Bytes → ℕ → List Door → List Bytes → DoorState
doors_at rest off known unknown = record { reader = at rest off; known = known; unknown = unknown }

abbrev read_doors : DoorState → Result CryptError DoorState
read_doors s = ok s

-- The head of a record, whatever its type.
decode_door-head :
    (kind kdf_id : ℕ) (body rest : Bytes) (off : ℕ) (known : List Door) (unknown : List Bytes)
    → length body < 65536
    → decode_door (doors_at (door_record kind kdf_id body ++ rest) off known unknown)
      ≡ keep_door
          (doors_at (door_record kind kdf_id body ++ rest) off known unknown)
          kind
          kdf_id
          body
          (at rest (off + 1 + 1 + 2 + length body))
unfolding decode_door read_u8
decode_door-head kind kdf_id body rest off known unknown h =
    let s = doors_at (door_record kind kdf_id body ++ rest) off known unknown in
    ap (with_length s kind kdf_id)
      (read_number-append 2 (length body) (body ++ rest) (off + 1 + 1) h)
    ∙ ap (with_body s kind kdf_id) (read_take-append body rest (off + 1 + 1 + 2) (length body) refl)

decode_door-known :
    (d : Door) (rest : Bytes) (off : ℕ) (known : List Door) (unknown : List Bytes)
    → IsWire (known_door d)
    → decode_door (doors_at (record_of (known_door d) ++ rest) off known unknown)
      ≡ ok (doors_at rest (off + length (record_of (known_door d))) (known ++ (d ∷ [])) unknown)
decode_door-known d rest off known unknown (fits, is_known, argon) =
    let size = length-encode_door_body d fits in
    decode_door-head d.kind d.kdf_id (encode_door_body d) rest off known unknown
      (omega (arith, size))
    ∙ kept size (decode_door_body-encode d fits)
  where
    kept :
        length (encode_door_body d) ≡ 97
        → decode_door_body d.kind d.kdf_id (encode_door_body d) ≡ d
        → keep_door
            (doors_at (record_of (known_door d) ++ rest) off known unknown)
            d.kind
            d.kdf_id
            (encode_door_body d)
            (at rest (off + 1 + 1 + 2 + length (encode_door_body d)))
          ≡ ok (doors_at rest (off + length (record_of (known_door d))) (known ++ (d ∷ [])) unknown)
    kept size back = ground (arith, is_known, argon, size, back)

decode_door-opaque :
    (kind kdf_id : ℕ) (body rest : Bytes) (off : ℕ) (known : List Door) (unknown : List Bytes)
    → IsWire (opaque_door kind kdf_id body)
    → decode_door (doors_at (door_record kind kdf_id body ++ rest) off known unknown)
      ≡ ok (
          doors_at rest
            (off + length (door_record kind kdf_id body))
            known
            (unknown ++ (door_record kind kdf_id body ∷ [])))
decode_door-opaque kind kdf_id body rest off known unknown (is_opaque, short) =
    decode_door-head kind kdf_id body rest off known unknown short ∙ kept
  where
    width : off + 1 + 1 + 2 + length body - off ≡ length (door_record kind kdf_id body)
    width = omega arith

    whole :
        take (off + 1 + 1 + 2 + length body - off) (door_record kind kdf_id body ++ rest)
        ≡ door_record kind kdf_id body
    whole =
        ap (λ n. take n (door_record kind kdf_id body ++ rest)) width
        ∙ take-append (door_record kind kdf_id body) rest

    kept :
        keep_door
          (doors_at (door_record kind kdf_id body ++ rest) off known unknown)
          kind
          kdf_id
          body
          (at rest (off + 1 + 1 + 2 + length body))
        ≡ ok (
            doors_at rest
              (off + length (door_record kind kdf_id body))
              known
              (unknown ++ (door_record kind kdf_id body ∷ [])))
    kept = ground (arith, is_opaque, whole)

same_doors :
    (rest : Bytes) (a b : ℕ) (k l : List Door) (u v : List Bytes)
    → a ≡ b
    → k ≡ l
    → u ≡ v
    → read_doors (doors_at rest a k u) ≡ ok (doors_at rest b l v)
same_doors rest a b k l u v p q r = ground (arith, p, q, r)

-- The loop over the doors reads the records in order, and sorts them.
pub decode_doors-records :
    (ws : List WireDoor) (rest : Bytes) (off : ℕ) (known : List Door) (unknown : List Bytes)
    → All IsWire ws
    → decode_doors (length ws) (doors_at (joined (map record_of ws) ++ rest) off known unknown)
      ≡ ok (
          doors_at rest
            (off + length (joined (map record_of ws)))
            (known ++ known_doors ws)
            (unknown ++ unknown_doors ws))
unfolding decode_doors
decode_doors-records [] rest off known unknown h =
    same_doors rest off (off + 0) known (known ++ []) unknown (unknown ++ []) (omega arith)
      (sym (append-nil known)) (sym (append-nil unknown))
decode_doors-records (known_door d ∷ ws) rest off known unknown (h, hs) =
    let more = joined (map record_of ws) in
    let read = record_of (known_door d) in
    ap (λ b. decode_door (doors_at b off known unknown) >>= decode_doors (length ws))
      (append_assoc read more rest)
    ∙ ap (λ r. r >>= decode_doors (length ws))
        (decode_door-known d (more ++ rest) off known unknown h)
    ∙ decode_doors-records ws rest (off + length read) (known ++ (d ∷ [])) unknown hs
    ∙ same_doors rest (off + length read + length more) (off + length (read ++ more)) _ _ _ _
        (omega (arith, length-append read more)) (append_assoc known (d ∷ []) (known_doors ws)) refl
decode_doors-records (opaque_door kind kdf_id body ∷ ws) rest off known unknown (h, hs) =
    let more = joined (map record_of ws) in
    let read = record_of (opaque_door kind kdf_id body) in
    ap (λ b. decode_door (doors_at b off known unknown) >>= decode_doors (length ws))
      (append_assoc read more rest)
    ∙ ap (λ r. r >>= decode_doors (length ws))
        (decode_door-opaque kind kdf_id body (more ++ rest) off known unknown h)
    ∙ decode_doors-records ws rest (off + length read) known
        (unknown ++ (door_record kind kdf_id body ∷ [])) hs
    ∙ same_doors rest (off + length read + length more) (off + length (read ++ more)) _ _ _ _
        (omega (arith, length-append read more)) refl
        (append_assoc unknown (door_record kind kdf_id body ∷ []) (unknown_doors ws))

abbrev extensions_at : Bytes → ℕ → List ℕ → List Extension → ExtensionState
extensions_at rest off seen found = record { reader = at rest off; seen = seen; extensions = found }

-- What the Go types ensure of an extension, with the bound that the encoder tests.
pub record IsExtension (e : Extension) : Type 0 where
  pub kind_fits : e.kind < 65536
  pub value_fits : length e.value < 65536

-- The types of the extensions differ, and none of them was seen.
abbrev pub AreNew : List ℕ → List Extension → Type 0
AreNew seen [] = Unit {0}
AreNew seen (e ∷ es) = (contains seen e.kind ≡ false) × AreNew (e.kind ∷ seen) es

decode_extension-record :
    (e : Extension) (rest : Bytes) (off : ℕ) (seen : List ℕ) (found : List Extension)
    → IsExtension e
    → contains seen e.kind ≡ false
    → decode_extension (extensions_at (extension_record e ++ rest) off seen found)
      ≡ ok (
          extensions_at rest
            (off + length (extension_record e))
            (e.kind ∷ seen)
            (found ++ (e ∷ [])))
unfolding decode_extension
decode_extension-record e rest off seen found h new =
    let s = extensions_at (extension_record e ++ rest) off seen found in
    ap (with_type s) (
      read_number-append 2 e.kind (big_endian 2 (length e.value) ++ (e.value ++ rest)) off
        h.kind_fits)
    ∙ ap (with_size s e.kind)
        (read_number-append 2 (length e.value) (e.value ++ rest) (off + 2) h.value_fits)
    ∙ ap (keep_extension s e.kind)
        (read_take-append e.value rest (off + 2 + 2) (length e.value) refl)
    ∙ kept
  where
    kept :
        keep_extension
          (extensions_at (extension_record e ++ rest) off seen found)
          e.kind
          (e.value, at rest (off + 2 + 2 + length e.value))
        ≡ ok (
            extensions_at rest
              (off + length (extension_record e))
              (e.kind ∷ seen)
              (found ++ (e ∷ [])))
    kept = ground (arith, new)

-- The types that were seen after a list of extensions.
abbrev pub seen_after : List ℕ → List Extension → List ℕ
seen_after seen [] = seen
seen_after seen (e ∷ es) = seen_after (e.kind ∷ seen) es

abbrev pub extension_bytes : List Extension → Bytes
extension_bytes es = joined (map extension_record es)

abbrev read_extensions : ExtensionState → Result CryptError ExtensionState
read_extensions s = ok s

same_extensions :
    (rest : Bytes) (a b : ℕ) (seen : List ℕ) (k l : List Extension)
    → a ≡ b
    → k ≡ l
    → read_extensions (extensions_at rest a seen k) ≡ ok (extensions_at rest b seen l)
same_extensions rest a b seen k l p q = ground (arith, p, q)

-- The loop over the extensions reads them in order.
pub decode_extensions-records :
    (es : List Extension) (rest : Bytes) (off : ℕ) (seen : List ℕ) (found : List Extension)
    → All IsExtension es
    → AreNew seen es
    → decode_extensions (length es) (extensions_at (extension_bytes es ++ rest) off seen found)
      ≡ ok (
          extensions_at rest (off + length (extension_bytes es)) (seen_after seen es) (found ++ es))
unfolding decode_extensions
decode_extensions-records [] rest off seen found h new =
    same_extensions rest off (off + 0) seen found (found ++ []) (omega arith)
      (sym (append-nil found))
decode_extensions-records (e ∷ es) rest off seen found (h, hs) (new, news) =
    let more = extension_bytes es in
    let read = extension_record e in
    ap (λ b. decode_extension (extensions_at b off seen found) >>= decode_extensions (length es))
      (append_assoc read more rest)
    ∙ ap (λ r. r >>= decode_extensions (length es))
        (decode_extension-record e (more ++ rest) off seen found h new)
    ∙ decode_extensions-records es rest (off + length read) (e.kind ∷ seen) (found ++ (e ∷ [])) hs
        news
    ∙ same_extensions rest (off + length read + length more) (off + length (read ++ more)) _ _ _
        (omega (arith, length-append read more)) (append_assoc found (e ∷ []) es)
