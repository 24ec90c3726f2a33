-- ===== src/Storage/Parse.antt =====
-- internal/storage/key.go, uuid.go, sha256.go and internal/git/oid.go: the texts of keys, ids and
-- digests, parsed.
pub mod Canonical
pub mod Decimal
pub mod Printed
use slivingdoc.Base.{
  ℕ, ◌+◌, ◌-◌, ◌*◌, ◌/◌, ◌%◌, ◌^◌, Bool, true, false, not, ◌&&◌, List, [], ◌∷◌, ◌==◌, leb, ltb,
  nat_eq, bytes_eq, Bytes, codes, if◌then◌else◌, split, length, Option, none, some, Result, ok, err,
  ◌>>=◌, ◌>>◌, require,
}
use slivingdoc.Storage.Key.{Uuid, UuidLibrary, Key, PackKind, decimal}
use slivingdoc.Storage.Manifest.{Oid, Sha256}

-- `ErrInvalidUUID`, `ErrInvalidOID`, `ErrInvalidSHA256` and `ErrInvalidKey`.
pub data ParseError : Type 0 where
  invalid_uuid : ParseError
  invalid_oid : ParseError
  invalid_sha256 : ParseError
  invalid_key : ParseError

-- The `switch` on a character in `ParseOID` and `ParseSHA256`.
abbrev pub nibble : ℕ → Option ℕ
nibble c =
    if leb b'0' c && leb c b'9'
    then some (c - b'0')
    else if leb b'a' c && leb c b'f'
    then some (c - b'a' + 10)
    else none

abbrev pub join_nibbles : Option ℕ → Option ℕ → Option Bytes → Option Bytes
join_nibbles (some high) (some low) (some rest) = some ((high * 16 + low) ∷ rest)
join_nibbles _ _ _ = none

-- The loop over a text of even length, two rounds at once: the high half of a byte, and the low.
unfoldable pub parse_hex : Bytes → Option Bytes
parse_hex [] = some []
parse_hex (c ∷ []) = none
parse_hex (c ∷ d ∷ cs) = join_nibbles (nibble c) (nibble d) (parse_hex cs)

abbrev pub hex_digits : ℕ → ParseError → Bytes → Result ParseError Bytes
hex_digits width e s = do
  require (length s == width) e
  elim (parse_hex s) [ some bytes ↦ ok bytes | none ↦ err e ]

unfoldable pub hex_digit : ℕ → ℕ
hex_digit n = if ltb n 10 then b'0' + n else b'a' + (n - 10)

-- `hex.Encode`, the text of an object id and of a digest.
unfoldable pub hex_text : Bytes → Bytes
hex_text [] = []
hex_text (x ∷ xs) = hex_digit (x / 16) ∷ hex_digit (x % 16) ∷ hex_text xs

unfoldable pub parse_oid : Bytes → Result ParseError Oid
parse_oid = hex_digits 40 ParseError.invalid_oid

unfoldable pub parse_sha256 : Bytes → Result ParseError Sha256
parse_sha256 = hex_digits 64 ParseError.invalid_sha256

-- `strings.CutSuffix`
unfoldable pub cut_suffix : Bytes → Bytes → Option Bytes
cut_suffix suffix [] = if [] == suffix then some [] else none
cut_suffix suffix (x ∷ xs) =
    let rest = cut_suffix suffix xs in
    if (x ∷ xs) == suffix then some [] else elim rest [ some body ↦ some (x ∷ body) | none ↦ none ]

-- `strings.Cut` by one byte
unfoldable pub cut : ℕ → Bytes → Option (Bytes × Bytes)
cut c [] = none
cut c (x ∷ xs) =
    let rest = cut c xs in
    if x == c then some ([], xs) else elim rest [ some (l, r) ↦ some (x ∷ l, r) | none ↦ none ]

unfoldable pub all_digits : Bytes → Bool
all_digits [] = true
all_digits (c ∷ cs) = (leb b'0' c && leb c b'9') && all_digits cs

unfoldable pub digits_value : ℕ → Bytes → ℕ
digits_value acc [] = acc
digits_value acc (c ∷ cs) = digits_value (acc * 10 + (c - b'0')) cs

-- `strconv.ParseUint(s, 10, 64)`
unfoldable pub parse_uint : Bytes → Option ℕ
parse_uint s =
    if not (s == []) && (all_digits s && ltb (digits_value 0 s) (2 ^ 64))
    then some (digits_value 0 s)
    else none

unfoldable pub or_err : {A : Type 0} → ParseError → Option A → Result ParseError A
or_err e (some a) = ok a
or_err e none = err e

-- The map of `ParseKey`.
unfoldable pub kind_named : Bytes → Option PackKind
kind_named s =
    if s == codes "checkpoints"
    then some PackKind.checkpoint
    else if s == codes "increments"
    then some PackKind.increment
    else none

unfoldable pub parse_generation : Bytes → Result ParseError ℕ
parse_generation s = do
  require (all_digits s) ParseError.invalid_key
  gen ← or_err ParseError.invalid_key (parse_uint s)
  require (s == decimal gen) ParseError.invalid_key
  ok gen

module _ (lib : UuidLibrary) where
  unfoldable pub parse_uuid_v7 : Bytes → Result ParseError Uuid
  parse_uuid_v7 s = do
    u ← or_err ParseError.invalid_uuid (lib.parse s)
    require (lib.version u == 7) ParseError.invalid_uuid
    require (lib.variant_is_rfc4122 u) ParseError.invalid_uuid
    require (lib.text u == s) ParseError.invalid_uuid
    ok u

  unfoldable pub key_uuid : Bytes → Result ParseError Uuid
  key_uuid s = elim (parse_uuid_v7 s) [ ok u ↦ ok u | err _ ↦ err ParseError.invalid_key ]

  -- `ParseKey` from the test of `genStr` on.
  unfoldable pub key_of_parts : PackKind → Bytes × Bytes → Result ParseError Key
  key_of_parts kind (gen_text, id_text) = do
    require (not (gen_text == [])) ParseError.invalid_key
    require (not (id_text == [])) ParseError.invalid_key
    generation ← parse_generation gen_text
    id ← key_uuid id_text
    ok (record { kind = kind; generation = generation; id = id })

  unfoldable pub key_of_body : PackKind → Bytes → Result ParseError Key
  key_of_body kind body = do
    require (not (body == [])) ParseError.invalid_key
    parts ← or_err ParseError.invalid_key (cut b'-' body)
    key_of_parts kind parts

  unfoldable pub key_of_file : PackKind → Bytes → Result ParseError Key
  key_of_file kind file = do
    body ← or_err ParseError.invalid_key (cut_suffix (codes ".pack") file)
    key_of_body kind body

  -- `ParseKey` behind the test of the number of segments.
  unfoldable pub parse_segments : Bytes → Bytes → Bytes → Result ParseError Key
  parse_segments namespace kind_name file = do
    require (namespace == codes "packs") ParseError.invalid_key
    kind ← or_err ParseError.invalid_key (kind_named kind_name)
    key_of_file kind file

  abbrev pub parse_three : List Bytes → Result ParseError Key
  parse_three (a ∷ b ∷ c ∷ []) = parse_segments a b c
  parse_three _ = err ParseError.invalid_key

  unfoldable pub parse_key : Bytes → Result ParseError Key
  parse_key s = parse_three (split b'/' s)
