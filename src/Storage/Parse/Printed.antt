-- ===== src/Storage/Parse/Printed.antt =====
-- internal/storage/key.go: the text of a key is parsed back to the key.
use slivingdoc.Base.{
  ℕ, ◌<◌, ◌≡◌, ◌^◌, refl, sym, ap, ◌∙◌, true, false, [], ◌∷◌, ◌++◌, nat_eq, bytes_eq, bytes_beq_iff,
  Bytes, codes, split, arith, some, ok, has_byte, length, length-append, bytes_beq,
}
use mathlib.Core.List.{append_assoc}
use slivingdoc.Storage.Key.{Uuid, UuidLibrary, Key, PackKind, decimal, key_text}
use slivingdoc.Storage.Parse.{
  cut_suffix, cut, kind_named, or_err, parse_uuid_v7, key_uuid, parse_segments, parse_three,
  key_of_parts, key_of_body, key_of_file, parse_key,
}
use slivingdoc.Storage.Parse.Canonical.{kind_text, key_text-split}
use slivingdoc.Storage.Parse.Decimal.{
  parse_generation-decimal, decimal-some, all_digits-decimal, digits_without,
}

-- The text of a version 7 id of the library: parsed back, and without a slash.
pub record IsUuidV7 (lib : UuidLibrary) (u : Uuid) : Type 0 where
  pub parsed : lib.parse (lib.text u) ≡ some u
  pub seventh : lib.version u ≡ 7
  pub variant : lib.variant_is_rfc4122 u ≡ true
  pub some_text : ¬ (lib.text u ≡ [])
  pub no_slash : has_byte b'/' (lib.text u) ≡ false

split-piece :
    (c : ℕ) (s rest : Bytes) → has_byte c s ≡ false → split c (s ++ (c ∷ rest)) ≡ s ∷ split c rest
unfolding split has_byte
split-piece c [] rest h = ground arith
split-piece c (x ∷ xs) rest h = ground (arith, split-piece c xs rest)

split-last : (c : ℕ) (s : Bytes) → has_byte c s ≡ false → split c s ≡ s ∷ []
unfolding split has_byte
split-last c [] h = refl
split-last c (x ∷ xs) h = ground (arith, split-last c xs)

has_byte-append :
    (c : ℕ) (s t : Bytes)
    → has_byte c s ≡ false
    → has_byte c t ≡ false
    → has_byte c (s ++ t) ≡ false
unfolding has_byte
has_byte-append c [] t h g = g
has_byte-append c (x ∷ xs) t h g = ground (arith, has_byte-append c xs t)

cut-at : (c : ℕ) (s rest : Bytes) → has_byte c s ≡ false → cut c (s ++ (c ∷ rest)) ≡ some (s, rest)
unfolding cut has_byte
cut-at c [] rest h = ground arith
cut-at c (x ∷ xs) rest h = ground (arith, cut-at c xs rest)

cut_suffix-whole : (suffix : Bytes) → cut_suffix suffix suffix ≡ some []
unfolding cut_suffix
cut_suffix-whole [] = ground (arith, bytes_beq_iff [] [])
cut_suffix-whole (x ∷ xs) = ground (arith, bytes_beq_iff (x ∷ xs) (x ∷ xs))

longer_differs : (x : ℕ) (xs suffix : Bytes) → ¬ (x ∷ (xs ++ suffix) ≡ suffix)
longer_differs x xs suffix p = omega (arith, length-append xs suffix, ap length p)

cut_suffix-append : (suffix s : Bytes) → cut_suffix suffix (s ++ suffix) ≡ some s
unfolding cut_suffix
cut_suffix-append suffix [] = cut_suffix-whole suffix
cut_suffix-append suffix (x ∷ xs) = ground (
  arith,
  bytes_beq_iff (x ∷ (xs ++ suffix)) suffix,
  longer_differs x xs suffix,
  cut_suffix-append suffix xs,
)

decimal_without : (c n : ℕ) → c < b'0' → has_byte c (decimal n) ≡ false
decimal_without c n small = digits_without c (decimal n) small (all_digits-decimal n)

kind_named-kind_text : (kind : PackKind) → kind_named (kind_text kind) ≡ some kind
unfolding kind_named kind_text bytes_beq
kind_named-kind_text PackKind.checkpoint = refl
kind_named-kind_text PackKind.increment = refl

module _ (lib : UuidLibrary) where
  pub parse_uuid_v7-text : (u : Uuid) → IsUuidV7 lib u → parse_uuid_v7 lib (lib.text u) ≡ ok u
  unfolding parse_uuid_v7 or_err
  parse_uuid_v7-text u h =
      ground (arith, h.parsed, h.seventh, h.variant, bytes_beq_iff (lib.text u) (lib.text u))

  key_of_parts-text :
      (kind : PackKind) (n : ℕ) (u : Uuid)
      → n < 2 ^ 64
      → IsUuidV7 lib u
      → key_of_parts lib kind (decimal n, lib.text u)
        ≡ ok (record { kind = kind; generation = n; id = u })
  unfolding key_of_parts key_uuid
  key_of_parts-text kind n u bound h = ground (
    arith,
    bytes_beq_iff (decimal n) [],
    bytes_beq_iff (lib.text u) [],
    decimal-some n,
    h.some_text,
    parse_generation-decimal n bound,
    parse_uuid_v7-text u h,
  )

  key_of_file-text :
      (kind : PackKind) (n : ℕ) (u : Uuid)
      → n < 2 ^ 64
      → IsUuidV7 lib u
      → key_of_file lib kind ((decimal n ++ (b'-' ∷ lib.text u)) ++ codes ".pack")
        ≡ ok (record { kind = kind; generation = n; id = u })
  unfolding key_of_file key_of_body or_err
  key_of_file-text kind n u bound h =
      let body : Bytes = decimal n ++ (b'-' ∷ lib.text u) in
      ground (
        arith,
        cut_suffix-append (codes ".pack") body,
        body_some,
        bytes_beq_iff body [],
        cut-at b'-' (decimal n) (lib.text u) (decimal_without b'-' n (omega arith)),
        key_of_parts-text kind n u bound h,
      )
    where
      body_some : ¬ (decimal n ++ (b'-' ∷ lib.text u) ≡ [])
      body_some p = omega (arith, length-append (decimal n) (b'-' ∷ lib.text u), ap length p)

  no_slash_file :
      (n : ℕ) (u : Uuid)
      → IsUuidV7 lib u
      → has_byte b'/' (decimal n ++ (b'-' ∷ (lib.text u ++ codes ".pack"))) ≡ false
  unfolding has_byte
  no_slash_file n u h =
      has_byte-append b'/' (decimal n) (b'-' ∷ (lib.text u ++ codes ".pack"))
        (decimal_without b'/' n (omega arith))
        (has_byte-append b'/' (lib.text u) (codes ".pack") h.no_slash refl)

  no_slash_kind : (kind : PackKind) → has_byte b'/' (kind_text kind) ≡ false
  unfolding kind_text has_byte
  no_slash_kind PackKind.checkpoint = refl
  no_slash_kind PackKind.increment = refl

  packs_no_slash : has_byte b'/' (codes "packs") ≡ false
  unfolding has_byte
  packs_no_slash = refl

  split-key_text :
      (k : Key)
      → IsUuidV7 lib k.id
      → split b'/' (key_text lib k)
        ≡ codes "packs"
          ∷ kind_text k.kind
          ∷ (decimal k.generation ++ (b'-' ∷ (lib.text k.id ++ codes ".pack")))
          ∷ []
  split-key_text k h =
      let file : Bytes = decimal k.generation ++ (b'-' ∷ (lib.text k.id ++ codes ".pack")) in
      ap (split b'/') (sym (key_text-split lib k))
      ∙ split-piece b'/' (codes "packs") (kind_text k.kind ++ (b'/' ∷ file)) packs_no_slash
      ∙ ap (λ rest. codes "packs" ∷ rest)
          (split-piece b'/' (kind_text k.kind) file (no_slash_kind k.kind)
            ∙ ap (λ rest. kind_text k.kind ∷ rest)
                (split-last b'/' file (no_slash_file k.generation k.id h)))

  -- The canonical text of a key is parsed back to the key, for a `uint64` generation and an id that
  -- the id library prints and parses as a version 7 id, without a slash in its text.
  pub parse_key-key_text :
      (k : Key) → k.generation < 2 ^ 64 → IsUuidV7 lib k.id → parse_key lib (key_text lib k) ≡ ok k
  unfolding parse_key parse_segments or_err
  parse_key-key_text k bound h =
      let file : Bytes = decimal k.generation ++ (b'-' ∷ (lib.text k.id ++ codes ".pack")) in
      ap (parse_three lib) (split-key_text k h)
      ∙ ground (
        arith,
        bytes_beq_iff (codes "packs") (codes "packs"),
        kind_named-kind_text k.kind,
        append_assoc (decimal k.generation) (b'-' ∷ lib.text k.id) (codes ".pack"),
        key_of_file-text k.kind k.generation k.id bound h,
      )
