-- ===== src/Storage/Parse/Canonical.antt =====
-- What the parsers of internal/storage/key.go, uuid.go and internal/git/oid.go accept.
use slivingdoc.Base.{
  inl, inr, ℕ, ◌+◌, ◌*◌, ◌/◌, ◌%◌, ◌<◌, ◌≡◌, refl, sym, ap, List, [], ◌∷◌, ◌++◌, ◌==◌, nat_eq,
  bytes_eq, bytes_beq_iff, Bytes, codes, split, onto_first, All, arith, Option, none, some, Result,
  ok, ◌>>=◌, require-ok, ◌∙◌, eq_decided,
}
use mathlib.Core.List.{append_assoc}
use slivingdoc.Storage.Key.{Uuid, UuidLibrary, Key, PackKind, decimal, key_text}
use slivingdoc.Storage.Parse.{
  ParseError, nibble, join_nibbles, parse_hex, hex_digit, hex_text, cut_suffix, cut, kind_named,
  or_err, parse_uuid_v7, parse_generation, key_uuid, parse_segments, parse_three, key_of_parts,
  key_of_body, key_of_file, parse_key,
}

nibble-hex_digit : (n : ℕ) → n < 16 → nibble (hex_digit n) ≡ some n
unfolding hex_digit
nibble-hex_digit n h = ground arith

hex_digit-nibble : (c n : ℕ) → nibble c ≡ some n → (hex_digit n ≡ c) × (n < 16)
unfolding hex_digit
hex_digit-nibble c n h = ground arith

-- A byte string has one canonical hexadecimal text, and `parse_hex` reads it back.
pub parse_hex-hex_text :
    (bytes : Bytes) → All (λ x. x < 256) bytes → parse_hex (hex_text bytes) ≡ some bytes
unfolding parse_hex hex_text
parse_hex-hex_text [] h = refl
parse_hex-hex_text (x ∷ xs) h =
    rw (nibble-hex_digit (x / 16) (omega (arith, h.0))) rw (nibble-hex_digit (x % 16) (omega arith))
      rw (parse_hex-hex_text xs h.1) (ap (λ t. some (t ∷ xs)) (omega arith))

join_nibbles-some :
    (a b : Option ℕ) (rest : Option Bytes) (bytes : Bytes)
    → join_nibbles a b rest ≡ some bytes
    → (high low : ℕ) × (tail : Bytes) × (a ≡ some high)
      × (b ≡ some low)
      × (rest ≡ some tail)
      × (bytes ≡ (high * 16 + low) ∷ tail)
join_nibbles-some (some high) (some low) (some tail) bytes h =
    (high, low, tail, refl, refl, refl, cc)
join_nibbles-some none b rest bytes h = absurd (ground arith)
join_nibbles-some (some high) none rest bytes h = absurd (ground arith)
join_nibbles-some (some high) (some low) none bytes h = absurd (ground arith)

-- A text that `parse_hex` reads is the canonical text of the bytes it returns.
pub hex_text-parse_hex : (s bytes : Bytes) → parse_hex s ≡ some bytes → hex_text bytes ≡ s
unfolding parse_hex hex_text
hex_text-parse_hex [] bytes h = ground arith
hex_text-parse_hex (c ∷ []) bytes h = absurd (ground arith)
hex_text-parse_hex (c ∷ d ∷ cs) bytes h =
    let (high, low, tail, a, b, r, e) =
      join_nibbles-some (nibble c) (nibble d) (parse_hex cs) bytes h in
    let (high_text, high_bound) = hex_digit-nibble c high a in
    let (low_text, low_bound) = hex_digit-nibble d low b in
    rw e rw (two_digits high low low_bound) rw (low_digit high low low_bound) rw
      (high_text, low_text) (ap (λ t. c ∷ d ∷ t) (hex_text-parse_hex cs tail r))
  where
    two_digits : (high low : ℕ) → low < 16 → ((high * 16 + low) / 16 ≡ high)
    two_digits high low bound = omega arith

    low_digit : (high low : ℕ) → low < 16 → ((high * 16 + low) % 16 ≡ low)
    low_digit high low bound = omega arith

join : ℕ → List Bytes → Bytes
join c [] = []
join c (s ∷ []) = s
join c (s ∷ t ∷ ts) = s ++ (c ∷ join c (t ∷ ts))

join-onto_first : (c x : ℕ) (ss : List Bytes) → join c (onto_first x ss) ≡ x ∷ join c ss
unfolding join
join-onto_first c x [] = refl
join-onto_first c x (s ∷ []) = refl
join-onto_first c x (s ∷ t ∷ ts) = refl

split-some : (c : ℕ) (xs : Bytes) → ¬ (split c xs ≡ [])
unfolding split
split-some c [] p = ground arith
split-some c (x ∷ xs) p = ground (arith, onto_some (split c xs))
  where
    onto_some : (ss : List Bytes) → ¬ (onto_first x ss ≡ [])
    onto_some [] q = ground arith
    onto_some (s ∷ ss) q = ground arith

join-empty_first : (c : ℕ) (ss : List Bytes) → ¬ (ss ≡ []) → join c ([] ∷ ss) ≡ c ∷ join c ss
unfolding join
join-empty_first c [] h = absurd (h refl)
join-empty_first c (s ∷ ss) h = refl

join-split : (c : ℕ) (xs : Bytes) → join c (split c xs) ≡ xs
unfolding join split
join-split c [] = refl
join-split c (x ∷ xs) = elim (eq_decided x c) [
  | inl same ↦ ground (arith, join-empty_first c (split c xs) (split-some c xs), join-split c xs)
  | inr differ ↦ ground (arith, join-onto_first c x (split c xs), join-split c xs)
]

cut_suffix-some : (suffix s body : Bytes) → cut_suffix suffix s ≡ some body → s ≡ body ++ suffix
unfolding cut_suffix
cut_suffix-some suffix [] body h = ground (arith, bytes_beq_iff [] suffix)
cut_suffix-some suffix (x ∷ xs) body h = elim (eq_decided (x ∷ xs) suffix) [
  | inl same ↦ ground (arith, bytes_beq_iff (x ∷ xs) suffix)
  | inr differ ↦
      longer (cut_suffix suffix xs) (λ body'. cut_suffix-some suffix xs body')
        (ground (arith, bytes_beq_iff (x ∷ xs) suffix))
]
  where
    longer :
        (rest : Option Bytes)
        → ((body' : Bytes) → rest ≡ some body' → xs ≡ body' ++ suffix)
        → elim rest [ some body' ↦ some (x ∷ body') | none ↦ none ] ≡ some body
        → x ∷ xs ≡ body ++ suffix
    longer (some body') rec q = ground (arith, rec body' refl)
    longer none rec q = absurd (ground arith)

cut-some : (c : ℕ) (s : Bytes) (lr : Bytes × Bytes) → cut c s ≡ some lr → s ≡ lr.0 ++ (c ∷ lr.1)
unfolding cut
cut-some c [] lr h = absurd (ground arith)
cut-some c (x ∷ xs) lr h = elim (eq_decided x c) [
  | inl same ↦ at_head (ground arith) same
  | inr differ ↦ longer (cut c xs) (cut-some c xs) (ground arith)
]
  where
    head_cut : Option (Bytes × Bytes)
    head_cut = some ([], xs)

    at_head : head_cut ≡ some lr → x ≡ c → x ∷ xs ≡ lr.0 ++ (c ∷ lr.1)
    at_head q same = ground arith

    onto : Option (Bytes × Bytes) → Option (Bytes × Bytes)
    onto (some (l, r)) = some (x ∷ l, r)
    onto none = none

    longer :
        (rest : Option (Bytes × Bytes))
        → ((lr' : Bytes × Bytes) → rest ≡ some lr' → xs ≡ lr'.0 ++ (c ∷ lr'.1))
        → onto rest ≡ some lr
        → x ∷ xs ≡ lr.0 ++ (c ∷ lr.1)
    longer (some lr') rec q = ground (arith, rec lr' refl)
    longer none rec q = absurd (ground arith)

or_err-ok :
    {A B : Type 0} (e : ParseError) (o : Option A) (f : A → Result ParseError B) {b : B}
    → (or_err e o >>= f) ≡ ok b
    → (a : A) × (o ≡ some a) × (f a ≡ ok b)
unfolding or_err
or_err-ok e (some a) f h = (a, refl, h)
or_err-ok e none f h = cc

parse_generation-ok : (s : Bytes) (n : ℕ) → parse_generation s ≡ ok n → s ≡ decimal n
unfolding parse_generation or_err
parse_generation-ok s n h = ground (arith, bytes_beq_iff s (decimal n))

-- The name of a kind's folder.
unfoldable pub kind_text : PackKind → Bytes
kind_text PackKind.checkpoint = codes "checkpoints"
kind_text PackKind.increment = codes "increments"

module _ (lib : UuidLibrary) where
  key_uuid-ok : (s : Bytes) (u : Uuid) → key_uuid lib s ≡ ok u → lib.text u ≡ s
  unfolding key_uuid parse_uuid_v7 or_err
  key_uuid-ok s u h = ground (arith, bytes_beq_iff (lib.text u) s)

  key_of_parts-ok :
      (kind : PackKind) (parts : Bytes × Bytes) (k : Key)
      → key_of_parts lib kind parts ≡ ok k
      → (k.kind ≡ kind) × (parts.0 ≡ decimal k.generation) × (parts.1 ≡ lib.text k.id)
  unfolding key_of_parts
  key_of_parts-ok kind parts k h =
      ground (arith, parse_generation-ok parts.0 k.generation, key_uuid-ok parts.1 k.id)

  key_of_file-ok :
      (kind : PackKind) (file : Bytes) (k : Key)
      → key_of_file lib kind file ≡ ok k
      → (k.kind ≡ kind) × (file ≡ (decimal k.generation ++ (b'-' ∷ lib.text k.id)) ++ codes ".pack")
  unfolding key_of_file key_of_body
  key_of_file-ok kind file k h =
      let (body, found, h1) =
        or_err-ok ParseError.invalid_key (cut_suffix (codes ".pack") file) (key_of_body lib kind)
          h in
      let (parts, halves, h2) =
        or_err-ok ParseError.invalid_key (cut b'-' body) (key_of_parts lib kind) (ground arith) in
      let (kinds, gen, id) = key_of_parts-ok kind parts k h2 in
      (
        kinds,
        cut_suffix-some (codes ".pack") file body found
            ∙ ap (λ t. t ++ codes ".pack") (cut-some b'-' body parts halves ∙ rw (gen, id) refl),
      )

  kind_named-some : (s : Bytes) (kind : PackKind) → kind_named s ≡ some kind → s ≡ kind_text kind
  unfolding kind_named kind_text
  kind_named-some s kind h =
      ground (arith, bytes_beq_iff s (codes "checkpoints"), bytes_beq_iff s (codes "increments"))

  by_kind :
      (kind : PackKind) (generation : ℕ) (id : Uuid)
      → codes "packs"
          ++ (b'/'
              ∷ (kind_text kind
                  ++ (b'/' ∷ (decimal generation ++ (b'-' ∷ (lib.text id ++ codes ".pack"))))))
        ≡ key_text lib (record { kind = kind; generation = generation; id = id })
  unfolding kind_text key_text
  by_kind PackKind.checkpoint generation id = refl
  by_kind PackKind.increment generation id = refl

  pub key_text-split :
      (k : Key)
      → codes "packs"
          ++ (b'/'
              ∷ (kind_text k.kind
                  ++ (b'/' ∷ (decimal k.generation ++ (b'-' ∷ (lib.text k.id ++ codes ".pack"))))))
        ≡ key_text lib k
  key_text-split k = by_kind k.kind k.generation k.id

  parse_segments-ok :
      (namespace kind_name file : Bytes) (k : Key)
      → parse_segments lib namespace kind_name file ≡ ok k
      → namespace ++ (b'/' ∷ (kind_name ++ (b'/' ∷ file))) ≡ key_text lib k
  unfolding parse_segments
  parse_segments-ok namespace kind_name file k h =
      let (packs, h1) =
        require-ok (namespace == codes "packs") ParseError.invalid_key
          (or_err ParseError.invalid_key (kind_named kind_name) >>= key_of) h in
      let (kind, named, h2) = or_err-ok ParseError.invalid_key (kind_named kind_name) key_of h1 in
      let (kinds, text) = key_of_file-ok kind file k h2 in
      segments_text ((bytes_beq_iff namespace (codes "packs")).0 packs)
        (kind_named-some kind_name kind named ∙ ap kind_text (sym kinds))
        (text ∙ append_assoc (decimal k.generation) (b'-' ∷ lib.text k.id) (codes ".pack"))
    where
      key_of : PackKind → Result ParseError Key
      key_of kind = key_of_file lib kind file

      segments_text :
          namespace ≡ codes "packs"
          → kind_name ≡ kind_text k.kind
          → file ≡ decimal k.generation ++ (b'-' ∷ (lib.text k.id ++ codes ".pack"))
          → namespace ++ (b'/' ∷ (kind_name ++ (b'/' ∷ file))) ≡ key_text lib k
      segments_text a b c = rw (a, b, c) (key_text-split k)

  three-join :
      (segments : List Bytes) (k : Key)
      → parse_three lib segments ≡ ok k
      → join b'/' segments ≡ key_text lib k
  unfolding join
  three-join [] k h = absurd (ground arith)
  three-join (a ∷ []) k h = absurd (ground arith)
  three-join (a ∷ b ∷ []) k h = absurd (ground arith)
  three-join (a ∷ b ∷ c ∷ []) k h = parse_segments-ok a b c k h
  three-join (a ∷ b ∷ c ∷ d ∷ ds) k h = absurd (ground arith)

  -- Whatever the id library does: a text that `parse_key` accepts is the canonical text of the key
  -- it returns, so no two texts parse to one key.
  pub key_text-parse_key : (s : Bytes) (k : Key) → parse_key lib s ≡ ok k → key_text lib k ≡ s
  unfolding parse_key
  key_text-parse_key s k h = sym (three-join (split b'/' s) k h) ∙ join-split b'/' s
