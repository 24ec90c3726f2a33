-- ===== src/Storage/Key.antt =====
-- internal/storage/key.go, internal/storage/uuid.go: protocol object keys and the ids in them.
-- The text form of an id is that of the library github.com/google/uuid, a parameter.
use slivingdoc.Base.{
  ℕ, zero, suc, ◌+◌, ◌/◌, ◌%◌, ◌≡◌, Bool, true, false, Option, [], ◌∷◌, ◌++◌, ltb, nat_eq, bytes_eq,
  Bytes, codes, if◌then◌else◌, Eq, ◌↔◌, arith,
}

-- `[16]byte`, by its bytes.
abbrev pub Uuid : Type 0
Uuid = Bytes

-- The functions of github.com/google/uuid that the program calls.
pub record UuidLibrary : Type 0 where
  pub parse : Bytes → Option Uuid
  pub version : Uuid → ℕ
  pub variant_is_rfc4122 : Uuid → Bool
  pub text : Uuid → Bytes

pub data PackKind : Type 0 where
  checkpoint increment : PackKind

pub record Key : Type 0 where
  pub kind : PackKind
  pub generation : ℕ
  pub id : Uuid

abbrev pub kind_beq : PackKind → PackKind → Bool
kind_beq checkpoint checkpoint = true
kind_beq increment increment = true
kind_beq _ _ = false

pub kind_beq_iff : (a b : PackKind) → (kind_beq a b ≡ true) ↔ (a ≡ b)
kind_beq_iff a b = (λ h. ground arith, λ h. ground arith)

instance abbrev pub kind_eq : Eq PackKind
kind_eq = record { equal = kind_beq; equal_iff = kind_beq_iff }

-- `strconv.FormatUint(n, 10)`: the digits of `n`, the last one first, on fuel.
unfoldable pub decimal_from : ℕ → ℕ → Bytes → Bytes
decimal_from zero n acc = acc
decimal_from (suc fuel) n acc =
    let rest = decimal_from fuel (n / 10) ((b'0' + n % 10) ∷ acc) in
    if ltb n 10 then (b'0' + n) ∷ acc else rest

-- A `uint64` has at most 20 digits.
unfoldable pub decimal : ℕ → Bytes
unfolding decimal_from
decimal n = decimal_from 20 n []

module _ (lib : UuidLibrary) where
  -- `Key.String`; `PackKind` has the two protocol kinds only.
  unfoldable pub key_text : Key → Bytes
  key_text k = elim k.kind [
    | checkpoint ↦
        codes "packs/checkpoints/"
        ++ (decimal k.generation ++ (b'-' ∷ lib.text k.id ++ codes ".pack"))
    | increment ↦
        codes "packs/increments/"
        ++ (decimal k.generation ++ (b'-' ∷ lib.text k.id ++ codes ".pack"))
  ]
