-- ===== src/Storage/Manifest/Types.antt =====
-- internal/storage/manifest.go: the record types of manifest version 1.
use slivingdoc.Base.{
  ℕ, ◌≡◌, Bool, true, ◌&&◌, List, ◌==◌, nat_eq, bytes_eq, Bytes, Eq, ◌↔◌, arith, bytes_beq_iff,
}
use slivingdoc.Storage.Key.{Uuid, Key, kind_eq, kind_beq_iff}

-- `git.OID`, `[20]byte`, and `SHA256`, `[32]byte`, by their bytes.
abbrev pub Oid : Type 0
Oid = Bytes

abbrev pub Sha256 : Type 0
Sha256 = Bytes

pub record Checkpoint : Type 0 where
  pub id : Uuid
  pub publication : Uuid
  pub through_generation : ℕ
  pub head : Oid
  pub key : Key
  pub sha256 : Sha256
  pub size : ℕ

pub record Increment : Type 0 where
  pub generation : ℕ
  pub publication : Uuid
  pub parent : Oid
  pub head : Oid
  pub key : Key
  pub sha256 : Sha256
  pub size : ℕ

pub record Retained : Type 0 where
  pub retired_at_generation : ℕ
  pub head : Oid
  pub checkpoint : Checkpoint
  pub increments : List Increment

pub record Manifest : Type 0 where
  pub version : ℕ
  pub generation : ℕ
  pub head : Oid
  pub checkpoint : Checkpoint
  pub increments : List Increment
  pub retained : List Retained

unfoldable pub key_beq : Key → Key → Bool
key_beq a b = a.kind == b.kind && (a.generation == b.generation && a.id == b.id)

pub key_beq_iff : (a b : Key) → (key_beq a b ≡ true) ↔ (a ≡ b)
unfolding key_beq
key_beq_iff a b = (
  λ h. ground (arith, bytes_beq_iff a.id b.id, kind_beq_iff a.kind b.kind),
  λ h. ground (arith, bytes_beq_iff a.id b.id, kind_beq_iff a.kind b.kind),
)

-- Go's `==` on the struct `Increment`, field by field.
unfoldable pub increment_beq : Increment → Increment → Bool
increment_beq a b =
    a.generation == b.generation
    && (a.publication == b.publication
        && (a.parent == b.parent
            && (a.head == b.head
                && (key_beq a.key b.key && (a.sha256 == b.sha256 && a.size == b.size)))))

pub increment_beq_iff : (a b : Increment) → (increment_beq a b ≡ true) ↔ (a ≡ b)
unfolding increment_beq
increment_beq_iff a b = (λ h. forward h, λ h. backward h)
  where
    forward : increment_beq a b ≡ true → a ≡ b
    forward h = ground (
      arith,
      bytes_beq_iff a.publication b.publication,
      bytes_beq_iff a.parent b.parent,
      bytes_beq_iff a.head b.head,
      key_beq_iff a.key b.key,
      bytes_beq_iff a.sha256 b.sha256,
    )

    backward : a ≡ b → increment_beq a b ≡ true
    backward h = ground (
      arith,
      bytes_beq_iff a.publication b.publication,
      bytes_beq_iff a.parent b.parent,
      bytes_beq_iff a.head b.head,
      key_beq_iff a.key b.key,
      bytes_beq_iff a.sha256 b.sha256,
    )

instance abbrev pub increment_eq : Eq Increment
increment_eq = record { equal = increment_beq; equal_iff = increment_beq_iff }
