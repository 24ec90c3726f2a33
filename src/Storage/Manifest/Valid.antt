-- ===== src/Storage/Manifest/Valid.antt =====
-- What architecture/storage.md asks of a manifest, without the order in which
-- internal/storage/manifest.go checks it.
use mathlib.Core.List.{Nodup}
use slivingdoc.Base.{ℕ, ◌+◌, ◌%◌, ◌^◌, ◌≤◌, ◌<◌, ◌≡◌, List, [], ◌∷◌, ◌++◌, map, In, Bytes}
use slivingdoc.Storage.Key.{Uuid, UuidLibrary, PackKind, key_text}
use slivingdoc.Storage.Manifest.Types.{Oid, Checkpoint, Increment, Retained, Manifest}

-- A `uint64` sum.
abbrev pub add64 : ℕ → ℕ → ℕ
add64 a b = (a + b) % 2 ^ 64

-- The head and the generation that a chain of increments ends at.
abbrev pub final_head : Oid → List Increment → Oid
final_head head [] = head
final_head head (i ∷ is) = final_head i.head is

abbrev pub final_generation : ℕ → List Increment → ℕ
final_generation generation [] = generation
final_generation generation (i ∷ is) = final_generation i.generation is

-- Increments that continue a state with the given head and generation.
pub record Continues (head : Oid) (generation : ℕ) (i : Increment) : Type 0 where
  pub stored : 0 < i.size
  pub consecutive : i.generation ≡ generation + 1
  pub bounded : i.generation < 2 ^ 64
  pub on_parent : i.parent ≡ head
  pub own_key :
      i.key ≡ record { kind = PackKind.increment; generation = i.generation; id = i.publication }

abbrev pub IsTail : Oid → ℕ → List Increment → Type 0
IsTail head generation [] = Unit
IsTail head generation (i ∷ is) = Continues head generation i × IsTail i.head i.generation is

-- A complete state pack and the increments on it.
pub record IsChain (c : Checkpoint) (is : List Increment) : Type 0 where
  pub stored : 0 < c.size
  pub own_key :
      c.key ≡ record { kind = PackKind.checkpoint; generation = c.through_generation; id = c.id }
  pub tail : IsTail c.head c.through_generation is

-- One generation that a newer checkpoint replaced, retired below `limit`.
pub record IsRetained (limit : ℕ) (r : Retained) : Type 0 where
  pub ordered : r.retired_at_generation < limit
  pub later :
      final_generation r.checkpoint.through_generation r.increments < r.retired_at_generation
  pub chain : IsChain r.checkpoint r.increments
  pub at_head : r.head ≡ final_head r.checkpoint.head r.increments

abbrev pub AreRetained : ℕ → List Retained → Type 0
AreRetained limit [] = Unit
AreRetained limit (r ∷ rs) = IsRetained limit r × AreRetained r.retired_at_generation rs

abbrev pub binding : Increment → Uuid × Oid
binding i = (i.publication, i.head)

abbrev pub chain_bindings : Checkpoint → List Increment → List (Uuid × Oid)
chain_bindings c is = (c.publication, c.head) ∷ map binding is

abbrev pub retained_bindings : List Retained → List (Uuid × Oid)
retained_bindings [] = []
retained_bindings (r ∷ rs) = chain_bindings r.checkpoint r.increments ++ retained_bindings rs

-- Every publication id with the head that a descriptor binds it to.
abbrev pub bindings : Manifest → List (Uuid × Oid)
bindings m = chain_bindings m.checkpoint m.increments ++ retained_bindings m.retained

abbrev pub IsConsistent : List (Uuid × Oid) → Type 0
IsConsistent l = (u : Uuid) (h h' : Oid) → In (u, h) l → In (u, h') l → h ≡ h'

abbrev pub checkpoint_ids : Manifest → List Uuid
checkpoint_ids m = m.checkpoint.id ∷ map (λ (r : Retained). r.checkpoint.id) m.retained

module _ (lib : UuidLibrary) where
  abbrev pub increment_keys : List Increment → List Bytes
  increment_keys = map (λ (i : Increment). key_text lib i.key)

  abbrev pub chain_keys : Checkpoint → List Increment → List Bytes
  chain_keys c is = key_text lib c.key ∷ increment_keys is

  abbrev pub retained_keys : List Retained → List Bytes
  retained_keys [] = []
  retained_keys (r ∷ rs) = chain_keys r.checkpoint r.increments ++ retained_keys rs

  -- Every pack key that a descriptor names.
  abbrev pub manifest_keys : Manifest → List Bytes
  manifest_keys m = chain_keys m.checkpoint m.increments ++ retained_keys m.retained

  pub record IsValid (m : Manifest) : Type 0 where
    pub generation : 0 < m.generation
    pub active : IsChain m.checkpoint m.increments
    pub at_head : m.head ≡ final_head m.checkpoint.head m.increments
    pub cutoff : m.checkpoint.through_generation ≤ m.generation
    pub retained : AreRetained (add64 m.generation 1) m.retained
    pub keys : Nodup (manifest_keys m)
    pub ids : Nodup (checkpoint_ids m)
    pub publications : IsConsistent (bindings m)
