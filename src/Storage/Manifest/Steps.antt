-- ===== src/Storage/Manifest/Steps.antt =====
-- One step of `validateManifest` accepts exactly a descriptor that continues the chain and
-- clashes with nothing seen before.
use slivingdoc.Base.{
  ℕ, ◌<◌, ◌≡◌, true, not, ◌∷◌, bytes_eq, nat_eq, bytes_beq_iff, arith, ok, contains, lookup,
}
use slivingdoc.Storage.Key.{Uuid, UuidLibrary, Key, PackKind, kind_eq, kind_beq_iff, key_text}
use slivingdoc.Storage.Manifest.Types.{Oid, Checkpoint, Increment}
use slivingdoc.Storage.Manifest.Valid.{Continues}
use slivingdoc.Storage.Manifest.Check.{
  Seen, check_descriptor_key, binds_same, check_increment, check_checkpoint,
}

abbrev Describes : Key → PackKind → ℕ → Uuid → Type 0
Describes k kind generation id = k ≡ record { kind = kind; generation = generation; id = id }

descriptor_sound :
    (k : Key) (kind : PackKind) (g : ℕ) (id : Uuid)
    → check_descriptor_key k kind g id ≡ ok tt
    → Describes k kind g id
unfolding check_descriptor_key
descriptor_sound k kind g id h = ground (arith, kind_beq_iff k.kind kind, bytes_beq_iff k.id id)

descriptor_complete :
    (k : Key) (kind : PackKind) (g : ℕ) (id : Uuid)
    → Describes k kind g id
    → check_descriptor_key k kind g id ≡ ok tt
unfolding check_descriptor_key
descriptor_complete k kind g id h = ground (arith, kind_beq_iff k.kind kind, bytes_beq_iff k.id id)

module _ (lib : UuidLibrary) where
  abbrev pub with_increment : Seen → Increment → Seen
  with_increment seen i = record seen {
    keys = key_text lib i.key ∷ seen.keys;
    heads = (i.publication, i.head) ∷ seen.heads;
  }

  module _ (head : Oid) (g : ℕ) (seen seen' : Seen) (i : Increment)
      (h : check_increment lib head g seen i ≡ ok seen') where
    increment_key : check_descriptor_key i.key PackKind.increment i.generation i.publication ≡ ok tt
    unfolding check_increment
    increment_key = ground arith

    pub increment_unseen : not (contains seen.keys (key_text lib i.key)) ≡ true
    unfolding check_increment
    increment_unseen = ground arith

    pub increment_agrees : binds_same (lookup i.publication seen.heads) i.head ≡ true
    unfolding check_increment
    increment_agrees = ground arith

    pub increment-Continues : Continues head g i
    unfolding check_increment
    increment-Continues = record {
      stored = ground arith;
      consecutive = ground arith;
      bounded = ground arith;
      on_parent = ground (arith, bytes_beq_iff i.parent head);
      own_key = descriptor_sound i.key PackKind.increment i.generation i.publication increment_key;
    }

    pub increment_seen : seen' ≡ with_increment seen i
    unfolding check_increment
    increment_seen = ground arith

  pub increment_complete :
      (head : Oid) (g : ℕ) (seen : Seen) (i : Increment)
      → Continues head g i
      → not (contains seen.keys (key_text lib i.key)) ≡ true
      → binds_same (lookup i.publication seen.heads) i.head ≡ true
      → check_increment lib head g seen i ≡ ok (with_increment seen i)
  unfolding check_increment
  increment_complete head g seen i c unseen agrees = ground (
    arith,
    bytes_beq_iff i.parent head,
    descriptor_complete i.key PackKind.increment i.generation i.publication,
  )

  abbrev pub with_checkpoint : Seen → Checkpoint → Seen
  with_checkpoint seen c = record {
    keys = key_text lib c.key ∷ seen.keys;
    ids = c.id ∷ seen.ids;
    heads = (c.publication, c.head) ∷ seen.heads;
  }

  -- What a checkpoint descriptor must show by itself.
  pub record IsDescribed (c : Checkpoint) : Type 0 where
    pub stored : 0 < c.size
    pub own_key :
        c.key ≡ record { kind = PackKind.checkpoint; generation = c.through_generation; id = c.id }

  module _ (seen seen' : Seen) (c : Checkpoint) (h : check_checkpoint lib seen c ≡ ok seen') where
    checkpoint_key :
        check_descriptor_key c.key PackKind.checkpoint c.through_generation c.id ≡ ok tt
    unfolding check_checkpoint
    checkpoint_key = ground arith

    pub checkpoint_unseen : not (contains seen.keys (key_text lib c.key)) ≡ true
    unfolding check_checkpoint
    checkpoint_unseen = ground arith

    pub checkpoint_new : not (contains seen.ids c.id) ≡ true
    unfolding check_checkpoint
    checkpoint_new = ground arith

    pub checkpoint_agrees : binds_same (lookup c.publication seen.heads) c.head ≡ true
    unfolding check_checkpoint
    checkpoint_agrees = ground arith

    pub checkpoint-IsDescribed : IsDescribed c
    unfolding check_checkpoint
    checkpoint-IsDescribed = record {
      stored = ground arith;
      own_key = descriptor_sound c.key PackKind.checkpoint c.through_generation c.id checkpoint_key;
    }

    pub checkpoint_seen : seen' ≡ with_checkpoint seen c
    unfolding check_checkpoint
    checkpoint_seen = ground arith

  pub checkpoint_complete :
      (seen : Seen) (c : Checkpoint)
      → IsDescribed c
      → not (contains seen.keys (key_text lib c.key)) ≡ true
      → not (contains seen.ids c.id) ≡ true
      → binds_same (lookup c.publication seen.heads) c.head ≡ true
      → check_checkpoint lib seen c ≡ ok (with_checkpoint seen c)
  unfolding check_checkpoint
  checkpoint_complete seen c d unseen new agrees =
      ground
        (arith, descriptor_complete c.key PackKind.checkpoint c.through_generation c.id d.own_key)
