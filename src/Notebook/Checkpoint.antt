-- ===== src/Notebook/Checkpoint.antt =====
-- internal/notebook/checkpoint.go: the plan of a checkpoint, the compacted manifest, and the
-- keys that a manifest keeps alive.
pub mod Prefix
pub mod Unique
pub mod Valid
use slivingdoc.Base.{
  ℕ, zero, suc, ◌+◌, Bool, true, false, ◌&&◌, Option, none, some, List, [], ◌∷◌, ◌++◌, map, ◌==◌,
  Bytes, length, get_elem?, take, drop, leb, if◌then◌else◌,
}
use slivingdoc.Storage.Key.{Uuid, UuidLibrary, Key, key_text}
use slivingdoc.Storage.Manifest.{
  Oid, Sha256, Checkpoint, Increment, Retained, Manifest, increment_eq, add64, final_head,
}

-- `git.Pack` of internal/git/types.go.
pub record Pack : Type 0 where
  pub contents : Bytes
  pub sha256 : Sha256
  pub object_count : ℕ

pub record CheckpointPlan : Type 0 where
  pub manifest : Manifest
  pub count : ℕ
  pub cutoff : ℕ
  pub head : Oid
  pub publication : Uuid

planned : Manifest → ℕ → Option Increment → Option CheckpointPlan
planned observed threshold none = none
planned observed threshold (some last) = some (record {
  manifest = observed;
  count = threshold;
  cutoff = last.generation;
  head = last.head;
  publication = last.publication;
})

-- `none` is the panic of an index out of range.
unfoldable pub plan_checkpoint : Manifest → ℕ → Option CheckpointPlan
unfolding planned
plan_checkpoint observed zero = none
plan_checkpoint observed (suc t) = planned observed (suc t) (get_elem? observed.increments t)

-- The loop of `prefixPresent` over the first `n` places; a plan holds that many increments.
same_prefix : ℕ → List Increment → List Increment → Bool
same_prefix zero xs ys = true
same_prefix (suc n) (x ∷ xs) (y ∷ ys) = x == y && same_prefix n xs ys
same_prefix (suc n) _ _ = false

unfoldable pub prefix_present : CheckpointPlan → Manifest → Bool
unfolding same_prefix
prefix_present p m =
    leb p.count (length m.increments) && same_prefix p.count m.increments p.manifest.increments

module _ (retained_checkpoints : ℕ) where
  unfoldable pub compact_manifest : Manifest → CheckpointPlan → Uuid → Key → Pack → Manifest
  compact_manifest latest plan cp_id key pack =
      let generation = add64 latest.generation 1 in
      let later = drop plan.count latest.increments in
      let replaced : Retained = record {
        retired_at_generation = generation;
        head = plan.head;
        checkpoint = latest.checkpoint;
        increments = take plan.count latest.increments;
      } in
      record latest {
        generation = generation;
        head = final_head plan.head later;
        checkpoint = record {
          id = cp_id;
          publication = plan.publication;
          through_generation = plan.cutoff;
          head = plan.head;
          key = key;
          sha256 = pack.sha256;
          size = length pack.contents;
        };
        increments = later;
        retained = take retained_checkpoints (replaced ∷ latest.retained);
      }

-- `manifestRoots`: the set of keys as the list of the writes to the map.
retained_roots : UuidLibrary → List Retained → List Bytes
retained_roots lib [] = []
retained_roots lib (r ∷ rs) =
    key_text lib r.checkpoint.key
    ∷ (map (λ (i : Increment). key_text lib i.key) r.increments ++ retained_roots lib rs)

unfoldable pub manifest_roots : UuidLibrary → Manifest → List Bytes
unfolding retained_roots
manifest_roots lib m =
    key_text lib m.checkpoint.key
    ∷ (map (λ (i : Increment). key_text lib i.key) m.increments ++ retained_roots lib m.retained)
