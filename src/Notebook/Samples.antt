-- ===== src/Notebook/Samples.antt =====
-- Sample checkpoints of internal/notebook.
use slivingdoc.Base.{
  ◌≡◌, refl, true, [], ◌∷◌, codes, some, arith, bytes_beq, contains, drop, not-contains_iff,
  bytes_eq,
}
use slivingdoc.Storage.Key.{Key, PackKind, key_text, decimal, decimal_from}
use slivingdoc.Storage.Manifest.{Manifest, increment_beq, key_beq, manifest_keys, checkpoint_ids}
use slivingdoc.Storage.Samples.{
  plain_ids, sample_manifest, sample_manifest-IsValid, third, repeated,
}
use slivingdoc.Base.{none, false, ◌↔◌, inr, ◌<◌, length}
use slivingdoc.Storage.Manifest.{bindings}
use slivingdoc.Notebook.Publication.{
  Repository, RemoteState, accepted_state, Proposal, increment_proposal, compacting_proposal,
  increment_generation, obtain, build_increment, build_proposal, build_compacting, referenced_size,
  chain_size, sizes_from, retained_sizes, published, retained_publication, publication_in,
}
use slivingdoc.Notebook.Publication.Search.{IsBound, publication_in_iff}
use slivingdoc.Notebook.Publication.Next.{IsAccepted, IsNewPublication, IsNext, IsCompacted}
use slivingdoc.Notebook.Publication.Sound.{
  HasPacks, IsMade, proposal-IsNext, build_proposal-IsNext, build_compacting-IsNext,
}
use slivingdoc.Base.{◌≤◌}
use slivingdoc.Notebook.Backoff.{wait_ceiling}
use slivingdoc.Notebook.Backoff.Ceiling.{wait_ceiling-bounds}
use slivingdoc.Notebook.Checkpoint.{
  Pack, CheckpointPlan, plan_checkpoint, prefix_present, compact_manifest,
}
use slivingdoc.Notebook.Checkpoint.Valid.{IsSound, IsNewPack, compact_manifest-IsSound}

abbrev pub sample_pack : Pack
sample_pack = record { contents = 1 ∷ 2 ∷ 3 ∷ []; sha256 = repeated 32 4; object_count = 2 }

abbrev sample_plan : CheckpointPlan
sample_plan = record {
  manifest = sample_manifest;
  count = 1;
  cutoff = 2;
  head = repeated 20 2;
  publication = codes "q";
}

abbrev new_key : Key
new_key = record { kind = PackKind.checkpoint; generation = 2; id = codes "b" }

pub sample_manifest-IsSound : IsSound plain_ids sample_manifest
sample_manifest-IsSound = record { valid = sample_manifest-IsValid; reached = omega arith }

sample_planned : plan_checkpoint sample_manifest 1 ≡ some sample_plan
unfolding plan_checkpoint
sample_planned = refl

sample_present : prefix_present sample_plan sample_manifest ≡ true
unfolding prefix_present increment_beq key_beq bytes_beq
sample_present = refl

sample_pack-IsNewPack : IsNewPack plain_ids sample_manifest (codes "b") new_key sample_pack
unfolding contains bytes_beq key_text decimal decimal_from
sample_pack-IsNewPack = record {
  filled = omega arith;
  new_key =
      (not-contains_iff (manifest_keys plain_ids sample_manifest) (key_text plain_ids new_key)).0
        refl;
  new_id = (not-contains_iff (checkpoint_ids sample_manifest) (codes "b")).0 refl;
}

compact_manifest-IsSound_example :
    let next : Manifest =
      compact_manifest 2 sample_manifest sample_plan (codes "b") new_key sample_pack in
    IsSound plain_ids next
    × (next.head ≡ repeated 20 3)
    × (next.generation ≡ 4)
    × (next.increments ≡ third ∷ [])
unfolding compact_manifest drop
compact_manifest-IsSound_example =
    compact_manifest-IsSound plain_ids 2 sample_manifest sample_manifest 1 sample_plan (codes "b")
      sample_pack sample_manifest-IsSound sample_planned sample_present sample_pack-IsNewPack
      (omega arith)

-- A repository whose commits and packs are fixed.
abbrev pub fixed_repository : Repository
fixed_repository = record {
  create_commit = λ message parents tree time. some (repeated 20 7);
  export_checkpoint = λ head. some sample_pack;
  export_increment = λ head base. some sample_pack;
  mark_shallow = λ head. true;
}

pub fixed_repository-HasPacks : HasPacks fixed_repository
fixed_repository-HasPacks = record {
  checkpoint_filled = λ head pack e. filled pack e;
  increment_filled = λ head base pack e. filled pack e;
}
  where
    filled : (pack : Pack) → some sample_pack ≡ some pack → 0 < length pack.contents
    filled pack e = ground arith

abbrev pub sample_remote : RemoteState
sample_remote = accepted_state sample_manifest [] (repeated 20 8)

pub sample_remote-IsAccepted : IsAccepted plain_ids sample_remote
sample_remote-IsAccepted = record {
  sound = sample_manifest-IsSound;
  generation = refl;
  head = refl;
  room = omega arith;
}

pub sample_publication_free : publication_in sample_manifest (codes "s") ≡ false
unfolding publication_in published retained_publication bytes_beq
sample_publication_free = refl

pub sample_publication-IsNew : IsNewPublication plain_ids sample_manifest (codes "s")
unfolding contains bytes_beq key_text decimal decimal_from
sample_publication-IsNew = record {
  unbound = λ b.
      ground (arith, sample_publication_free, (publication_in_iff sample_manifest (codes "s")).1 b);
  new_key =
      (not-contains_iff (manifest_keys plain_ids sample_manifest) (
          key_text plain_ids (record {
            kind = PackKind.increment;
            generation = increment_generation sample_manifest;
            id = codes "s";
          }))).0
        refl;
}

abbrev pub sample_proposal : Proposal
sample_proposal =
    increment_proposal sample_remote (codes "s") (repeated 20 7) sample_pack (repeated 20 8)

build_proposal-IsNext_example :
    IsNext plain_ids 3 (codes "s") sample_proposal
    × IsMade fixed_repository sample_remote (repeated 20 8) (codes "message") 0 sample_proposal
unfolding build_proposal build_increment obtain
build_proposal-IsNext_example =
    build_proposal-IsNext plain_ids fixed_repository fixed_repository-HasPacks sample_remote
      (repeated 20 8) (codes "message") 0 (codes "s") none sample_proposal
      (inr (sample_remote-IsAccepted, sample_publication-IsNew)) refl

pub sample_proposal-IsNext : IsNext plain_ids 3 (codes "s") sample_proposal
unfolding build_proposal build_increment obtain
sample_proposal-IsNext =
    proposal-IsNext plain_ids fixed_repository fixed_repository-HasPacks sample_remote
      (repeated 20 8) (codes "message") 0 (codes "s") none sample_proposal
      (inr (sample_remote-IsAccepted, sample_publication-IsNew)) refl

build_compacting-IsNext_example :
    IsCompacted plain_ids sample_remote 3 sample_proposal
      (compacting_proposal sample_proposal (codes "c") sample_pack)
unfolding build_compacting obtain referenced_size chain_size sizes_from retained_sizes
build_compacting-IsNext_example =
    build_compacting-IsNext plain_ids fixed_repository fixed_repository-HasPacks sample_remote 3
      sample_proposal (compacting_proposal sample_proposal (codes "c") sample_pack)
      (some (codes "c")) sample_proposal-IsNext refl

publication_in_iff_example :
    (publication_in sample_manifest (codes "r") ≡ true)
    ↔ IsBound (codes "r") (bindings sample_manifest)
publication_in_iff_example = publication_in_iff sample_manifest (codes "r")

wait_ceiling-bounds_example : (0 < wait_ceiling 100 1000 7) × (wait_ceiling 100 1000 7 ≤ 1000)
wait_ceiling-bounds_example = wait_ceiling-bounds 100 1000 7 (omega arith) (omega arith)
