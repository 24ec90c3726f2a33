-- ===== src/Notebook/History.antt =====
-- internal/notebook: the manifests that `current` goes through when several writers commit and
-- checkpoint. A writer holds what it read, and its conditional write lands only where the tag of what
-- it read is the tag of what is stored; `T` is the type of the tags, whose text a state carries as
-- `etag`. The steps call the functions of commit.go and checkpoint.go.
pub mod Sound
pub mod Samples
use slivingdoc.Base.{ℕ, ◌+◌, ◌^◌, ◌<◌, ◌≡◌, true, Option, none, some, List, [], ◌∷◌, Bytes, ok, In}
use slivingdoc.Storage.Key.{Uuid, UuidLibrary, PackKind, Key}
use slivingdoc.Storage.Manifest.{Oid, Manifest, validate_manifest}
use slivingdoc.Notebook.Checkpoint.{
  Pack, CheckpointPlan, plan_checkpoint, prefix_present, compact_manifest,
}
use slivingdoc.Notebook.Publication.{
  Repository, RemoteState, accepted_state, Proposal, build_proposal, build_compacting,
}

-- The manifests that were accepted, newest first: the first is that of `current`. `observed` holds
-- what the writers have read.
pub record Log : Type 0 where
  pub accepted : List Manifest
  pub observed : List Manifest

abbrev pub checkpoint_key : CheckpointPlan → Uuid → Key
checkpoint_key plan id = record { kind = PackKind.checkpoint; generation = plan.cutoff; id = id }

-- What `EncodeManifest` tests before it gives the bytes of a write.
abbrev pub IsEncoded : UuidLibrary → Manifest → Type 0
IsEncoded lib m = validate_manifest lib m ≡ ok tt

module _ (lib : UuidLibrary) (repo : Repository) {T : Type 0} (tag : Manifest → T)
    (retained : ℕ) where
  -- The precondition of the write: the tag of what was read is the tag of what is stored.
  pub record Unchanged (log : Log) (read stored : Manifest) (before : List Manifest) : Type 0 where
    pub was_read : In read log.observed
    pub stored_is : log.accepted ≡ stored ∷ before
    pub same_tag : tag read ≡ tag stored

  abbrev pub accept : Log → Manifest → Log
  accept log m = record log { accepted = m ∷ log.accepted }

  -- A build against a state: the tree, the message, the time and the ids.
  pub record Build (remote : RemoteState) (p : Proposal) : Type 0 where
    pub tree : Oid
    pub message : Bytes
    pub time : ℕ
    pub id : Uuid
    pub checkpoint_id : Option Uuid
    pub built : build_proposal repo remote tree message time (some id) checkpoint_id ≡ ok p

  pub data Step (log : Log) : Log → Type 0 where
    observe :
        (stored : Manifest) (before : List Manifest)
        → log.accepted ≡ stored ∷ before
        → Step log (record log { observed = stored ∷ log.observed })
    create_first :
        (remote : RemoteState) (p : Proposal)
        → log.accepted ≡ []
        → remote.generation ≡ 0
        → Build remote p
        → IsEncoded lib p.manifest
        → Step log (accept log p.manifest)
    commit :
        (read stored : Manifest) (before : List Manifest) (etag tree : Bytes) (p : Proposal)
        → Unchanged log read stored before
        → Build (accepted_state read etag tree) p
        → IsEncoded lib p.manifest
        → Step log (accept log p.manifest)
    compact_commit :
        (read stored : Manifest) (before : List Manifest) (etag tree : Bytes) (inc p : Proposal)
        (cp : Option Uuid)
        → Unchanged log read stored before
        → Build (accepted_state read etag tree) inc
        → build_compacting repo (accepted_state read etag tree) inc cp ≡ ok (some p)
        → IsEncoded lib p.manifest
        → Step log (accept log p.manifest)
    checkpoint :
        (planned read stored : Manifest) (before : List Manifest) (threshold : ℕ)
        (plan : CheckpointPlan) (id : Uuid) (pack : Pack)
        → Unchanged log read stored before
        → plan_checkpoint planned threshold ≡ some plan
        → prefix_present plan read ≡ true
        → IsEncoded lib (compact_manifest retained read plan id (checkpoint_key plan id) pack)
        → Step log
            (accept log (compact_manifest retained read plan id (checkpoint_key plan id) pack))

  pub data Reach (start : Log) : Log → Type 0 where
    here : Reach start start
    next : {l m : Log} → Reach start l → Step l m → Reach start m

  abbrev pub no_history : Log
  no_history = record { accepted = []; observed = [] }
