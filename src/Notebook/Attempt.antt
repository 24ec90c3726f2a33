-- ===== src/Notebook/Attempt.antt =====
-- internal/notebook/commit.go: one attempt to publish, from the read of the remote to the local
-- acceptance. The operations of the workspace, of the merge and of a checkpoint are an interface;
-- the failpoint between publication and acceptance is a hook of the tests.
pub mod Finished
pub mod Succeeds
pub mod Accepted
pub mod Samples
use slivingdoc.Base.{
  ℕ, Bool, true, false, Option, none, some, List, [], ◌∷◌, ◌==◌, bytes_eq, Bytes, length, leb,
  if◌then◌else◌, Result, ok, err,
}
use slivingdoc.Base.Actions.{Action, give, fail, checked, wrapped, after, ◌>>=◌, ◌>>◌}
use slivingdoc.Storage.Key.{Uuid, UuidLibrary}
use slivingdoc.Storage.Manifest.{Oid, Sha256, Manifest}
use slivingdoc.Storage.Metadata.{Metadata}
use slivingdoc.Storage.Store.{StoreError, ObjectStore}
use slivingdoc.Storage.Upload.{UploadStore, upload_unique}
use slivingdoc.Storage.Current.{TextLibrary}
use slivingdoc.Notebook.Commit.{LoadMode}
use slivingdoc.Notebook.Publication.{
  Repository, RemoteState, Baseline, Proposal, ProposalError, build_proposal, build_compacting,
}
use slivingdoc.Notebook.Publish.{PublishError, publish, discard_compaction}

-- What `git.Merge` returns: the merged tree, and the paths in conflict.
pub record Merged : Type 0 where
  pub tree : Oid
  pub conflicts : List Bytes

-- What the calls of `newID` return: for the publication, for its checkpoint, for a compaction.
pub record Ids : Type 0 where
  pub publication : Option Uuid
  pub checkpoint : Option Uuid
  pub compaction : Option Uuid

-- The operations that an attempt calls, over the state of the notebook, its workspace and its store,
-- with the errors `D` that they report and the summary `T` of a change. `apply_conflict` and
-- `apply_accept` are `applyLocal` with `Materialize` and with `Accept`, `accept` is `Accept` alone.
pub record Steps (S D T : Type 0) : Type 0 where
  pub read_remote_mode : LoadMode → S → Result D RemoteState × S
  pub merge : Oid → Oid → Oid → S → Option Merged
  pub materialize_tree : Merged → Oid → S → Option Oid
  pub apply_conflict : Baseline → Oid → S → Option D × S
  pub apply_accept : Baseline → S → Option D × S
  pub diff_stat : Oid → Oid → S → Result D T
  pub reject_new_folded_pairs : Oid → Oid → S → Option D
  pub new_ids : S → Ids
  pub accept : Baseline → S → Option D × S
  pub fail_after_publish : Proposal → S → S
  pub record_tail : Manifest → S → S
  pub accept_compaction : Proposal → S → S
  pub run_checkpoint : Manifest → S → S
  pub checkpoint_packs : ℕ

pub data AttemptError (D : Type 0) : Type 0 where
  not_read : D → AttemptError D
  not_merged : AttemptError D
  not_materialized : AttemptError D
  not_applied : D → AttemptError D
  merge_conflict : List Bytes → AttemptError D
  no_stat : D → AttemptError D
  folded_pairs : D → AttemptError D
  not_proposed : ProposalError → AttemptError D
  not_uploaded : StoreError → AttemptError D
  not_published : PublishError → AttemptError D
  not_accepted : D → AttemptError D

-- `Result` of the notebook: the accepted generation, and the summary where there is a change.
pub record Summary (T : Type 0) : Type 0 where
  pub generation : ℕ
  pub stat : Option T

abbrev pub remote_baseline : RemoteState → Baseline
remote_baseline remote = record {
  remote_generation = remote.generation;
  head = remote.head;
  tree = remote.tree;
}

module _ {S D T : Type 0} (steps : Steps S D T) (repo : Repository) (store : ObjectStore S)
    (uploads : UploadStore S) (digest : Bytes → Sha256) (text : TextLibrary)
    (lib : UuidLibrary) where
  abbrev pub Step : Type 0 → Type 0
  Step = Action S (AttemptError D)

  abbrev pub present :
      {B : Type 0} → AttemptError D → (S → Option B) → S → Option B → Result (AttemptError D) B × S
  present e f s none = (err e, s)
  present e f s (some b) = (ok b, s)

  abbrev pub asked : {B : Type 0} → AttemptError D → (S → Option B) → Step B
  asked e f s = present e f s (f s)

  -- `uploadProposal`
  unfoldable pub upload_proposal : Proposal → S → Result StoreError (Unit {0}) × S
  upload_proposal p s = upload_unique uploads digest lib s p.key p.pack.contents (record {
    sha256 = p.pack.sha256;
    size = length p.pack.contents;
    kind = some p.key.kind;
    generation = p.key.generation;
  })

  abbrev pub proposed : RemoteState → Oid → Bytes → ℕ → Step Proposal
  proposed remote tree message time s =
      let ids = steps.new_ids s in
      wrapped AttemptError.not_proposed
        (build_proposal repo remote tree message time ids.publication ids.checkpoint, s)

  abbrev pub smaller_checkpoint : Result ProposalError (Option Proposal) → Step Proposal
  smaller_checkpoint (err e) s = (err (AttemptError.not_proposed e), s)
  smaller_checkpoint (ok none) s = (err (AttemptError.not_uploaded StoreError.quota_exceeded), s)
  smaller_checkpoint (ok (some c)) s =
      after (wrapped AttemptError.not_uploaded (upload_proposal c s)) (λ u. give c)

  -- `ids.compaction` is drawn in the state where the compaction is built.
  abbrev pub after_upload :
      RemoteState
      → Proposal
      → Option Uuid
      → Result StoreError (Unit {0}) × S
      → Result (AttemptError D) Proposal × S
  after_upload remote p checkpoint_id (ok u, s) = (ok p, s)
  after_upload remote p none (err StoreError.quota_exceeded, s) =
      smaller_checkpoint (build_compacting repo remote p (steps.new_ids s).compaction) s
  after_upload remote p checkpoint_id (err e, s) = (err (AttemptError.not_uploaded e), s)

  abbrev pub uploaded : RemoteState → Proposal → Step Proposal
  uploaded remote p s = after_upload remote p p.checkpoint_id (upload_proposal p s)

  abbrev pub schedule : Proposal → S → S
  schedule p s =
      if leb steps.checkpoint_packs (length p.manifest.increments)
      then steps.run_checkpoint p.manifest s
      else s

  abbrev pub settled : Proposal → S → S
  settled p s = if p.compacting then steps.accept_compaction p s else s

  abbrev pub after_accept :
      Proposal → T → Option D × S → Result (AttemptError D) (Option (Summary T)) × S
  after_accept p stat (some d, s) =
      (err (AttemptError.not_accepted d), steps.fail_after_publish p s)
  after_accept p stat (none, s) = (
    ok (some (record { generation = p.baseline.remote_generation; stat = some stat })),
    schedule p (settled p (steps.record_tail p.manifest s)),
  )

  abbrev pub discarded : Proposal → PublishError → S → S
  discarded p e s = if p.compacting then discard_compaction store text lib s p e else s

  abbrev pub after_publish :
      Proposal
      → T
      → Result PublishError (Unit {0}) × S
      → Result (AttemptError D) (Option (Summary T)) × S
  after_publish p stat (ok u, s) = after_accept p stat (steps.accept p.baseline s)
  after_publish p stat (err PublishError.cas_lost, s) =
      (ok none, discarded p PublishError.cas_lost s)
  after_publish p stat (err e, s) = (err (AttemptError.not_published e), discarded p e s)

  abbrev pub published : RemoteState → T → Proposal → Step (Option (Summary T))
  published remote stat p s = after_publish p stat (publish store text lib s remote p)

  abbrev pub summarized : Oid → Oid → Step T
  summarized old new s = wrapped AttemptError.no_stat (steps.diff_stat old new s, s)

  abbrev pub unfolded : Oid → Oid → Step (Unit {0})
  unfolded old new s =
      checked AttemptError.folded_pairs (steps.reject_new_folded_pairs old new s, s)

  unfoldable pub publish_merged : RemoteState → Oid → Bytes → ℕ → Step (Option (Summary T))
  publish_merged remote tree message time = do
    stat ← summarized remote.tree tree
    unfolded remote.tree tree
    p ← proposed remote tree message time
    q ← uploaded remote p
    published remote stat q

  abbrev pub applied : Option D × S → Result (AttemptError D) (Unit {0}) × S
  applied = checked AttemptError.not_applied

  unfoldable pub synchronize : RemoteState → Step (Option (Summary T))
  synchronize remote s =
      after (applied (steps.apply_accept (remote_baseline remote) s))
        (λ u. give (some (record { generation = remote.generation; stat = none })))

  unfoldable pub leave_conflict : RemoteState → Merged → Oid → Step (Option (Summary T))
  leave_conflict remote merged local_tree = do
    tree ← asked AttemptError.not_materialized (steps.materialize_tree merged local_tree)
    (λ s. applied (steps.apply_conflict (remote_baseline remote) tree s))
    fail (AttemptError.merge_conflict merged.conflicts)

  abbrev pub after_merge :
      RemoteState → Oid → Bytes → ℕ → Merged → List Bytes → Step (Option (Summary T))
  after_merge remote local_tree message time merged (c ∷ cs) =
      leave_conflict remote merged local_tree
  after_merge remote local_tree message time merged [] =
      if merged.tree == remote.tree
      then synchronize remote
      else publish_merged remote merged.tree message time

  unfoldable pub attempt_publication : Bytes → Oid → Oid → ℕ → LoadMode → Step (Option (Summary T))
  attempt_publication message base_tree local_tree time mode = do
    remote ← (λ s. wrapped AttemptError.not_read (steps.read_remote_mode mode s))
    merged ← asked AttemptError.not_merged (steps.merge base_tree local_tree remote.tree)
    after_merge remote local_tree message time merged merged.conflicts
