-- ===== src/Notebook/Publication.antt =====
-- internal/notebook/commit.go and remote.go: the manifests that a commit proposes, and the search
-- for a publication. The functions of internal/git over the local repository, which libgit2
-- implements, are a parameter, and so are the new ids.
pub mod Append
pub mod Next
pub mod Sound
pub mod Ids
pub mod Search
use slivingdoc.Base.{
  ℕ, ◌+◌, ◌%◌, ◌^◌, ◌-◌, Bool, true, false, not, ◌||◌, Option, none, some, List, [], ◌∷◌, ◌++◌,
  ◌==◌, nat_eq, bytes_eq, Bytes, length, leb, if◌then◌else◌, Result, ok, err, ◌>>=◌, ◌>>◌, require,
}
use slivingdoc.Storage.Key.{Uuid, Key, PackKind}
use slivingdoc.Storage.Manifest.{Oid, Checkpoint, Increment, Retained, Manifest, add64}
use slivingdoc.Notebook.Checkpoint.{Pack}

-- `git.CreateCommit`, `git.ExportCheckpoint`, `git.ExportIncrement` and `git.MarkShallow`; `none`
-- and `false` stand for an error.
pub record Repository : Type 0 where
  pub create_commit : Bytes → List Oid → Oid → ℕ → Option Oid
  pub export_checkpoint : Oid → Option Pack
  pub export_increment : Oid → Oid → Option Pack
  pub mark_shallow : Oid → Bool

pub record RemoteState : Type 0 where
  pub manifest : Manifest
  pub etag : Bytes
  pub present : Bool
  pub generation : ℕ
  pub head : Oid
  pub tree : Oid

abbrev pub accepted_state : Manifest → Bytes → Oid → RemoteState
accepted_state m etag tree = record {
  manifest = m;
  etag = etag;
  present = true;
  generation = m.generation;
  head = m.head;
  tree = tree;
}

-- `workspace.Baseline`
pub record Baseline : Type 0 where
  pub remote_generation : ℕ
  pub head : Oid
  pub tree : Oid

pub record Proposal : Type 0 where
  pub publication : Uuid
  pub checkpoint_id : Option Uuid
  pub key : Key
  pub pack : Pack
  pub manifest : Manifest
  pub baseline : Baseline
  pub compacting : Bool

pub data ProposalError : Type 0 where
  no_publication_id : ProposalError
  no_checkpoint_id : ProposalError
  no_commit : ProposalError
  no_checkpoint_pack : ProposalError
  no_increment_pack : ProposalError
  no_boundary : ProposalError

unfoldable pub obtain : {A : Type 0} → ProposalError → Option A → Result ProposalError A
obtain e (some a) = ok a
obtain e none = err e

abbrev pub first_proposal : Uuid → Uuid → Oid → Pack → Oid → Proposal
first_proposal pub_id cp_id head pack tree =
    let key : Key = record { kind = PackKind.checkpoint; generation = 1; id = cp_id } in
    record {
      publication = pub_id;
      checkpoint_id = some cp_id;
      key = key;
      pack = pack;
      manifest = record {
        version = 1;
        generation = 1;
        head = head;
        checkpoint = record {
          id = cp_id;
          publication = pub_id;
          through_generation = 1;
          head = head;
          key = key;
          sha256 = pack.sha256;
          size = length pack.contents;
        };
        increments = [];
        retained = [];
      };
      baseline = record { remote_generation = 1; head = head; tree = tree };
      compacting = false;
    }

abbrev pub increment_generation : Manifest → ℕ
increment_generation m = add64 (add64 m.checkpoint.through_generation (length m.increments)) 1

abbrev pub increment_proposal : RemoteState → Uuid → Oid → Pack → Oid → Proposal
increment_proposal remote pub_id head pack tree =
    let generation = increment_generation remote.manifest in
    let key : Key = record { kind = PackKind.increment; generation = generation; id = pub_id } in
    let added : Increment = record {
      generation = generation;
      publication = pub_id;
      parent = remote.head;
      head = head;
      key = key;
      sha256 = pack.sha256;
      size = length pack.contents;
    } in
    record {
      publication = pub_id;
      checkpoint_id = none;
      key = key;
      pack = pack;
      manifest = record remote.manifest {
        generation = add64 remote.generation 1;
        head = head;
        increments = remote.manifest.increments ++ added ∷ [];
      };
      baseline = record { remote_generation = add64 remote.generation 1; head = head; tree = tree };
      compacting = false;
    }

abbrev pub compacting_proposal : Proposal → Uuid → Pack → Proposal
compacting_proposal inc cp_id pack =
    let key : Key = record {
      kind = PackKind.checkpoint;
      generation = inc.key.generation;
      id = cp_id;
    } in
    record {
      publication = inc.publication;
      checkpoint_id = some cp_id;
      key = key;
      pack = pack;
      manifest = record inc.manifest {
        checkpoint = record {
          id = cp_id;
          publication = inc.publication;
          through_generation = inc.key.generation;
          head = inc.manifest.head;
          key = key;
          sha256 = pack.sha256;
          size = length pack.contents;
        };
        increments = [];
        retained = [];
      };
      baseline = inc.baseline;
      compacting = true;
    }

-- `chainSize`, a `uint64` sum from left to right.
unfoldable pub sizes_from : ℕ → List Increment → ℕ
sizes_from size [] = size
sizes_from size (i ∷ is) = sizes_from (add64 size i.size) is

unfoldable pub chain_size : Checkpoint → List Increment → ℕ
chain_size c is = sizes_from c.size is

unfoldable pub retained_sizes : ℕ → List Retained → ℕ
retained_sizes size [] = size
retained_sizes size (r ∷ rs) = retained_sizes (add64 size (chain_size r.checkpoint r.increments)) rs

unfoldable pub referenced_size : Manifest → ℕ
referenced_size m = retained_sizes (chain_size m.checkpoint m.increments) m.retained

module _ (repo : Repository) where
  unfoldable pub build_first : Oid → Bytes → ℕ → Uuid → Option Uuid → Result ProposalError Proposal
  build_first tree message time pub_id cp_id = do
    head ← obtain ProposalError.no_commit (repo.create_commit message [] tree time)
    pack ← obtain ProposalError.no_checkpoint_pack (repo.export_checkpoint head)
    require (repo.mark_shallow head) ProposalError.no_boundary
    cp ← obtain ProposalError.no_checkpoint_id cp_id
    ok (first_proposal pub_id cp head pack tree)

  unfoldable pub build_increment :
      RemoteState → Oid → Bytes → ℕ → Uuid → Result ProposalError Proposal
  build_increment remote tree message time pub_id = do
    head ← obtain ProposalError.no_commit (repo.create_commit message (remote.head ∷ []) tree time)
    pack ← obtain ProposalError.no_increment_pack (repo.export_increment head remote.head)
    ok (increment_proposal remote pub_id head pack tree)

  -- `buildProposal`: the ids are what its two calls of `newID` return.
  unfoldable pub build_proposal :
      RemoteState → Oid → Bytes → ℕ → Option Uuid → Option Uuid → Result ProposalError Proposal
  build_proposal remote tree message time pub_id cp_id = do
    u ← obtain ProposalError.no_publication_id pub_id
    if remote.generation == 0
        then build_first tree message time u cp_id
        else build_increment remote tree message time u

  -- `buildCompactingProposal`: `none` is its answer `false`, for a checkpoint that frees no space.
  unfoldable pub build_compacting :
      RemoteState → Proposal → Option Uuid → Result ProposalError (Option Proposal)
  build_compacting remote inc cp_id = do
    pack ← obtain ProposalError.no_checkpoint_pack (repo.export_checkpoint inc.manifest.head)
    if leb (referenced_size remote.manifest) (length pack.contents) then ok none else (do
      cp ← obtain ProposalError.no_checkpoint_id cp_id
      ok (some (compacting_proposal inc cp pack)))

-- The loops of `publicationIn`.
unfoldable pub published : List Increment → Uuid → Bool
published [] u = false
published (i ∷ is) u = i.publication == u || published is u

unfoldable pub retained_publication : List Retained → Uuid → Bool
retained_publication [] u = false
retained_publication (r ∷ rs) u =
    r.checkpoint.publication == u || (published r.increments u || retained_publication rs u)

unfoldable pub publication_in : Manifest → Uuid → Bool
publication_in m u =
    m.checkpoint.publication == u || (published m.increments u || retained_publication m.retained u)
