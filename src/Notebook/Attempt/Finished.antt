-- ===== src/Notebook/Attempt/Finished.antt =====
-- What an attempt of internal/notebook/commit.go has done when it ends without an error, and the
-- upload of its proposal.
use mathlib.Core.Path.{subst}
use slivingdoc.Base.{ℕ, ◌≡◌, refl, Option, none, some, bytes_eq, Bytes, arith, Result, ok, err}
use slivingdoc.Base.Actions.{after-ok, give, wrapped, wrapped-ok}
use slivingdoc.Storage.Key.{Uuid, UuidLibrary}
use slivingdoc.Storage.Manifest.{Oid, Sha256}
use slivingdoc.Storage.Store.{StoreError, ObjectStore}
use slivingdoc.Storage.Upload.{UploadStore}
use slivingdoc.Storage.Current.{TextLibrary}
use slivingdoc.Notebook.Publication.{
  Repository, RemoteState, Proposal, ProposalError, build_proposal, build_compacting,
}
use slivingdoc.Notebook.Publish.{PublishError, publish}
use slivingdoc.Notebook.Attempt.{
  Merged, Ids, Steps, AttemptError, Summary, remote_baseline, upload_proposal, smaller_checkpoint,
  after_upload, uploaded,
}

module _ {S D T : Type 0} (steps : Steps S D T) (repo : Repository) (store : ObjectStore S)
    (uploads : UploadStore S) (digest : Bytes → Sha256) (text : TextLibrary)
    (lib : UuidLibrary) where
  -- The proposal that was uploaded: as it was built, or as a compaction of it in a full space.
  pub data Chosen (remote : RemoteState) (tree message : Bytes) (time : ℕ) (p : Proposal)
      : Type 0 where
    built :
        (ids : Ids)
        → build_proposal repo remote tree message time ids.publication ids.checkpoint ≡ ok p
        → Chosen remote tree message time p
    compacted :
        (ids : Ids) (inc : Proposal) (cp : Option Uuid)
        → build_proposal repo remote tree message time ids.publication ids.checkpoint ≡ ok inc
        → inc.checkpoint_id ≡ none
        → build_compacting repo remote inc cp ≡ ok (some p)
        → Chosen remote tree message time p

  -- The pack was uploaded before the conditional write was tried.
  pub record Tried (remote : RemoteState) (tree message : Bytes) (time : ℕ)
      (r : Result PublishError (Unit {0})) : Type 0 where
    pub proposal : Proposal
    pub before : S
    pub uploaded_in : S
    pub after_it : S
    pub chosen : Chosen remote tree message time proposal
    pub uploaded_first :
        upload_proposal steps repo store uploads digest text lib proposal before
        ≡ (ok tt, uploaded_in)
    pub published_then : publish store text lib uploaded_in remote proposal ≡ (r, after_it)

  -- The two ways to succeed, and the way to lose, after the remote was read into the state `at`.
  pub data Finished (remote : RemoteState) (at : S) (merged : Merged) (message : Bytes) (time : ℕ)
      : Option (Summary T) → Type 0 where
    synchronized :
        (o : Summary T)
        → merged.tree ≡ remote.tree
        → (steps.apply_accept (remote_baseline remote) at).0 ≡ none
        → o.generation ≡ remote.generation
        → Finished remote at merged message time (some o)
    committed :
        (t : Tried remote merged.tree message time (ok tt)) (o : Summary T)
        → ¬ (merged.tree ≡ remote.tree)
        → (steps.accept t.proposal.baseline t.after_it).0 ≡ none
        → o.generation ≡ t.proposal.baseline.remote_generation
        → Finished remote at merged message time (some o)
    lost_race :
        Tried remote merged.tree message time (err PublishError.cas_lost)
        → ¬ (merged.tree ≡ remote.tree)
        → Finished remote at merged message time none

  module _ (remote : RemoteState) (message : Bytes) (time : ℕ) where
    module _ (tree : Oid) where
      pub record Ready (p : Proposal) (u : S) : Type 0 where
        pub before : S
        pub chosen : Chosen remote tree message time p
        pub uploaded_first :
            upload_proposal steps repo store uploads digest text lib p before ≡ (ok tt, u)

      compaction-Ready :
          (ids : Ids) (inc q : Proposal) (cp : Option Uuid) (s u : S)
          → build_proposal repo remote tree message time ids.publication ids.checkpoint ≡ ok inc
          → inc.checkpoint_id ≡ none
          → (b : Result ProposalError (Option Proposal)) → build_compacting repo remote inc cp ≡ b
          → smaller_checkpoint steps repo store uploads digest text lib b s ≡ (ok q, u)
          → Ready q u
      compaction-Ready ids inc q cp s u made none_yet (err e) c h = absurd (ground arith)
      compaction-Ready ids inc q cp s u made none_yet (ok none) c h = absurd (ground arith)
      compaction-Ready ids inc q cp s u made none_yet (ok (some r)) c h =
          let (v, t, sent, given) =
            after-ok
              (wrapped AttemptError.not_uploaded
                (upload_proposal steps repo store uploads digest text lib r s))
              (λ v. give r) h in
          let same : r ≡ q = ground arith in
          let same_state : t ≡ u = ground arith in
          subst (λ p. Ready p u) same
            (record {
              before = s;
              chosen = Chosen.compacted ids inc cp made none_yet c;
              uploaded_first =
                  subst
                    (λ t. upload_proposal steps repo store uploads digest text lib r s ≡ (ok tt, t))
                    same_state (wrapped-ok AttemptError.not_uploaded _ v t sent);
            })

      pub uploaded-Ready :
          (ids : Ids) (p q : Proposal) (s u : S)
          → build_proposal repo remote tree message time ids.publication ids.checkpoint ≡ ok p
          → uploaded steps repo store uploads digest text lib remote p s ≡ (ok q, u)
          → Ready q u
      uploaded-Ready ids p q s u made h =
          on_upload p.checkpoint_id refl
            (upload_proposal steps repo store uploads digest text lib p s) refl h
        where
          on_upload :
              (cp : Option Uuid)
              → p.checkpoint_id ≡ cp
              → (r : Result StoreError (Unit {0}) × S)
              → upload_proposal steps repo store uploads digest text lib p s ≡ r
              → after_upload steps repo store uploads digest text lib remote p cp r ≡ (ok q, u)
              → Ready q u
          on_upload cp c (ok v, t) sent g =
              let same : p ≡ q = ground arith in
              let same_state : t ≡ u = ground arith in
              subst (λ p. Ready p u) same
                (record {
                  before = s;
                  chosen = Chosen.built ids made;
                  uploaded_first =
                      subst
                        (λ t.
                          upload_proposal steps repo store uploads digest text lib p s ≡ (ok tt, t))
                        same_state sent;
                })
          on_upload none c (err StoreError.quota_exceeded, t) sent g =
              compaction-Ready ids p q (steps.new_ids t).compaction t u made c _ refl g
          on_upload (some id) c (err StoreError.quota_exceeded, t) sent g = absurd (ground arith)
          on_upload none c (err e, t) sent g = absurd (ground arith)
          on_upload (some id) c (err e, t) sent g = absurd (ground arith)
