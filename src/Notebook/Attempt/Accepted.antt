-- ===== src/Notebook/Attempt/Accepted.antt =====
-- What `current` holds after an attempt of internal/notebook/commit.go that was published.
use mathlib.Core.Path.{subst}
use slivingdoc.Base.{ℕ, ◌≡◌, sym, ◌⊎◌, Option, nat_eq, Bytes, Result, ok}
use slivingdoc.Storage.Key.{UuidLibrary}
use slivingdoc.Storage.Manifest.{Sha256}
use slivingdoc.Storage.Store.{Held, ObjectStore, IsShared}
use slivingdoc.Storage.Upload.{UploadStore}
use slivingdoc.Storage.Current.{TextLibrary}
use slivingdoc.Notebook.Publication.{Repository, RemoteState, Proposal, build_proposal}
use slivingdoc.Notebook.Publication.Next.{IsAccepted, IsNewPublication, IsNext}
use slivingdoc.Notebook.Publication.Sound.{HasPacks, proposal-IsNext, build_compacting-IsNext}
use slivingdoc.Notebook.Publication.Ids.{build_proposal-publication, build_compacting-publication}
use slivingdoc.Notebook.Publish.{PublishError, current_key}
use slivingdoc.Notebook.Publish.Outcome.{
  Expected, Holds, Written, Records, Outcome, publish-Outcome,
}
use slivingdoc.Notebook.Attempt.{Ids, Steps}
use slivingdoc.Notebook.Attempt.Finished.{Chosen, Tried}

module _ (lib : UuidLibrary) (repo : Repository) (packs : HasPacks repo) {S D T : Type 0}
    (steps : Steps S D T) (store : ObjectStore S) (uploads : UploadStore S)
    (digest : Bytes → Sha256) (text : TextLibrary) where
  -- The remote state is empty, or it is an accepted one and the publication is new to it.
  abbrev pub Starts : RemoteState → Proposal → Type 0
  Starts remote p =
      (remote.generation ≡ 0)
      ⊎ (IsAccepted lib remote × IsNewPublication lib remote.manifest p.publication)

  built-IsNext :
      (remote : RemoteState) (tree message : Bytes) (time : ℕ) (ids : Ids) (p : Proposal)
      → build_proposal repo remote tree message time ids.publication ids.checkpoint ≡ ok p
      → Starts remote p
      → IsNext lib remote.generation p.publication p
  built-IsNext remote tree message time ids p made starts =
      proposal-IsNext lib repo packs remote tree message time p.publication ids.checkpoint p starts
        (rw
          (build_proposal-publication repo remote tree message time ids.publication ids.checkpoint p
            made)
          at made)

  Chosen-IsNext :
      (remote : RemoteState) (tree message : Bytes) (time : ℕ) (p : Proposal)
      → Chosen steps repo store uploads digest text lib remote tree message time p
      → Starts remote p
      → IsNext lib remote.generation p.publication p
  Chosen-IsNext remote tree message time p (Chosen.built ids made) starts =
      built-IsNext remote tree message time ids p made starts
  Chosen-IsNext remote tree message time p (Chosen.compacted ids inc cp made none_yet smaller)
        starts =
      let same = build_compacting-publication repo remote inc p cp smaller in
      let next = built-IsNext remote tree message time ids inc made (rw same at starts) in
      subst (λ u. IsNext lib remote.generation u p) (sym same)
        ((build_compacting-IsNext lib repo packs remote remote.generation inc p cp next
          smaller).next)

  -- What a published attempt tells of `current`: its manifest was written over the object that was
  -- observed, or a later look-up found a manifest that records the publication.
  pub data IsPublished (others : Option Held → Option Held → Type 0) (remote : RemoteState)
      (p : Proposal) (start finish : Option Held) : Type 0 where
    written :
        (before after : Option Held)
        → others start before
        → Expected remote before
        → Holds text lib p after
        → others after finish
        → IsPublished others remote p start finish
    seen_recorded :
        (seen : Option Held)
        → Written text lib others remote p start seen
        → Records text lib p.publication seen
        → others seen finish
        → IsPublished others remote p start finish

  -- An attempt that was published wrote its manifest over the object that it observed, or its write
  -- lost its response and a look-up found a manifest that records the publication. The manifest of
  -- the attempt, compacted or not, is sound, of the next generation, and binds the publication to its
  -- head. The store keeps the contract of conditional writes while other clients act between its
  -- calls, exported packs are not empty, and the remote state is empty, or it was accepted, its
  -- generation has room and the publication is new to it.
  pub Tried-IsPublished :
      (held : S → Bytes → Option Held) (others : Option Held → Option Held → Type 0)
      (remote : RemoteState) (tree message : Bytes) (time : ℕ)
      (t : Tried steps repo store uploads digest text lib remote tree message time (ok tt))
      → IsShared store held others
      → Starts remote t.proposal
      → IsPublished others remote t.proposal
          (held t.uploaded_in current_key)
          (held t.after_it current_key)
        × IsNext lib remote.generation t.proposal.publication t.proposal
  Tried-IsPublished held others remote tree message time t law starts = (
    on_outcome (
        subst
          (λ (r : Result PublishError (Unit {0}) × S).
            Outcome text lib others remote t.proposal (held t.uploaded_in current_key)
              (held r.1 current_key) r.0)
          t.published_then
          (publish-Outcome text lib others store held law remote t.proposal t.uploaded_in)),
    Chosen-IsNext remote tree message time t.proposal t.chosen starts,
  )
    where
      on_outcome :
          Outcome text lib others remote t.proposal
            (held t.uploaded_in current_key)
            (held t.after_it current_key)
            (ok tt)
          → IsPublished others remote t.proposal
              (held t.uploaded_in current_key)
              (held t.after_it current_key)
      on_outcome (Outcome.recorded seen w there since) =
          IsPublished.seen_recorded seen w there since
      on_outcome (Outcome.accepted before after until expected holds since) =
          IsPublished.written before after until expected holds since
