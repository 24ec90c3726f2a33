-- ===== src/Notebook/Publication/Ids.antt =====
-- The publication id that a proposal of internal/notebook/commit.go carries.
use slivingdoc.Base.{
  ℕ, ◌≡◌, refl, Bool-cases, inl, inr, Option, some, [], ◌∷◌, ◌==◌, nat_eq, Bytes, arith, Result, ok,
  require-ok, leb, length,
}
use slivingdoc.Storage.Key.{Uuid}
use slivingdoc.Notebook.Checkpoint.{Pack}
use slivingdoc.Notebook.Publication.{
  Repository, RemoteState, Proposal, ProposalError, build_first, build_increment, build_proposal,
  build_compacting, referenced_size, compacting_proposal, first_proposal, increment_proposal,
}
use slivingdoc.Notebook.Publication.Sound.{obtain-ok}

module _ (repo : Repository) where
  abbrev returned : Proposal → Result ProposalError Proposal
  returned p = ok p

  same_publication :
      (q p : Proposal) (u : Uuid) → q.publication ≡ u → returned q ≡ ok p → p.publication ≡ u
  same_publication q p u h e = ground (arith, h)

  build_first-publication :
      (tree message : Bytes) (time : ℕ) (u : Uuid) (cp : Option Uuid) (p : Proposal)
      → build_first repo tree message time u cp ≡ ok p
      → p.publication ≡ u
  unfolding build_first
  build_first-publication tree message time u cp p h =
      let (head, a, h1) =
        obtain-ok ProposalError.no_commit (repo.create_commit message [] tree time) _ h in
      let (pack, b, h2) =
        obtain-ok ProposalError.no_checkpoint_pack (repo.export_checkpoint head) _ h1 in
      let (c, h3) = require-ok (repo.mark_shallow head) ProposalError.no_boundary _ h2 in
      let (id, d, h4) = obtain-ok ProposalError.no_checkpoint_id cp _ h3 in
      same_publication (first_proposal u id head pack tree) p u refl h4

  build_increment-publication :
      (remote : RemoteState) (tree message : Bytes) (time : ℕ) (u : Uuid) (p : Proposal)
      → build_increment repo remote tree message time u ≡ ok p
      → p.publication ≡ u
  unfolding build_increment
  build_increment-publication remote tree message time u p h =
      let (head, a, h1) =
        obtain-ok ProposalError.no_commit (repo.create_commit message (remote.head ∷ []) tree time)
          _ h in
      let (pack, b, h2) =
        obtain-ok ProposalError.no_increment_pack (repo.export_increment head remote.head) _ h1 in
      same_publication (increment_proposal remote u head pack tree) p u refl h2

  -- The first id that was drawn is the publication.
  pub build_proposal-publication :
      (remote : RemoteState) (tree message : Bytes) (time : ℕ) (pub_id cp : Option Uuid)
      (p : Proposal)
      → build_proposal repo remote tree message time pub_id cp ≡ ok p
      → pub_id ≡ some p.publication
  unfolding build_proposal
  build_proposal-publication remote tree message time pub_id cp p h =
      let (u, drawn, h1) = obtain-ok ProposalError.no_publication_id pub_id _ h in
      let same : p.publication ≡ u = elim (Bool-cases (remote.generation == 0)) [
        | inl z ↦ build_first-publication tree message time u cp p (ground (arith, z, h1))
        | inr z ↦ build_increment-publication remote tree message time u p (ground (arith, z, h1))
      ] in
      ground (arith, drawn, same)

  abbrev returned_some : Proposal → Result ProposalError (Option Proposal)
  returned_some p = ok (some p)

  same_compaction :
      (inc p : Proposal) (id : Uuid) (pack : Pack)
      → returned_some (compacting_proposal inc id pack) ≡ ok (some p)
      → p.publication ≡ inc.publication
  same_compaction inc p id pack e = ground arith

  pub build_compacting-publication :
      (remote : RemoteState) (inc p : Proposal) (cp : Option Uuid)
      → build_compacting repo remote inc cp ≡ ok (some p)
      → p.publication ≡ inc.publication
  unfolding build_compacting
  build_compacting-publication remote inc p cp h =
      let (pack, a, h1) =
        obtain-ok ProposalError.no_checkpoint_pack (repo.export_checkpoint inc.manifest.head) _ h in
      elim (Bool-cases (leb (referenced_size remote.manifest) (length pack.contents))) [
        | inl large ↦ absurd (ground arith)
        | inr small ↦
            let (id, b, h2) =
              obtain-ok ProposalError.no_checkpoint_id cp
                (λ id. returned_some (compacting_proposal inc id pack)) (ground arith) in
            same_compaction inc p id pack h2
      ]
