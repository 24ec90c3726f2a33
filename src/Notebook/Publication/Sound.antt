-- ===== src/Notebook/Publication/Sound.antt =====
-- What a commit of internal/notebook/commit.go proposes is a sound manifest for the next generation.
use mathlib.Core.Path.{subst}
use slivingdoc.Base.{
  ℕ, ◌<◌, ◌≡◌, refl, sym, Bool-cases, [], ◌∷◌, ◌++◌, inl, inr, ◌⊎◌, length, arith, Option, none,
  some, Bytes, Result, ok, ◌>>=◌, require-ok, nat_eq, leb,
}
use slivingdoc.Storage.Key.{Uuid, UuidLibrary}
use slivingdoc.Storage.Manifest.{Oid, Increment, add64}
use slivingdoc.Notebook.Checkpoint.{Pack}
use slivingdoc.Notebook.Publication.{
  Repository, RemoteState, Proposal, ProposalError, obtain, first_proposal, increment_proposal,
  compacting_proposal, build_first, build_increment, build_proposal, build_compacting,
  referenced_size,
}
use slivingdoc.Notebook.Publication.Next.{
  IsAccepted, IsNewPublication, IsNext, IsCompacted, first-IsNext, increment-IsNext,
  compacting-IsNext,
}

-- A pack file has a header, so no exported pack is empty.
pub record HasPacks (repo : Repository) : Type 0 where
  pub checkpoint_filled :
      (head : Oid) (pack : Pack)
      → repo.export_checkpoint head ≡ some pack
      → 0 < length pack.contents
  pub increment_filled :
      (head base : Oid) (pack : Pack)
      → repo.export_increment head base ≡ some pack
      → 0 < length pack.contents

pub obtain-ok :
    {A B : Type 0} (e : ProposalError) (o : Option A) (next : A → Result ProposalError B) {b : B}
    → (obtain e o >>= next) ≡ ok b
    → (a : A) × (o ≡ some a) × (next a ≡ ok b)
unfolding obtain
obtain-ok e (some a) next p = (a, refl, p)
obtain-ok e none next p = cc

module _ (repo : Repository) where
  -- A commit without parents, published as a checkpoint alone.
  pub record IsRoot (tree message : Bytes) (time : ℕ) (p : Proposal) : Type 0 where
    pub made : repo.create_commit message [] tree time ≡ some p.manifest.head
    pub exported : repo.export_checkpoint p.manifest.head ≡ some p.pack
    pub based : p.manifest.checkpoint.head ≡ p.manifest.head
    pub alone : p.manifest.increments ≡ []
    pub first_generation : p.manifest.generation ≡ 1

  -- A commit on the remote head, published as one more increment.
  pub record IsGrown (remote : RemoteState) (tree message : Bytes) (time : ℕ) (p : Proposal)
      : Type 0 where
    pub made : repo.create_commit message (remote.head ∷ []) tree time ≡ some p.manifest.head
    pub exported : repo.export_increment p.manifest.head remote.head ≡ some p.pack
    pub added : Increment
    pub appended : p.manifest.increments ≡ remote.manifest.increments ++ added ∷ []
    pub on_parent : added.parent ≡ remote.head
    pub to_head : added.head ≡ p.manifest.head
    pub same_checkpoint : p.manifest.checkpoint ≡ remote.manifest.checkpoint
    pub next_generation : p.manifest.generation ≡ add64 remote.generation 1

  abbrev pub IsMade : RemoteState → Bytes → Bytes → ℕ → Proposal → Type 0
  IsMade remote tree message time p =
      (remote.generation ≡ 0 → IsRoot tree message time p)
      × (¬ (remote.generation ≡ 0) → IsGrown remote tree message time p)

  abbrev given : Proposal → Result ProposalError Proposal
  given p = ok p

  given-injective : (q p : Proposal) → given q ≡ ok p → q ≡ p
  given-injective q p e = ground arith

  build_first-IsRoot :
      (tree message : Bytes) (time : ℕ) (u : Uuid) (cp : Option Uuid) (p : Proposal)
      → build_first repo tree message time u cp ≡ ok p
      → IsRoot tree message time p
  unfolding build_first
  build_first-IsRoot tree message time u cp p h =
      let (head, made, h1) =
        obtain-ok ProposalError.no_commit (repo.create_commit message [] tree time) _ h in
      let (pack, exported, h2) =
        obtain-ok ProposalError.no_checkpoint_pack (repo.export_checkpoint head) _ h1 in
      let (marked, h3) = require-ok (repo.mark_shallow head) ProposalError.no_boundary _ h2 in
      let (id, new_id, h4) = obtain-ok ProposalError.no_checkpoint_id cp _ h3 in
      subst (IsRoot tree message time) (given-injective (first_proposal u id head pack tree) p h4)
        (record {
          made = made;
          exported = exported;
          based = refl;
          alone = refl;
          first_generation = refl;
        })

  build_increment-IsGrown :
      (remote : RemoteState) (tree message : Bytes) (time : ℕ) (u : Uuid) (p : Proposal)
      → build_increment repo remote tree message time u ≡ ok p
      → IsGrown remote tree message time p
  unfolding build_increment
  build_increment-IsGrown remote tree message time u p h =
      let (head, made, h1) =
        obtain-ok ProposalError.no_commit (repo.create_commit message (remote.head ∷ []) tree time)
          _ h in
      let (pack, exported, h2) =
        obtain-ok ProposalError.no_increment_pack (repo.export_increment head remote.head) _ h1 in
      subst (IsGrown remote tree message time)
        (given-injective (increment_proposal remote u head pack tree) p h2)
        (record {
          made = made;
          exported = exported;
          added = _;
          appended = refl;
          on_parent = refl;
          to_head = refl;
          same_checkpoint = refl;
          next_generation = refl;
        })

  pub proposal-IsMade :
      (remote : RemoteState) (tree message : Bytes) (time : ℕ) (u : Uuid) (cp : Option Uuid)
      (p : Proposal)
      → build_proposal repo remote tree message time (some u) cp ≡ ok p
      → IsMade remote tree message time p
  unfolding build_proposal obtain
  proposal-IsMade remote tree message time u cp p h = (
    λ zero_generation.
        build_first-IsRoot tree message time u cp p (ground (arith, h, zero_generation)),
    λ grown. build_increment-IsGrown remote tree message time u p (ground (arith, h, grown)),
  )

module _ (repo : Repository) where
  -- A compaction publishes one checkpoint, under the generation of the increment.
  pub record IsAlone (inc p : Proposal) : Type 0 where
    pub no_tail : p.manifest.increments ≡ []
    pub same_generation : p.manifest.generation ≡ inc.manifest.generation

  pub compacting-IsAlone :
      (remote : RemoteState) (inc p : Proposal) (cp : Option Uuid)
      → build_compacting repo remote inc cp ≡ ok (some p)
      → IsAlone inc p
  unfolding build_compacting
  compacting-IsAlone remote inc p cp h =
      let (pack, exported, h1) =
        obtain-ok ProposalError.no_checkpoint_pack (repo.export_checkpoint inc.manifest.head) _ h in
      elim (Bool-cases (leb (referenced_size remote.manifest) (length pack.contents))) [
        | inl large ↦ absurd (ground arith)
        | inr small ↦
            let (id, new_id, h2) =
              obtain-ok ProposalError.no_checkpoint_id cp
                (λ cp. smaller (compacting_proposal inc cp pack)) (ground arith) in
            subst (IsAlone inc) (smaller-injective (compacting_proposal inc id pack) h2)
              (record { no_tail = refl; same_generation = refl })
      ]
    where
      smaller : Proposal → Result ProposalError (Option Proposal)
      smaller p = ok (some p)

      smaller-injective : (q : Proposal) → smaller q ≡ ok (some p) → q ≡ p
      smaller-injective q e = ground arith

module _ (lib : UuidLibrary) where
  module _ (repo : Repository) (packs : HasPacks repo) where
    abbrev returned : Proposal → Result ProposalError Proposal
    returned p = ok p

    abbrev compacted : Proposal → Result ProposalError (Option Proposal)
    compacted p = ok (some p)

    is_returned :
        (generation : ℕ) (u : Uuid) (q p : Proposal)
        → returned q ≡ ok p
        → IsNext lib generation u q
        → IsNext lib generation u p
    is_returned generation u q p e next = subst (λ t. IsNext lib generation u t) (ground arith) next

    build_first-IsNext :
        (tree message : Bytes) (time : ℕ) (u : Uuid) (cp : Option Uuid) (p : Proposal)
        → build_first repo tree message time u cp ≡ ok p
        → IsNext lib 0 u p
    unfolding build_first
    build_first-IsNext tree message time u cp p h =
        let (head, made, h1) =
          obtain-ok ProposalError.no_commit (repo.create_commit message [] tree time) _ h in
        let (pack, exported, h2) =
          obtain-ok ProposalError.no_checkpoint_pack (repo.export_checkpoint head) _ h1 in
        let (marked, h3) = require-ok (repo.mark_shallow head) ProposalError.no_boundary _ h2 in
        let (id, new_id, h4) = obtain-ok ProposalError.no_checkpoint_id cp _ h3 in
        is_returned 0 u (first_proposal u id head pack tree) p h4
          (first-IsNext lib u id head tree pack (packs.checkpoint_filled head pack exported))

    build_increment-IsNext :
        (remote : RemoteState) (tree message : Bytes) (time : ℕ) (u : Uuid) (p : Proposal)
        → IsAccepted lib remote
        → IsNewPublication lib remote.manifest u
        → build_increment repo remote tree message time u ≡ ok p
        → IsNext lib remote.generation u p
    unfolding build_increment
    build_increment-IsNext remote tree message time u p accepted new h =
        let (head, made, h1) =
          obtain-ok ProposalError.no_commit
            (repo.create_commit message (remote.head ∷ []) tree time) _ h in
        let (pack, exported, h2) =
          obtain-ok ProposalError.no_increment_pack (repo.export_increment head remote.head) _ h1 in
        is_returned remote.generation u (increment_proposal remote u head pack tree) p h2 (
          increment-IsNext lib remote u head tree pack
            (packs.increment_filled head remote.head pack exported) accepted new)

    pub proposal-IsNext :
        (remote : RemoteState) (tree message : Bytes) (time : ℕ) (u : Uuid) (cp : Option Uuid)
        (p : Proposal)
        → (remote.generation ≡ 0) ⊎ (IsAccepted lib remote × IsNewPublication lib remote.manifest u)
        → build_proposal repo remote tree message time (some u) cp ≡ ok p
        → IsNext lib remote.generation u p
    unfolding build_proposal obtain
    proposal-IsNext remote tree message time u cp p (inl empty) h =
        subst (λ g. IsNext lib g u p) (sym empty)
          (build_first-IsNext tree message time u cp p (ground arith))
    proposal-IsNext remote tree message time u cp p (inr (accepted, new)) h =
        build_increment-IsNext remote tree message time u p accepted new
          (ground (arith, accepted.generation, accepted.sound.valid.generation))

    -- A built proposal has a sound manifest for the next generation, and the manifest binds the new
    -- publication to its head. Where the remote generation is 0, the head is a new root commit of the
    -- tree, and the manifest is a checkpoint of it alone. Otherwise the head is a new commit of the
    -- tree whose one parent is the remote head, and the manifest keeps the remote's checkpoint and
    -- increments and adds one increment, from the remote head to the new one; the remote's manifest
    -- is accepted and sound, the id is new to it, and the generation counter has room. Exported packs
    -- are not empty.
    pub build_proposal-IsNext :
        (remote : RemoteState) (tree message : Bytes) (time : ℕ) (u : Uuid) (cp : Option Uuid)
        (p : Proposal)
        → (remote.generation ≡ 0) ⊎ (IsAccepted lib remote × IsNewPublication lib remote.manifest u)
        → build_proposal repo remote tree message time (some u) cp ≡ ok p
        → IsNext lib remote.generation u p × IsMade repo remote tree message time p
    build_proposal-IsNext remote tree message time u cp p starts h = (
      proposal-IsNext remote tree message time u cp p starts h,
      proposal-IsMade repo remote tree message time u cp p h,
    )

    -- A compacting proposal made of an increment proposal publishes the same head and publication in
    -- a sound manifest for the same generation, with an empty tail and nothing retained, and its pack
    -- is smaller than what the remote manifest references. Exported packs are not empty.
    pub build_compacting-IsNext :
        (remote : RemoteState) (generation : ℕ) (inc p : Proposal) (cp : Option Uuid)
        → IsNext lib generation inc.publication inc
        → build_compacting repo remote inc cp ≡ ok (some p)
        → IsCompacted lib remote generation inc p
    unfolding build_compacting
    build_compacting-IsNext remote generation inc p cp next h =
        let (pack, exported, h1) =
          obtain-ok ProposalError.no_checkpoint_pack (repo.export_checkpoint inc.manifest.head) _
            h in
        elim (Bool-cases (leb (referenced_size remote.manifest) (length pack.contents))) [
          | inl large ↦ absurd (ground arith)
          | inr small ↦
              let (id, new_id, h2) =
                obtain-ok ProposalError.no_checkpoint_id cp
                  (λ cp. compacted (compacting_proposal inc cp pack)) (ground arith) in
              subst (λ t. IsCompacted lib remote generation inc t)
                (same_proposal (compacting_proposal inc id pack) h2)
                (record {
                  next =
                      compacting-IsNext lib generation inc.publication id inc pack
                        (packs.checkpoint_filled inc.manifest.head pack exported) refl next;
                  publication_is = refl;
                  head_is = refl;
                  smaller = ground arith;
                  no_tail = refl;
                  none_retained = refl;
                })
        ]
      where
        same_proposal : (q : Proposal) → compacted q ≡ ok (some p) → q ≡ p
        same_proposal q e = ground arith
