-- ===== src/Notebook/History/Sound.antt =====
-- What holds of `current` in every interleaving of the writers of internal/notebook.
use mathlib.Core.Path.{subst}
use slivingdoc.Base.{
  ℕ, suc, ◌+◌, ◌^◌, ◌≤◌, ◌<◌, ◌≡◌, refl, sym, ap, ◌∙◌, arith, List, [], ◌∷◌, Bytes, length, nat_eq,
  take, drop, take_append_drop, some, true,
}
use slivingdoc.Storage.Key.{Uuid, UuidLibrary}
use slivingdoc.Storage.Manifest.{Manifest, IsValid, IsTail, add64, final_generation}
use slivingdoc.Storage.Manifest.Refines.{validate_manifest_iff}
use slivingdoc.Notebook.Checkpoint.{
  Pack, CheckpointPlan, plan_checkpoint, prefix_present, compact_manifest,
}
use slivingdoc.Notebook.Checkpoint.Prefix.{plan-IsPrefix, final_generation-append, IsTail-append}
use slivingdoc.Notebook.Checkpoint.Valid.{IsSound}
use slivingdoc.Notebook.Publication.{Repository, RemoteState, Proposal, accepted_state}
use slivingdoc.Notebook.Publication.Sound.{
  IsRoot, IsGrown, proposal-IsMade, IsAlone, compacting-IsAlone,
}
use slivingdoc.Notebook.History.{
  Log, IsEncoded, Unchanged, Build, Step, Reach, no_history, checkpoint_key,
}

module _ (lib : UuidLibrary) where
  -- A manifest that follows one of generation `g`.
  record IsNextSound (g : ℕ) (m : Manifest) : Type 0 where
    sound : IsSound lib m
    next : m.generation ≡ g + 1
    bounded : m.generation < 2 ^ 64

  add64_next : (g : ℕ) → g < 2 ^ 64 → 0 < add64 g 1 → add64 g 1 ≡ g + 1
  add64_next g bounded more = omega arith

  IsEncoded-IsNextSound :
      (g : ℕ) (m : Manifest)
      → g < 2 ^ 64
      → IsEncoded lib m
      → m.generation ≡ add64 g 1
      → (IsValid lib m
          → m.generation ≡ g + 1
          → final_generation m.checkpoint.through_generation m.increments ≤ m.generation)
      → IsNextSound g m
  IsEncoded-IsNextSound g m bounded encoded at_next reached =
      let valid = (validate_manifest_iff lib m).0 encoded in
      let next : m.generation ≡ g + 1 =
        at_next ∙ add64_next g bounded (omega (arith, valid.generation, at_next)) in
      record {
        sound = record { valid = valid; reached = reached valid next };
        next = next;
        bounded = omega (arith, at_next);
      }

  module _ (repo : Repository) where
    IsRoot-IsNextSound :
        (tree message : Bytes) (time : ℕ) (p : Proposal)
        → IsRoot repo tree message time p
        → IsEncoded lib p.manifest
        → IsNextSound 0 p.manifest
    IsRoot-IsNextSound tree message time p root encoded =
        IsEncoded-IsNextSound 0 p.manifest (omega arith) encoded root.first_generation
          (λ valid next.
            subst
              (λ is.
                final_generation p.manifest.checkpoint.through_generation is
                ≤ p.manifest.generation)
              (sym root.alone) valid.cutoff)

    IsGrown-IsNextSound :
        (remote : RemoteState) (tree message : Bytes) (time : ℕ) (p : Proposal)
        → IsGrown repo remote tree message time p
        → IsEncoded lib p.manifest
        → remote.generation < 2 ^ 64
        → IsSound lib remote.manifest
        → remote.generation ≡ remote.manifest.generation
        → IsNextSound remote.generation p.manifest
    IsGrown-IsNextSound remote tree message time p grown encoded bounded sound same =
        IsEncoded-IsNextSound remote.generation p.manifest bounded encoded grown.next_generation
          reached
      where
        through : ℕ
        through = remote.manifest.checkpoint.through_generation

        reached :
            IsValid lib p.manifest
            → p.manifest.generation ≡ remote.generation + 1
            → final_generation p.manifest.checkpoint.through_generation p.manifest.increments
              ≤ p.manifest.generation
        reached valid next =
            let tail =
              subst (λ c. IsTail c.head c.through_generation p.manifest.increments)
                grown.same_checkpoint valid.active.tail in
            let tail' =
              subst (λ is. IsTail remote.manifest.checkpoint.head through is) grown.appended tail in
            let (front, back) =
              IsTail-append remote.manifest.checkpoint.head through remote.manifest.increments
                (grown.added ∷ []) tail' in
            let end_is =
              ap (λ c. final_generation c.through_generation p.manifest.increments)
                grown.same_checkpoint
              ∙ ap (final_generation through) grown.appended
              ∙ final_generation-append through remote.manifest.increments (grown.added ∷ []) in
            omega (arith, end_is, back.0.consecutive, sound.reached, same, next)

    IsAlone-IsNextSound :
        (g : ℕ) (inc p : Proposal)
        → IsAlone repo inc p
        → IsEncoded lib p.manifest
        → g < 2 ^ 64
        → inc.manifest.generation ≡ add64 g 1
        → IsNextSound g p.manifest
    IsAlone-IsNextSound g inc p alone encoded bounded at_next =
        IsEncoded-IsNextSound g p.manifest bounded encoded (alone.same_generation ∙ at_next)
          (λ valid next.
            subst
              (λ is.
                final_generation p.manifest.checkpoint.through_generation is
                ≤ p.manifest.generation)
              (sym alone.no_tail) valid.cutoff)

  compact_manifest-IsNextSound :
      (n : ℕ) (planned read : Manifest) (threshold : ℕ) (plan : CheckpointPlan) (id : Uuid)
      (pack : Pack)
      → plan_checkpoint planned threshold ≡ some plan
      → prefix_present plan read ≡ true
      → IsEncoded lib (compact_manifest n read plan id (checkpoint_key plan id) pack)
      → read.generation < 2 ^ 64
      → IsSound lib read
      → IsNextSound read.generation (compact_manifest n read plan id (checkpoint_key plan id) pack)
  unfolding compact_manifest
  compact_manifest-IsNextSound n planned read threshold plan id pack made present encoded bounded
        sound =
      let prefix = plan-IsPrefix planned read threshold plan made present in
      let gone = take plan.count read.increments in
      let later = drop plan.count read.increments in
      let through = read.checkpoint.through_generation in
      let same_end =
        ap (final_generation through) (sym (take_append_drop plan.count read.increments))
        ∙ final_generation-append through gone later
        ∙ ap (λ g. final_generation g later) (prefix.at_cutoff through) in
      IsEncoded-IsNextSound read.generation
        (compact_manifest n read plan id (checkpoint_key plan id) pack) bounded encoded refl
        (λ valid next. omega (arith, same_end, sound.reached, next))

module _ (lib : UuidLibrary) (repo : Repository) {T : Type 0} (tag : Manifest → T) (retained : ℕ)
    (tells : (a b : Manifest) → tag a ≡ tag b → a ≡ b) where
  -- Every accepted manifest is sound, and its generation, which fits in 64 bits, is the number of
  -- manifests accepted so far.
  abbrev pub AreNumbered : List Manifest → Type 0
  AreNumbered [] = Unit {0}
  AreNumbered (m ∷ before) =
      IsSound lib m
      × (m.generation ≡ suc (length before))
      × (m.generation < 2 ^ 64)
      × AreNumbered before

  -- What is known of the manifest that a writer read and that is still stored.
  record IsStored (log : Log) (read : Manifest) : Type 0 where
    sound : IsSound lib read
    counted : read.generation ≡ length log.accepted
    bounded : read.generation < 2 ^ 64

  read-IsStored :
      (log : Log) (read stored : Manifest) (before : List Manifest)
      → Unchanged lib repo tag retained log read stored before
      → AreNumbered log.accepted
      → IsStored log read
  read-IsStored log read stored before still numbered =
      let same : stored ≡ read = sym (tells read stored still.same_tag) in
      let (sound, counted, bounded, rest) = subst AreNumbered still.stored_is numbered in
      subst (IsStored log) same (record {
        sound = sound;
        counted = counted ∙ sym (ap length still.stored_is);
        bounded = bounded;
      })

  accepted-AreNumbered :
      (log : Log) (g : ℕ) (m : Manifest)
      → g ≡ length log.accepted
      → IsNextSound lib g m
      → AreNumbered log.accepted
      → AreNumbered (m ∷ log.accepted)
  accepted-AreNumbered log g m counted next numbered =
      (next.sound, omega (arith, next.next, counted), next.bounded, numbered)

  Build-IsGrown :
      (log : Log) (read : Manifest) (etag tree : Bytes) (p : Proposal)
      (b : Build lib repo tag retained (accepted_state read etag tree) p)
      → IsStored log read
      → IsGrown repo (accepted_state read etag tree) b.tree b.message b.time p
  Build-IsGrown log read etag tree p b stored =
      (proposal-IsMade repo (accepted_state read etag tree) b.tree b.message b.time b.id
          b.checkpoint_id p b.built).1
        (λ z. omega (arith, z, stored.sound.valid.generation))

  -- A step accepts at most one manifest.
  Step-AreNumbered :
      {l m : Log} → Step lib repo tag retained l m → AreNumbered l.accepted → AreNumbered m.accepted
  Step-AreNumbered (Step.observe stored before q) numbered = numbered
  Step-AreNumbered {l = l} (Step.create_first remote p empty zero_generation b encoded) numbered =
      let root =
        (proposal-IsMade repo remote b.tree b.message b.time b.id b.checkpoint_id p b.built).0
          zero_generation in
      accepted-AreNumbered l 0 p.manifest (sym (ap length empty))
        (IsRoot-IsNextSound lib repo b.tree b.message b.time p root encoded) numbered
  Step-AreNumbered {l = l} (Step.commit read stored before etag tree p still b encoded) numbered =
      let known = read-IsStored l read stored before still numbered in
      accepted-AreNumbered l read.generation p.manifest known.counted
        (IsGrown-IsNextSound lib repo (accepted_state read etag tree) b.tree b.message b.time p
          (Build-IsGrown l read etag tree p b known) encoded known.bounded known.sound refl)
        numbered
  Step-AreNumbered {l = l}
        (Step.compact_commit read stored before etag tree inc p cp still b smaller encoded)
        numbered =
      let known = read-IsStored l read stored before still numbered in
      accepted-AreNumbered l read.generation p.manifest known.counted
        (IsAlone-IsNextSound lib repo read.generation inc p
          (compacting-IsAlone repo (accepted_state read etag tree) inc p cp smaller) encoded
          known.bounded (Build-IsGrown l read etag tree inc b known).next_generation)
        numbered
  Step-AreNumbered {l = l}
        (Step.checkpoint planned read stored before threshold plan id pack still made present
          encoded)
        numbered =
      let known = read-IsStored l read stored before still numbered in
      accepted-AreNumbered l read.generation _ known.counted
        (compact_manifest-IsNextSound lib retained planned read threshold plan id pack made present
          encoded known.bounded known.sound)
        numbered

  -- However the reads and the conditional writes of commits and checkpoints interleave, and whatever
  -- ids are drawn, every manifest that `current` was given satisfies the cross-field rules and has no
  -- increment past its generation, and its generation fits in 64 bits and is the number of manifests
  -- accepted up to it: no accepted manifest is lost and none is overwritten by a stale one. Every
  -- written manifest passed the check of `EncodeManifest`, and a write lands only where nothing was
  -- read and nothing is stored, or where the tag of what was read is the tag of what is stored. Tags
  -- tell manifests apart.
  pub Reach-AreNumbered :
      {l : Log}
      → Reach lib repo tag retained (no_history lib repo tag retained) l
      → AreNumbered l.accepted
  Reach-AreNumbered Reach.here = tt
  Reach-AreNumbered (Reach.next before step) = Step-AreNumbered step (Reach-AreNumbered before)
