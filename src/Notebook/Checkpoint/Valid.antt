-- ===== src/Notebook/Checkpoint/Valid.antt =====
-- The compaction of a valid manifest is a valid manifest for the same state.
use mathlib.Core.List.{Mem, Nodup, Nodup-cons, map-append}
use mathlib.Core.List.Perm
use mathlib.Core.List.Nodup
use mathlib.Core.List.Sublist
use mathlib.Core.Path.{subst}
use slivingdoc.Base.{
  ℕ, ◌+◌, ◌^◌, ◌≤◌, ◌<◌, ◌≡◌, refl, sym, ap, ◌∙◌, true, some, List, ◌∷◌, ◌++◌, map, inl, inr, In,
  In-append, In-append_left, In-append_right, In-map, length, take, drop, take_append_drop, arith,
}
use slivingdoc.Storage.Key.{Uuid, UuidLibrary, Key, PackKind, key_text}
use slivingdoc.Storage.Manifest.{
  Oid, Increment, Retained, Manifest, AreRetained, IsTail, IsValid, binding, chain_bindings,
  retained_bindings, bindings, increment_keys, retained_keys, manifest_keys, checkpoint_ids,
  final_head, final_generation, add64,
}
use slivingdoc.Notebook.Checkpoint.{
  Pack, CheckpointPlan, plan_checkpoint, prefix_present, compact_manifest,
}
use slivingdoc.Notebook.Checkpoint.Prefix.{
  IsPrefix, plan-IsPrefix, final_head-append, final_generation-append, IsTail-append,
  final_generation-IsTail,
}
use slivingdoc.Notebook.Checkpoint.Unique.{
  retained_keys-take, ids-take, retained_bindings-take, AreRetained-take, compacted-perm,
}

module _ (lib : UuidLibrary) where
  -- What the operations keep beyond `IsValid`: no increment passes the manifest's generation.
  pub record IsSound (m : Manifest) : Type 0 where
    pub valid : IsValid lib m
    pub reached : final_generation m.checkpoint.through_generation m.increments ≤ m.generation

  -- A pack for an id that no descriptor of the manifest has.
  pub record IsNewPack (m : Manifest) (id : Uuid) (key : Key) (pack : Pack) : Type 0 where
    pub filled : 0 < length pack.contents
    pub new_key : ¬ Mem (key_text lib key) (manifest_keys lib m)
    pub new_id : ¬ Mem id (checkpoint_ids m)

  module _ (n : ℕ) (latest : Manifest) (plan : CheckpointPlan) (id : Uuid) (key : Key) (pack : Pack)
      (sound : IsSound latest) (prefix : IsPrefix plan latest.increments)
      (names : key ≡ record { kind = PackKind.checkpoint; generation = plan.cutoff; id = id })
      (new : IsNewPack latest id key pack) (room : latest.generation + 2 < 2 ^ 64) where
    abbrev later : List Increment
    later = drop plan.count latest.increments

    abbrev gone : List Increment
    gone = take plan.count latest.increments

    abbrev next : Manifest
    next = compact_manifest n latest plan id key pack

    abbrev replaced : Retained
    replaced = record {
      retired_at_generation = add64 latest.generation 1;
      head = plan.head;
      checkpoint = latest.checkpoint;
      increments = gone;
    }

    tails :
        IsTail latest.checkpoint.head latest.checkpoint.through_generation gone
        × IsTail plan.head plan.cutoff later
    tails =
        let whole =
          rw (← take_append_drop plan.count latest.increments) at sound.valid.active.tail in
        let (front, back) = IsTail-append _ _ gone later whole in
        (front, rw (prefix.at_head _, prefix.at_cutoff _) at back)

    same_end :
        final_generation latest.checkpoint.through_generation latest.increments
        ≡ final_generation plan.cutoff later
    same_end =
        ap (final_generation latest.checkpoint.through_generation)
          (sym (take_append_drop plan.count latest.increments))
        ∙ final_generation-append latest.checkpoint.through_generation gone later
        ∙ ap (λ g. final_generation g later) (prefix.at_cutoff _)

    -- Compaction keeps the head.
    pub same_head : final_head plan.head later ≡ latest.head
    same_head = sym (
        sound.valid.at_head
        ∙ ap (final_head latest.checkpoint.head)
            (sym (take_append_drop plan.count latest.increments))
        ∙ final_head-append latest.checkpoint.head gone later
        ∙ ap (λ h. final_head h later) (prefix.at_head _))

    cutoff_reached : plan.cutoff ≤ latest.generation
    cutoff_reached = omega (
      arith,
      same_end,
      sound.reached,
      final_generation-IsTail plan.head plan.cutoff later tails.1,
    )

    compacted_keys : Nodup (manifest_keys lib next)
    unfolding compact_manifest
    compacted_keys =
        let whole : Nodup (key_text lib key ∷ manifest_keys lib latest) =
          Nodup-cons.1 (new.new_key, sound.valid.keys) in
        let split : increment_keys lib latest.increments
            ≡ increment_keys lib gone ++ increment_keys lib later =
          ap (increment_keys lib) (sym (take_append_drop plan.count latest.increments))
          ∙ map-append (λ (i : Increment). key_text lib i.key) gone later in
        let old = rw split at whole in
        Nodup.sublist
          (Sublist.cons-cons (key_text lib key) (
            Sublist.append (Sublist.refl (increment_keys lib later))
              (retained_keys-take lib n (replaced ∷ latest.retained))))
          (Perm.nodup
            (Perm.symm (
              compacted-perm (key_text lib key) (key_text lib latest.checkpoint.key)
                (increment_keys lib gone) (increment_keys lib later)
                (retained_keys lib latest.retained)))
            old)

    compacted_ids : Nodup (checkpoint_ids next)
    unfolding compact_manifest
    compacted_ids =
        Nodup.sublist (Sublist.cons-cons id (ids-take n (replaced ∷ latest.retained)))
          (Nodup-cons.1 (new.new_id, sound.valid.ids))

    publication_held : In (plan.publication, plan.head) (map binding gone)
    publication_held =
        rw (prefix.publication, prefix.head) (In-map binding prefix.last gone prefix.held)

    split_bindings : map binding latest.increments ≡ map binding gone ++ map binding later
    split_bindings =
        ap (map binding) (sym (take_append_drop plan.count latest.increments))
        ∙ map-append binding gone later

    held_gone : (b : Uuid × Oid) → In b (map binding gone) → In b (bindings latest)
    held_gone b m = inr (
        In-append_left b (map binding latest.increments) _
          (rw split_bindings (In-append_left b (map binding gone) _ m)))

    held_later : (b : Uuid × Oid) → In b (map binding later) → In b (bindings latest)
    held_later b m = inr (
        In-append_left b (map binding latest.increments) _
          (rw split_bindings (In-append_right b (map binding gone) _ m)))

    held_retained :
        (b : Uuid × Oid)
        → In b (chain_bindings latest.checkpoint gone ++ retained_bindings latest.retained)
        → In b (bindings latest)
    held_retained b (inl p) = inl p
    held_retained b (inr m) = elim (In-append b (map binding gone) _ m) [
      | inl g ↦ held_gone b g
      | inr r ↦ inr (In-append_right b (map binding latest.increments) _ r)
    ]

    -- Every binding of the compacted manifest was a binding before.
    bindings_kept : (b : Uuid × Oid) → In b (bindings next) → In b (bindings latest)
    unfolding compact_manifest
    bindings_kept b (inl p) =
        subst (λ t. In t (bindings latest)) (sym p)
          (held_gone (plan.publication, plan.head) publication_held)
    bindings_kept b (inr m) = elim (In-append b (map binding later) _ m) [
      | inl l ↦ held_later b l
      | inr r ↦ held_retained b (retained_bindings-take n (replaced ∷ latest.retained) b r)
    ]

    compacted_retained : AreRetained (add64 (add64 latest.generation 1) 1) next.retained
    unfolding compact_manifest
    compacted_retained = AreRetained-take n (replaced ∷ latest.retained) _ (
      record {
        ordered = omega arith;
        later = rw (prefix.at_cutoff _) (omega (arith, cutoff_reached));
        chain = record {
          stored = sound.valid.active.stored;
          own_key = sound.valid.active.own_key;
          tail = tails.0;
        };
        at_head = sym (prefix.at_head _);
      },
      sound.valid.retained,
    )

    compacted-IsValid : IsValid lib next
    unfolding compact_manifest
    compacted-IsValid = record {
      generation = omega arith;
      active = record { stored = new.filled; own_key = names; tail = tails.1 };
      at_head = refl;
      cutoff = omega (arith, cutoff_reached);
      retained = compacted_retained;
      keys = compacted_keys;
      ids = compacted_ids;
      publications = λ u h h' p q.
          sound.valid.publications u h h' (bindings_kept (u, h) p) (bindings_kept (u, h') q);
    }

    pub compacted-IsSound : IsSound next
    unfolding compact_manifest
    compacted-IsSound = record {
      valid = compacted-IsValid;
      reached = omega (arith, same_end, sound.reached);
    }

  -- A checkpoint over a sound manifest that still holds the planned prefix publishes a sound manifest,
  -- whose head and whose later increments are those of the manifest it replaces, and whose
  -- generation is the next one. Sound means that the manifest satisfies the cross-field rules, and
  -- beyond them that no increment's generation is past the manifest's own, which `validateManifest`
  -- does not test. The id is new, the pack is not empty, and the generation counter has room.
  pub compact_manifest-IsSound :
      (n : ℕ) (observed latest : Manifest) (threshold : ℕ) (plan : CheckpointPlan) (id : Uuid)
      (pack : Pack)
      → IsSound latest
      → plan_checkpoint observed threshold ≡ some plan
      → prefix_present plan latest ≡ true
      → IsNewPack latest id
          (record { kind = PackKind.checkpoint; generation = plan.cutoff; id = id })
          pack
      → latest.generation + 2 < 2 ^ 64
      → let next : Manifest =
          compact_manifest n latest plan id
            (record { kind = PackKind.checkpoint; generation = plan.cutoff; id = id })
            pack in
        IsSound next
        × (next.head ≡ latest.head)
        × (next.generation ≡ latest.generation + 1)
        × (next.increments ≡ drop plan.count latest.increments)
  unfolding compact_manifest
  compact_manifest-IsSound n observed latest threshold plan id pack sound planned present new room =
      let key : Key = record { kind = PackKind.checkpoint; generation = plan.cutoff; id = id } in
      let prefix = plan-IsPrefix observed latest threshold plan planned present in
      (
        compacted-IsSound n latest plan id key pack sound prefix refl new room,
        same_head n latest plan id key pack sound prefix refl new room,
        omega arith,
        refl,
      )
