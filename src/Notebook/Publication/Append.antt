-- ===== src/Notebook/Publication/Append.antt =====
-- A sound manifest with one more increment is sound.
use mathlib.Core.List.{Mem, Nodup, Nodup-cons, map-append, append_assoc, perm_middle}
use mathlib.Core.List.Perm
use mathlib.Core.Path.{subst}
use slivingdoc.Base.{
  ℕ, ◌+◌, ◌^◌, ◌≤◌, ◌<◌, ◌≡◌, sym, ap, ◌∙◌, List, [], ◌∷◌, ◌++◌, map, inl, inr, ◌⊎◌, In, In-append,
  In-append_left, In-append_right, arith,
}
use slivingdoc.Storage.Key.{Uuid, UuidLibrary, key_text}
use slivingdoc.Storage.Manifest.{
  Oid, Increment, Retained, Manifest, AreRetained, IsTail, IsConsistent, Continues, binding,
  retained_bindings, bindings, increment_keys, retained_keys, manifest_keys, final_generation,
  add64,
}
use slivingdoc.Notebook.Checkpoint.Prefix.{
  final_head-append, final_generation-append, IsTail-joined,
}
use slivingdoc.Notebook.Checkpoint.Valid.{IsSound}

AreRetained-grow :
    (limit limit' : ℕ) (rs : List Retained)
    → limit ≤ limit'
    → AreRetained limit rs
    → AreRetained limit' rs
AreRetained-grow limit limit' [] le v = tt
AreRetained-grow limit limit' (r ∷ rs) le v = (
  record {
    ordered = omega (arith, v.0.ordered);
    later = v.0.later;
    chain = v.0.chain;
    at_head = v.0.at_head;
  },
  v.1,
)

module _ (lib : UuidLibrary) (m : Manifest) (added : Increment) (sound : IsSound lib m)
    (fits : Continues m.head (final_generation m.checkpoint.through_generation m.increments) added)
    (new_key : ¬ Mem (key_text lib added.key) (manifest_keys lib m))
    (new_publication : (h : Oid) → ¬ In (added.publication, h) (bindings m))
    (room : m.generation + 2 < 2 ^ 64) where
  abbrev pub with_increment : Manifest
  with_increment = record m {
    generation = add64 m.generation 1;
    head = added.head;
    increments = m.increments ++ added ∷ [];
  }

  increments-IsTail :
      IsTail m.checkpoint.head m.checkpoint.through_generation (m.increments ++ added ∷ [])
  increments-IsTail =
      IsTail-joined m.checkpoint.head m.checkpoint.through_generation m.increments (added ∷ [])
        sound.valid.active.tail (rw (← sound.valid.at_head) fits, tt)

  keys_with : Nodup (manifest_keys lib with_increment)
  keys_with =
      let whole : Nodup (key_text lib added.key ∷ manifest_keys lib m) =
        Nodup-cons.1 (new_key, sound.valid.keys) in
      let old = increment_keys lib m.increments in
      let rest = retained_keys lib m.retained in
      let key = key_text lib added.key in
      let moved : Nodup (key_text lib m.checkpoint.key ∷ (old ++ (key ∷ rest))) =
        Perm.nodup (Perm.symm (perm_middle {a = key} (key_text lib m.checkpoint.key ∷ old) rest))
          whole in
      subst (λ ks. Nodup (key_text lib m.checkpoint.key ∷ ks))
        (sym (append_assoc old (key ∷ []) rest)
          ∙ ap (λ ks. ks ++ rest)
              (sym (map-append (λ (i : Increment). key_text lib i.key) m.increments (added ∷ []))))
        moved

  old_or_new :
      (b : Uuid × Oid) → In b (bindings with_increment) → In b (bindings m) ⊎ (b ≡ binding added)
  old_or_new b (inl p) = inl (inl p)
  old_or_new b (inr n) =
      elim (In-append b (map binding (m.increments ++ added ∷ [])) (retained_bindings m.retained)
        n) [
          | inl chain ↦ in_chain (rw (map-append binding m.increments (added ∷ [])) at chain)
          | inr old ↦ inl (
              inr (In-append_right b (map binding m.increments) (retained_bindings m.retained) old))
        ]
    where
      in_chain :
          In b (map binding m.increments ++ binding added ∷ [])
          → In b (bindings m) ⊎ (b ≡ binding added)
      in_chain c = elim (In-append b (map binding m.increments) (binding added ∷ []) c) [
        | inl old ↦
            inl
              (inr (In-append_left b (map binding m.increments) (retained_bindings m.retained) old))
        | inr (inl here) ↦ inr here
        | inr (inr none) ↦ absurd none
      ]

  IsConsistent-with : IsConsistent (bindings with_increment)
  IsConsistent-with u h h' a b = both (old_or_new (u, h) a) (old_or_new (u, h') b)
    where
      both :
          In (u, h) (bindings m) ⊎ ((u, h) ≡ binding added)
          → In (u, h') (bindings m) ⊎ ((u, h') ≡ binding added)
          → h ≡ h'
      both (inl p) (inl q) = sound.valid.publications u h h' p q
      both (inl p) (inr q) = absurd (
          new_publication h
            (subst (λ v. In (v, h) (bindings m)) (ap (λ (t : Uuid × Oid). t.0) q) p))
      both (inr p) (inl q) = absurd (
          new_publication h'
            (subst (λ v. In (v, h') (bindings m)) (ap (λ (t : Uuid × Oid). t.0) p) q))
      both (inr p) (inr q) = ap (λ (t : Uuid × Oid). t.1) p ∙ sym (ap (λ (t : Uuid × Oid). t.1) q)

  pub with_increment-IsSound : IsSound lib with_increment
  with_increment-IsSound = record {
    valid = record {
      generation = omega arith;
      active = record {
        stored = sound.valid.active.stored;
        own_key = sound.valid.active.own_key;
        tail = increments-IsTail;
      };
      at_head = sym (final_head-append m.checkpoint.head m.increments (added ∷ []));
      cutoff = omega (arith, sound.valid.cutoff);
      retained =
          AreRetained-grow (add64 m.generation 1) _ m.retained (omega arith) sound.valid.retained;
      keys = keys_with;
      ids = sound.valid.ids;
      publications = IsConsistent-with;
    };
    reached = omega (
      arith,
      sound.reached,
      fits.consecutive,
      final_generation-append m.checkpoint.through_generation m.increments (added ∷ []),
    );
  }
