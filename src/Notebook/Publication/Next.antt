-- ===== src/Notebook/Publication/Next.antt =====
-- The manifests that internal/notebook/commit.go proposes follow a sound manifest soundly.
use mathlib.Core.List.{Mem, Nodup, Nodup-cons, not-mem-nil, Nodup-nil}
use mathlib.Core.Path.{subst}
use slivingdoc.Base.{
  ℕ, ◌+◌, ◌^◌, ◌≤◌, ◌<◌, ◌≡◌, refl, sym, ap, ◌∙◌, [], ◌∷◌, ◌++◌, map, inl, inr, In, In-append_left,
  In-append_right, In-map, length, arith, Bytes, nat_eq,
}
use slivingdoc.Storage.Key.{Uuid, UuidLibrary, PackKind, key_text}
use slivingdoc.Storage.Manifest.{
  Oid, Increment, Manifest, Continues, IsConsistent, binding, bindings, manifest_keys,
  final_generation, add64,
}
use slivingdoc.Notebook.Checkpoint.{Pack}
use slivingdoc.Notebook.Checkpoint.Prefix.{final_generation-IsTail}
use slivingdoc.Notebook.Checkpoint.Valid.{IsSound}
use slivingdoc.Notebook.Publication.{
  RemoteState, Proposal, first_proposal, increment_proposal, compacting_proposal,
  increment_generation, referenced_size,
}
use slivingdoc.Notebook.Publication.Append.{with_increment-IsSound}
use slivingdoc.Notebook.Publication.Search.{IsBound}

module _ (lib : UuidLibrary) where
  -- The state of a remote whose manifest was read and accepted.
  pub record IsAccepted (remote : RemoteState) : Type 0 where
    pub sound : IsSound lib remote.manifest
    pub generation : remote.generation ≡ remote.manifest.generation
    pub head : remote.head ≡ remote.manifest.head
    pub room : remote.generation + 2 < 2 ^ 64

  -- An id that the manifest does not bind, and whose increment key it does not name.
  pub record IsNewPublication (m : Manifest) (u : Uuid) : Type 0 where
    pub unbound : ¬ IsBound u (bindings m)
    pub new_key :
        ¬ Mem
          (key_text lib
            (record { kind = PackKind.increment; generation = increment_generation m; id = u }))
          (manifest_keys lib m)

  -- What a proposal must be: a sound manifest, one generation on, which binds the publication.
  pub record IsNext (generation : ℕ) (u : Uuid) (p : Proposal) : Type 0 where
    pub sound : IsSound lib p.manifest
    pub generation_is : p.manifest.generation ≡ generation + 1
    pub baseline_is : p.baseline.remote_generation ≡ p.manifest.generation
    pub head_is : p.baseline.head ≡ p.manifest.head
    pub bound : In (u, p.manifest.head) (bindings p.manifest)
    pub reached : p.key.generation ≤ p.manifest.generation

  -- What a compaction must be: the next manifest for the same publication, of one smaller pack.
  pub record IsCompacted (remote : RemoteState) (generation : ℕ) (inc p : Proposal) : Type 0 where
    pub next : IsNext generation inc.publication p
    pub publication_is : p.publication ≡ inc.publication
    pub head_is : p.manifest.head ≡ inc.manifest.head
    pub smaller : length p.pack.contents < referenced_size remote.manifest
    pub no_tail : p.manifest.increments ≡ []
    pub none_retained : p.manifest.retained ≡ []

  single_key : (k : Bytes) → Nodup (k ∷ [])
  single_key k = Nodup-cons.1 (not-mem-nil, Nodup-nil)

  single_id : (u : Uuid) → Nodup (u ∷ [])
  single_id u = Nodup-cons.1 (not-mem-nil, Nodup-nil)

  single_binding : (b : Uuid × Oid) → IsConsistent (b ∷ [])
  single_binding b u h h' (inl p) (inl q) =
      ap (λ (t : Uuid × Oid). t.1) p ∙ sym (ap (λ (t : Uuid × Oid). t.1) q)
  single_binding b u h h' (inl p) (inr q) = absurd q
  single_binding b u h h' (inr p) q = absurd p

  pub first-IsNext :
      (u cp head tree : Bytes) (pack : Pack)
      → 0 < length pack.contents
      → IsNext 0 u (first_proposal u cp head pack tree)
  first-IsNext u cp head tree pack filled = record {
    sound = record {
      valid = record {
        generation = omega arith;
        active = record { stored = filled; own_key = refl; tail = tt };
        at_head = refl;
        cutoff = omega arith;
        retained = tt;
        keys = single_key _;
        ids = single_id _;
        publications = single_binding _;
      };
      reached = omega arith;
    };
    generation_is = refl;
    baseline_is = refl;
    head_is = refl;
    bound = inl refl;
    reached = omega arith;
  }

  pub increment-IsNext :
      (remote : RemoteState) (u head tree : Bytes) (pack : Pack)
      → 0 < length pack.contents
      → IsAccepted remote
      → IsNewPublication remote.manifest u
      → IsNext remote.generation u (increment_proposal remote u head pack tree)
  increment-IsNext remote u head tree pack filled accepted new = record {
    sound =
        subst
          (λ g. IsSound lib (record remote.manifest {
            generation = add64 g 1;
            head = head;
            increments = remote.manifest.increments ++ added ∷ [];
          }))
          (sym accepted.generation)
          (with_increment-IsSound lib remote.manifest added accepted.sound continues new.new_key
            (λ h b. new.unbound (h, b)) (omega (arith, accepted.generation, accepted.room)));
    generation_is = omega (arith, accepted.room);
    baseline_is = refl;
    head_is = refl;
    bound = inr (
        In-append_left (u, head) (map binding (remote.manifest.increments ++ added ∷ [])) _
          (In-map binding added (remote.manifest.increments ++ added ∷ [])
            (In-append_right added remote.manifest.increments (added ∷ []) (inl refl))));
    reached = omega (arith, ends, accepted.sound.reached, accepted.generation, accepted.room);
  }
    where
      added : Increment
      added = record {
        generation = increment_generation remote.manifest;
        publication = u;
        parent = remote.head;
        head = head;
        key = record {
          kind = PackKind.increment;
          generation = increment_generation remote.manifest;
          id = u;
        };
        sha256 = pack.sha256;
        size = length pack.contents;
      }

      ends :
          final_generation remote.manifest.checkpoint.through_generation remote.manifest.increments
          ≡ remote.manifest.checkpoint.through_generation + length remote.manifest.increments
      ends =
          final_generation-IsTail remote.manifest.checkpoint.head
            remote.manifest.checkpoint.through_generation remote.manifest.increments
            accepted.sound.valid.active.tail

      continues :
          Continues remote.manifest.head
            (final_generation remote.manifest.checkpoint.through_generation
              remote.manifest.increments)
            added
      continues = record {
        stored = filled;
        consecutive =
            omega (arith, ends, accepted.sound.reached, accepted.generation, accepted.room);
        bounded = omega arith;
        on_parent = accepted.head;
        own_key = refl;
      }

  pub compacting-IsNext :
      (generation : ℕ) (u cp : Uuid) (inc : Proposal) (pack : Pack)
      → 0 < length pack.contents
      → inc.publication ≡ u
      → IsNext generation u inc
      → IsNext generation u (compacting_proposal inc cp pack)
  compacting-IsNext generation u cp inc pack filled same next = record {
    sound = record {
      valid = record {
        generation = next.sound.valid.generation;
        active = record { stored = filled; own_key = refl; tail = tt };
        at_head = refl;
        cutoff = next.reached;
        retained = tt;
        keys = single_key _;
        ids = single_id _;
        publications = single_binding _;
      };
      reached = next.reached;
    };
    generation_is = next.generation_is;
    baseline_is = next.baseline_is;
    head_is = next.head_is;
    bound = inl (ap (λ v. (v, inc.manifest.head)) (sym same));
    reached = next.reached;
  }
