-- ===== src/Storage/Manifest/Refines.antt =====
-- `validateManifest` of internal/storage/manifest.go decides the rules of architecture/storage.md.
use mathlib.Core.List.{Nodup, Nodup-nil, append-nil}
use mathlib.Core.List.Perm
use slivingdoc.Base.{
  ℕ, ◌≤◌, ◌<◌, ◌≡◌, refl, ◌∙◌, ◌↔◌, List, [], ◌∷◌, map, bytes_eq, nat_eq, bytes_beq_iff, arith,
  Result, ok, err, bind-ok, push_all, push_all-append, push_all-perm, push_all-Nodup, In, In-pushed,
  In-of-push_all, inl, inr,
}
use slivingdoc.Storage.Key.{Uuid, UuidLibrary}
use slivingdoc.Storage.Manifest.Types.{Oid, Retained, Manifest}
use slivingdoc.Storage.Manifest.Valid.{
  IsRetained, AreRetained, final_head, final_generation, chain_bindings, retained_bindings,
  bindings, chain_keys, retained_keys, manifest_keys, checkpoint_ids, IsConsistent, IsValid, add64,
}
use slivingdoc.Storage.Manifest.Check.{
  Seen, check_chain, check_retained_entry, check_retained, validate_manifest,
}
use slivingdoc.Storage.Manifest.Seen.{IsClean, push_all-IsConsistent}
use slivingdoc.Storage.Manifest.Chains.{with_chain, IsChain-sound, chain_complete}

module _ (lib : UuidLibrary) where
  abbrev with_retained : Seen → List Retained → Seen
  with_retained seen rs = record {
    keys = push_all (retained_keys lib rs) seen.keys;
    ids = push_all (map (λ (r : Retained). r.checkpoint.id) rs) seen.ids;
    heads = push_all (retained_bindings rs) seen.heads;
  }

  -- What one entry and then the rest show is what the longer list shows.
  with_retained-cons :
      (seen : Seen) (r : Retained) (rs : List Retained)
      → with_retained (with_chain lib seen r.checkpoint r.increments) rs
        ≡ with_retained seen (r ∷ rs)
  with_retained-cons seen r rs =
      rw
        (
          push_all-append (chain_keys lib r.checkpoint r.increments) (retained_keys lib rs)
              seen.keys,
          push_all-append (chain_bindings r.checkpoint r.increments) (retained_bindings rs)
              seen.heads,
        )
        refl

  IsClean-before :
      (seen : Seen) (rs : List Retained) → IsClean (with_retained seen rs) → IsClean seen
  IsClean-before seen rs c = record {
    keys = push_all-Nodup (retained_keys lib rs) _ c.keys;
    ids = push_all-Nodup (map (λ (r : Retained). r.checkpoint.id) rs) _ c.ids;
    heads = push_all-IsConsistent (retained_bindings rs) _ c.heads;
  }

  entry-chain :
      (limit : ℕ) (seen seen' : Seen) (r : Retained)
      → check_retained_entry lib limit seen r ≡ ok seen'
      → (h : Oid) × (check_chain lib seen r.checkpoint r.increments ≡ ok (h, seen')) × (r.head ≡ h)
  unfolding check_retained_entry
  entry-chain limit seen seen' r h = go (check_chain lib seen r.checkpoint r.increments) refl
    where
      go :
          (x : Result _ (Oid × Seen))
          → check_chain lib seen r.checkpoint r.increments ≡ x
          → (k : Oid) × (check_chain lib seen r.checkpoint r.increments ≡ ok (k, seen'))
            × (r.head ≡ k)
      go (ok (k, s)) p = (k, ground arith, ground (arith, bytes_beq_iff r.head k))
      go (err e) p = absurd (ground arith)

  entry-ordered :
      (limit : ℕ) (seen seen' : Seen) (r : Retained)
      → check_retained_entry lib limit seen r ≡ ok seen'
      → (r.retired_at_generation < limit)
        × (final_generation r.checkpoint.through_generation r.increments < r.retired_at_generation)
  unfolding check_retained_entry
  entry-ordered limit seen seen' r h = (ground arith, ground arith)

  entry_complete :
      (limit : ℕ) (seen : Seen) (r : Retained)
      → IsRetained limit r
      → IsClean (with_chain lib seen r.checkpoint r.increments)
      → check_retained_entry lib limit seen r ≡ ok (with_chain lib seen r.checkpoint r.increments)
  unfolding check_retained_entry
  entry_complete limit seen r v c =
      let run = chain_complete lib seen r.checkpoint r.increments v.chain c in
      let final = final_head r.checkpoint.head r.increments in
      let ordered = v.ordered in
      let later = v.later in
      let at : r.head ≡ final = v.at_head in
      ground (arith, run, at, ordered, later, bytes_beq_iff r.head final)

  retained_sound :
      (rs : List Retained) (limit : ℕ) (seen : Seen)
      → IsClean seen
      → check_retained lib limit seen rs ≡ ok tt
      → AreRetained limit rs × IsClean (with_retained seen rs)
  unfolding check_retained
  retained_sound [] limit seen c h = (tt, c)
  retained_sound (r ∷ rs) limit seen c h =
      let (s, first, others) = bind-ok (check_retained_entry lib limit seen r) _ h in
      let (k, run, at) = entry-chain limit seen s r first in
      let (chain, end, all, clean) = IsChain-sound lib seen s r.checkpoint r.increments k c run in
      let (ordered, later) = entry-ordered limit seen s r first in
      let (below, clean') =
        retained_sound rs r.retired_at_generation (with_chain lib seen r.checkpoint r.increments)
          clean (rw all at others) in
      (
        (record { ordered = ordered; later = later; chain = chain; at_head = at ∙ end }, below),
        rw (with_retained-cons seen r rs) at clean',
      )

  retained_complete :
      (rs : List Retained) (limit : ℕ) (seen : Seen)
      → AreRetained limit rs
      → IsClean (with_retained seen rs)
      → check_retained lib limit seen rs ≡ ok tt
  unfolding check_retained
  retained_complete [] limit seen v c = refl
  retained_complete (r ∷ rs) limit seen v c =
      let c' = rw (← with_retained-cons seen r rs) at c in
      rw (entry_complete limit seen r v.0 (IsClean-before _ rs c'))
        (retained_complete rs r.retired_at_generation _ v.1 c')

  abbrev unseen : Seen
  unseen = record { keys = []; ids = []; heads = [] }

  abbrev all_seen : Manifest → Seen
  all_seen m = with_retained (with_chain lib unseen m.checkpoint m.increments) m.retained

  all_seen_lem :
      (m : Manifest)
      → all_seen m ≡ record {
        keys = push_all (manifest_keys lib m) [];
        ids = push_all (checkpoint_ids m) [];
        heads = push_all (bindings m) [];
      }
  all_seen_lem m =
      rw
        (
          push_all-append (chain_keys lib m.checkpoint m.increments) (retained_keys lib m.retained)
              [],
          push_all-append (chain_bindings m.checkpoint m.increments) (retained_bindings m.retained)
              [],
        )
        refl

  Nodup-pushed : {A : Type 0} (xs : List A) → Nodup (push_all xs []) ↔ Nodup xs
  Nodup-pushed xs = rw append-nil at (Perm.Nodup-iff (push_all-perm xs []))

  IsClean-all_seen :
      (m : Manifest)
      → IsClean (all_seen m)
        ↔ (Nodup (manifest_keys lib m) × Nodup (checkpoint_ids m) × IsConsistent (bindings m))
  IsClean-all_seen m = (
    λ c.
        let c' = rw (all_seen_lem m) at c in
        (
          (Nodup-pushed (manifest_keys lib m)).0 c'.keys,
          (Nodup-pushed (checkpoint_ids m)).0 c'.ids,
          λ u h h' p q.
              c'.heads u h h' (In-pushed (u, h) (bindings m) [] p)
                (In-pushed (u, h') (bindings m) [] q),
        ),
    λ (keys, ids, heads). rw (all_seen_lem m) (record {
      keys = (Nodup-pushed (manifest_keys lib m)).1 keys;
      ids = (Nodup-pushed (checkpoint_ids m)).1 ids;
      heads = λ u h h' p q. heads u h h' (bound m (u, h) p) (bound m (u, h') q);
    }),
  )
    where
      bound : (m : Manifest) (b : Uuid × Oid) → In b (push_all (bindings m) []) → In b (bindings m)
      bound m b p = elim (In-of-push_all b (bindings m) [] p) [ inl q ↦ q | inr n ↦ absurd n ]

  validate-parts :
      (m : Manifest)
      → validate_manifest lib m ≡ ok tt
      → (h : Oid) × (s : Seen) × (check_chain lib unseen m.checkpoint m.increments ≡ ok (h, s))
        × (m.head ≡ h)
        × (check_retained lib (add64 m.generation 1) s m.retained ≡ ok tt)
  unfolding validate_manifest
  validate-parts m h = go (check_chain lib unseen m.checkpoint m.increments) refl
    where
      go :
          (x : Result _ (Oid × Seen))
          → check_chain lib unseen m.checkpoint m.increments ≡ x
          → (k : Oid) × (s : Seen) × (check_chain lib unseen m.checkpoint m.increments ≡ ok (k, s))
            × (m.head ≡ k)
            × (check_retained lib (add64 m.generation 1) s m.retained ≡ ok tt)
      go (ok (k, s)) p = (k, s, ground arith, ground (arith, bytes_beq_iff m.head k), ground arith)
      go (err e) p = absurd (ground arith)

  validate-numbers :
      (m : Manifest)
      → validate_manifest lib m ≡ ok tt
      → (0 < m.generation) × (m.checkpoint.through_generation ≤ m.generation)
  unfolding validate_manifest
  validate-numbers m h = (ground arith, ground arith)

  IsClean-unseen : IsClean unseen
  IsClean-unseen = record { keys = Nodup-nil; ids = Nodup-nil; heads = λ u h h' p. absurd p }

  validate_sound : (m : Manifest) → validate_manifest lib m ≡ ok tt → IsValid lib m
  validate_sound m h =
      let (k, s, run, at, rest) = validate-parts m h in
      let (positive, cutoff) = validate-numbers m h in
      let (chain, end, all, clean) =
        IsChain-sound lib unseen s m.checkpoint m.increments k IsClean-unseen run in
      let (retained, clean') =
        retained_sound m.retained (add64 m.generation 1)
          (with_chain lib unseen m.checkpoint m.increments) clean (rw all at rest) in
      let (keys, ids, heads) = (IsClean-all_seen m).0 clean' in
      record {
        generation = positive;
        active = chain;
        at_head = at ∙ end;
        cutoff = cutoff;
        retained = retained;
        keys = keys;
        ids = ids;
        publications = heads;
      }

  validate_complete : (m : Manifest) → IsValid lib m → validate_manifest lib m ≡ ok tt
  unfolding validate_manifest
  validate_complete m v =
      let clean = (IsClean-all_seen m).1 (v.keys, v.ids, v.publications) in
      let run =
        chain_complete lib unseen m.checkpoint m.increments v.active
          (IsClean-before _ m.retained clean) in
      let rest = retained_complete m.retained (add64 m.generation 1) _ v.retained clean in
      let final = final_head m.checkpoint.head m.increments in
      let at : m.head ≡ final = v.at_head in
      let positive = v.generation in
      let cutoff = v.cutoff in
      ground (arith, run, rest, at, positive, cutoff, bytes_beq_iff m.head final)

  -- `validateManifest` accepts a manifest exactly when it keeps every rule of the declarative
  -- specification `IsValid`: descriptors chained, keys and checkpoint ids without repetition, one
  -- head for each publication id, and retained generations in decreasing order.
  pub validate_manifest_iff : (m : Manifest) → (validate_manifest lib m ≡ ok tt) ↔ IsValid lib m
  validate_manifest_iff m = (validate_sound m, validate_complete m)
