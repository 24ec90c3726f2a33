-- ===== src/Storage/Manifest/Chains.antt =====
-- `checkChain` of internal/storage/manifest.go accepts exactly a chain that clashes with
-- nothing seen before, and then has seen all of it.
use mathlib.Core.List.{Nodup-cons}
use slivingdoc.Base.{
  ℕ, ◌≡◌, refl, List, [], ◌∷◌, map, bytes_eq, nat_eq, arith, ok, not-contains_iff, bind-ok,
  push_all, push_all-Nodup,
}
use slivingdoc.Storage.Key.{UuidLibrary, key_text}
use slivingdoc.Storage.Manifest.Types.{Oid, Checkpoint, Increment}
use slivingdoc.Storage.Manifest.Valid.{IsTail, IsChain, final_head, binding, increment_keys}
use slivingdoc.Storage.Manifest.Check.{
  Seen, check_increments, check_increment, check_checkpoint, check_chain,
}
use slivingdoc.Storage.Manifest.Seen.{
  IsClean, IsConsistent-cons, binds_of_consistent, push_all-IsConsistent,
}
use slivingdoc.Storage.Manifest.Steps.{
  with_increment, increment_unseen, increment_agrees, increment-Continues, increment_seen,
  increment_complete, with_checkpoint, checkpoint_unseen, checkpoint_new, checkpoint_agrees,
  checkpoint-IsDescribed, checkpoint_seen, checkpoint_complete,
}

module _ (lib : UuidLibrary) where
  abbrev pub with_increments : Seen → List Increment → Seen
  with_increments seen is = record {
    keys = push_all (increment_keys lib is) seen.keys;
    ids = seen.ids;
    heads = push_all (map binding is) seen.heads;
  }

  IsClean-increment :
      (head : Oid) (g : ℕ) (seen seen' : Seen) (i : Increment)
      → IsClean seen
      → check_increment lib head g seen i ≡ ok seen'
      → IsClean (with_increment lib seen i)
  IsClean-increment head g seen seen' i c h = record {
    keys = Nodup-cons.1 (
      (not-contains_iff seen.keys (key_text lib i.key)).0
          (increment_unseen lib head g seen seen' i h),
      c.keys,
    );
    ids = c.ids;
    heads =
        IsConsistent-cons i.publication i.head seen.heads c.heads
          (increment_agrees lib head g seen seen' i h);
  }

  abbrev Accepts : Oid → ℕ → Seen → List Increment → Oid → Seen → Type 0
  Accepts head g seen is h' seen' =
      IsTail head g is
      × (h' ≡ final_head head is)
      × (seen' ≡ with_increments seen is)
      × IsClean (with_increments seen is)

  pub increments_sound :
      (is : List Increment) (head h' : Oid) (g : ℕ) (seen seen' : Seen)
      → IsClean seen
      → check_increments lib head g seen is ≡ ok (h', seen')
      → Accepts head g seen is h' seen'
  unfolding check_increments
  increments_sound [] head h' g seen seen' c h = (tt, ground arith, ground arith, c)
  increments_sound (i ∷ is) head h' g seen seen' c h =
      let (s, first, others) = bind-ok (check_increment lib head g seen i) _ h in
      let same : s ≡ with_increment lib seen i = increment_seen lib head g seen s i first in
      let (tail, at, all, clean) =
        increments_sound is i.head h' i.generation (with_increment lib seen i) seen'
          (IsClean-increment head g seen s i c first) (rw same at others) in
      ((increment-Continues lib head g seen s i first, tail), at, all, clean)

  pub increments_complete :
      (is : List Increment) (head : Oid) (g : ℕ) (seen : Seen)
      → IsTail head g is
      → IsClean (with_increments seen is)
      → check_increments lib head g seen is ≡ ok (final_head head is, with_increments seen is)
  unfolding check_increments
  increments_complete [] head g seen t c = refl
  increments_complete (i ∷ is) head g seen t c =
      let keys = push_all-Nodup (increment_keys lib is) _ c.keys in
      let heads = push_all-IsConsistent (map binding is) _ c.heads in
      rw
        (increment_complete lib head g seen i t.0
          ((not-contains_iff seen.keys (key_text lib i.key)).1 (Nodup-cons.0 keys).0)
          (binds_of_consistent i.publication i.head seen.heads heads))
        (increments_complete is i.head i.generation (with_increment lib seen i) t.1 c)

  abbrev pub with_chain : Seen → Checkpoint → List Increment → Seen
  with_chain seen c is = with_increments (with_checkpoint lib seen c) is

  IsClean-checkpoint :
      (seen seen' : Seen) (c : Checkpoint)
      → IsClean seen
      → check_checkpoint lib seen c ≡ ok seen'
      → IsClean (with_checkpoint lib seen c)
  IsClean-checkpoint seen seen' c clean h = record {
    keys = Nodup-cons.1 (
      (not-contains_iff seen.keys (key_text lib c.key)).0 (checkpoint_unseen lib seen seen' c h),
      clean.keys,
    );
    ids =
        Nodup-cons.1
          ((not-contains_iff seen.ids c.id).0 (checkpoint_new lib seen seen' c h), clean.ids);
    heads =
        IsConsistent-cons c.publication c.head seen.heads clean.heads
          (checkpoint_agrees lib seen seen' c h);
  }

  pub IsChain-sound :
      (seen seen' : Seen) (c : Checkpoint) (is : List Increment) (h' : Oid)
      → IsClean seen
      → check_chain lib seen c is ≡ ok (h', seen')
      → IsChain c is
        × (h' ≡ final_head c.head is)
        × (seen' ≡ with_chain seen c is)
        × IsClean (with_chain seen c is)
  unfolding check_chain
  IsChain-sound seen seen' c is h' clean h =
      let (s, first, others) = bind-ok (check_checkpoint lib seen c) _ h in
      let same : s ≡ with_checkpoint lib seen c = checkpoint_seen lib seen s c first in
      let d = checkpoint-IsDescribed lib seen s c first in
      let (tail, at, all, clean') =
        increments_sound is c.head h' c.through_generation (with_checkpoint lib seen c) seen'
          (IsClean-checkpoint seen s c clean first) (rw same at others) in
      (record { stored = d.stored; own_key = d.own_key; tail = tail }, at, all, clean')

  pub chain_complete :
      (seen : Seen) (c : Checkpoint) (is : List Increment)
      → IsChain c is
      → IsClean (with_chain seen c is)
      → check_chain lib seen c is ≡ ok (final_head c.head is, with_chain seen c is)
  unfolding check_chain
  chain_complete seen c is chain clean =
      let keys = push_all-Nodup (increment_keys lib is) _ clean.keys in
      let heads = push_all-IsConsistent (map binding is) _ clean.heads in
      rw
        (checkpoint_complete lib seen c (record { stored = chain.stored; own_key = chain.own_key })
          ((not-contains_iff seen.keys (key_text lib c.key)).1 (Nodup-cons.0 keys).0)
          ((not-contains_iff seen.ids c.id).1 (Nodup-cons.0 clean.ids).0)
          (binds_of_consistent c.publication c.head seen.heads heads))
        (increments_complete is c.head c.through_generation (with_checkpoint lib seen c) chain.tail
          clean)
