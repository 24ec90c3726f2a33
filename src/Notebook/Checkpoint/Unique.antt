-- ===== src/Notebook/Checkpoint/Unique.antt =====
-- Compaction names no key and no checkpoint id twice, and binds no publication anew.
use mathlib.Core.List.{Perm, Sublist, append_assoc, nil-sublist, perm_append_comm}
use mathlib.Core.List.Perm
use mathlib.Core.List.Sublist
use slivingdoc.Base.{
  ℕ, zero, suc, List, [], ◌∷◌, ◌++◌, map, inl, inr, In, In-append, In-append_left, In-append_right,
  Bytes, take,
}
use slivingdoc.Storage.Key.{Uuid, UuidLibrary}
use slivingdoc.Storage.Manifest.{
  Oid, Retained, AreRetained, chain_bindings, retained_bindings, chain_keys, retained_keys,
}

module _ (lib : UuidLibrary) where
  pub retained_keys-take :
      (n : ℕ) (rs : List Retained) → Sublist (retained_keys lib (take n rs)) (retained_keys lib rs)
  unfolding take
  retained_keys-take zero rs = nil-sublist _
  retained_keys-take (suc n) [] = nil-sublist _
  retained_keys-take (suc n) (r ∷ rs) =
      Sublist.append (Sublist.refl (chain_keys lib r.checkpoint r.increments))
        (retained_keys-take n rs)

pub ids-take :
    (n : ℕ) (rs : List Retained)
    → Sublist
        (map (λ (r : Retained). r.checkpoint.id) (take n rs))
        (map (λ (r : Retained). r.checkpoint.id) rs)
unfolding take
ids-take zero rs = nil-sublist _
ids-take (suc n) [] = nil-sublist _
ids-take (suc n) (r ∷ rs) = Sublist.cons-cons r.checkpoint.id (ids-take n rs)

pub retained_bindings-take :
    (n : ℕ) (rs : List Retained) (b : Uuid × Oid)
    → In b (retained_bindings (take n rs))
    → In b (retained_bindings rs)
unfolding take
retained_bindings-take zero rs b m = absurd m
retained_bindings-take (suc n) [] b m = absurd m
retained_bindings-take (suc n) (r ∷ rs) b m =
    elim (In-append b (chain_bindings r.checkpoint r.increments) _ m) [
      | inl here ↦ In-append_left b (chain_bindings r.checkpoint r.increments) _ here
      | inr there ↦
          In-append_right b (chain_bindings r.checkpoint r.increments) _
            (retained_bindings-take n rs b there)
    ]

pub AreRetained-take :
    (n : ℕ) (rs : List Retained) (limit : ℕ) → AreRetained limit rs → AreRetained limit (take n rs)
unfolding take
AreRetained-take zero rs limit v = tt
AreRetained-take (suc n) [] limit v = tt
AreRetained-take (suc n) (r ∷ rs) limit v = (v.0, AreRetained-take n rs r.retired_at_generation v.1)

-- The keys of a compacted chain are a new key and the old keys in another order.
pub compacted-perm :
    (k c : Bytes) (p s r : List Bytes) → Perm (k ∷ (s ++ ((c ∷ p) ++ r))) (k ∷ (c ∷ (p ++ s)) ++ r)
compacted-perm k c p s r = Perm.cons k (
    Perm.trans (rw (← append_assoc s (c ∷ p) r) (Perm.refl _))
      (Perm.append_right r (perm_append_comm s (c ∷ p))))
