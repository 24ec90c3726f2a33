-- ===== src/Storage/Manifest/Seen.antt =====
-- The maps of `validateManifest` and what they stand for: `pubHeads` holds one head for each
-- publication id exactly as long as every look-up before a write agrees.
use mathlib.Core.List.{Nodup}
use slivingdoc.Base.{
  ◌≡◌, refl, sym, ap, ◌∙◌, true, List, [], ◌∷◌, Option, none, some, inl, inr, ◌==◌, bytes_eq,
  bytes_beq_iff, arith, In, lookup, Bool-cases, push_all, In-push_all,
}
use slivingdoc.Storage.Key.{Uuid}
use slivingdoc.Storage.Manifest.Types.{Oid}
use slivingdoc.Storage.Manifest.Valid.{IsConsistent}
use slivingdoc.Storage.Manifest.Check.{Seen, binds_same}

pub lookup-In : (u : Uuid) (h : Oid) (l : List (Uuid × Oid)) → lookup u l ≡ some h → In (u, h) l
unfolding lookup
lookup-In u h [] p = cc
lookup-In u h ((j, v) ∷ l) p = elim (Bool-cases (u == j)) [
  | inl same ↦ inl (ground (arith, bytes_beq_iff u j))
  | inr differ ↦ inr (lookup-In u h l (ground arith))
]

pub lookup-none : (u : Uuid) (h : Oid) (l : List (Uuid × Oid)) → lookup u l ≡ none → In (u, h) l → ⊥
unfolding lookup
lookup-none u h [] p m = m
lookup-none u h ((j, v) ∷ l) p (inl q) = ground (arith, bytes_beq_iff u j, ap (λ t. t.0) q)
lookup-none u h ((j, v) ∷ l) p (inr m) = lookup-none u h l (ground arith) m

binds-In :
    (u : Uuid) (h h' : Oid) (l : List (Uuid × Oid))
    → IsConsistent l
    → binds_same (lookup u l) h ≡ true
    → In (u, h') l
    → h ≡ h'
unfolding binds_same
binds-In u h h' l c b m = go (lookup u l) refl
  where
    go : (o : Option Oid) → lookup u l ≡ o → h ≡ h'
    go none p = absurd (lookup-none u h' l p m)
    go (some k) p =
        let same : k ≡ h = (bytes_beq_iff k h).0 (ground arith) in
        sym same ∙ c u k h' (lookup-In u k l p) m

pub IsConsistent-cons :
    (u : Uuid) (h : Oid) (l : List (Uuid × Oid))
    → IsConsistent l
    → binds_same (lookup u l) h ≡ true
    → IsConsistent ((u, h) ∷ l)
IsConsistent-cons u h l c b v k k' (inl p) (inl q) = ap (λ t. t.1) p ∙ sym (ap (λ t. t.1) q)
IsConsistent-cons u h l c b v k k' (inl p) (inr m) =
    ap (λ t. t.1) p ∙ binds-In u h k' l c b (rw (ap (λ t. t.0) p) at m)
IsConsistent-cons u h l c b v k k' (inr m) (inl q) =
    sym (binds-In u h k l c b (rw (ap (λ t. t.0) q) at m)) ∙ sym (ap (λ t. t.1) q)
IsConsistent-cons u h l c b v k k' (inr m) (inr m') = c v k k' m m'

pub binds_of_consistent :
    (u : Uuid) (h : Oid) (l : List (Uuid × Oid))
    → IsConsistent ((u, h) ∷ l)
    → binds_same (lookup u l) h ≡ true
unfolding binds_same
binds_of_consistent u h l c = go (lookup u l) refl
  where
    go : (o : Option Oid) → lookup u l ≡ o → binds_same o h ≡ true
    go none p = refl
    go (some k) p = (bytes_beq_iff k h).1 (c u k h (inr (lookup-In u k l p)) (inl refl))

-- No entry of the three maps clashes with another.
pub record IsClean (s : Seen) : Type 0 where
  pub keys : Nodup s.keys
  pub ids : Nodup s.ids
  pub heads : IsConsistent s.heads

pub push_all-IsConsistent :
    (xs acc : List (Uuid × Oid)) → IsConsistent (push_all xs acc) → IsConsistent acc
push_all-IsConsistent xs acc c u h h' m m' =
    c u h h' (In-push_all (u, h) xs acc m) (In-push_all (u, h') xs acc m')
