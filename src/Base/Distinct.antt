-- ===== src/Base/Distinct.antt =====
-- Lists with no repetition: the library's `Nodup` beside the test that a Go map makes.
use mathlib.Core.Path.{◌≡◌, refl}
use mathlib.Core.Bool.{true, not, Bool-set}
use mathlib.Core.Logic.{◌↔◌, ◌⊎◌, inl, inr}
use mathlib.Core.Logic.Or
use mathlib.Core.List.{
  List, [], ◌∷◌, ◌++◌, Mem, Nodup, Perm, Nodup-cons, mem-cons_self, mem-cons_of_mem,
  eq-or-mem_of_mem-cons, not-mem-nil, perm_middle,
}
use mathlib.Core.List.Perm
use native.Mathlib.Omega.{arith}
use slivingdoc.Base.Equality.{Eq, ◌==◌, Bool-cases}
use slivingdoc.Base.Lists.{contains, In}

module _ {A : Type 0} ⦃e : Eq A⦄ where
  pub contains-Mem : (xs : List A) (a : A) → contains xs a ≡ true → Mem a xs
  unfolding contains
  contains-Mem [] a h = cc
  contains-Mem (x ∷ xs) a h = elim (Bool-cases (a == x)) [
    | inl same ↦ rw ((e.equal_iff a x).0 same) mem-cons_self
    | inr differ ↦ mem-cons_of_mem x (contains-Mem xs a (ground arith))
  ]

  pub Mem-contains : (xs : List A) (a : A) → Mem a xs → contains xs a ≡ true
  unfolding contains
  Mem-contains [] a m = absurd (not-mem-nil m)
  Mem-contains (x ∷ xs) a m =
      Or.elim (Bool-set _ _) (eq-or-mem_of_mem-cons m) (λ p. ground (arith, e.equal_iff a x))
        (λ r. ground (arith, Mem-contains xs a r))

  pub not-contains_iff : (xs : List A) (a : A) → (not (contains xs a) ≡ true) ↔ (¬ Mem a xs)
  not-contains_iff xs a = (
    λ h m. ground (arith, Mem-contains xs a m),
    λ n. elim (Bool-cases (contains xs a)) [
      | inl held ↦ absurd (n (contains-Mem xs a held))
      | inr fresh ↦ rw fresh refl
    ],
  )

module _ {A : Type 0} where
  -- The elements of `xs` put one by one in front of `acc`.
  abbrev pub push_all : List A → List A → List A
  push_all [] acc = acc
  push_all (x ∷ xs) acc = push_all xs (x ∷ acc)

  pub push_all-append :
      (xs ys acc : List A) → push_all (xs ++ ys) acc ≡ push_all ys (push_all xs acc)
  push_all-append [] ys acc = refl
  push_all-append (x ∷ xs) ys acc = push_all-append xs ys (x ∷ acc)

  pub push_all-perm : (xs acc : List A) → Perm (push_all xs acc) (xs ++ acc)
  push_all-perm [] acc = Perm.refl acc
  push_all-perm (x ∷ xs) acc = Perm.trans (push_all-perm xs (x ∷ acc)) (perm_middle xs acc)

  -- What was distinct after more elements came was distinct before.
  pub push_all-Nodup : (xs acc : List A) → Nodup (push_all xs acc) → Nodup acc
  push_all-Nodup [] acc d = d
  push_all-Nodup (x ∷ xs) acc d = (Nodup-cons.0 (push_all-Nodup xs (x ∷ acc) d)).1

  pub In-push_all : (a : A) (xs acc : List A) → In a acc → In a (push_all xs acc)
  In-push_all a [] acc m = m
  In-push_all a (x ∷ xs) acc m = In-push_all a xs (x ∷ acc) (inr m)

  pub In-pushed : (a : A) (xs acc : List A) → In a xs → In a (push_all xs acc)
  In-pushed a [] acc m = absurd m
  In-pushed a (x ∷ xs) acc (inl p) = In-push_all a xs (x ∷ acc) (inl p)
  In-pushed a (x ∷ xs) acc (inr m) = In-pushed a xs (x ∷ acc) m

  pub In-of-push_all : (a : A) (xs acc : List A) → In a (push_all xs acc) → In a xs ⊎ In a acc
  In-of-push_all a [] acc m = inr m
  In-of-push_all a (x ∷ xs) acc m = elim (In-of-push_all a xs (x ∷ acc) m) [
    | inl l ↦ inl (inr l)
    | inr (inl p) ↦ inl (inl p)
    | inr (inr r) ↦ inr r
  ]

  pub In→Mem : (a : A) (xs : List A) → In a xs → Mem a xs
  In→Mem a [] m = absurd m
  In→Mem a (x ∷ xs) (inl p) = rw p mem-cons_self
  In→Mem a (x ∷ xs) (inr m) = mem-cons_of_mem x (In→Mem a xs m)
