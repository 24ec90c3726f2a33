-- ===== src/Notebook/Publication/Search.antt =====
-- `publicationIn` of internal/notebook/remote.go finds what the descriptors bind.
use slivingdoc.Base.{
  ◌≡◌, refl, ◌↔◌, ◌⊎◌, inl, inr, Bool, true, false, ◌||◌, List, [], ◌∷◌, ◌++◌, map, ◌==◌, bytes_eq,
  bytes_beq_iff, In, In-append, In-append_left, In-append_right, arith, ap, sym,
}
use slivingdoc.Storage.Key.{Uuid}
use slivingdoc.Storage.Manifest.{
  Oid, Checkpoint, Increment, Retained, Manifest, binding, chain_bindings, retained_bindings,
  bindings,
}
use slivingdoc.Notebook.Publication.{published, retained_publication, publication_in}

-- A descriptor binds the id to some head.
abbrev pub IsBound : Uuid → List (Uuid × Oid) → Type 0
IsBound u l = (h : Oid) × In (u, h) l

or-true : (a b : Bool) → (a || b) ≡ true → (a ≡ true) ⊎ (b ≡ true)
or-true true b h = inl refl
or-true false b h = inr h

or-inl : (a b : Bool) → a ≡ true → (a || b) ≡ true
or-inl a b h = ground arith

or-inr : (a b : Bool) → b ≡ true → (a || b) ≡ true
or-inr true b h = refl
or-inr false b h = h

published-IsBound :
    (is : List Increment) (u : Uuid) → published is u ≡ true → IsBound u (map binding is)
unfolding published
published-IsBound [] u h = absurd (ground arith)
published-IsBound (i ∷ is) u h = elim (or-true (i.publication == u) (published is u) h) [
  | inl here ↦ (i.head, inl (ap (λ v. (v, i.head)) (sym ((bytes_beq_iff i.publication u).0 here))))
  | inr there ↦ let (head, m) = published-IsBound is u there in (head, inr m)
]

IsBound-published :
    (is : List Increment) (u : Uuid) (h : Oid) → In (u, h) (map binding is) → published is u ≡ true
unfolding published
IsBound-published [] u h m = absurd m
IsBound-published (i ∷ is) u h (inl p) =
    or-inl (i.publication == u) (published is u)
      ((bytes_beq_iff i.publication u).1 (sym (ap (λ (t : Uuid × Oid). t.0) p)))
IsBound-published (i ∷ is) u h (inr m) =
    or-inr (i.publication == u) (published is u) (IsBound-published is u h m)

chain-IsBound :
    (c : Checkpoint) (is : List Increment) (rest : List (Uuid × Oid)) (r : Bool) (u : Uuid)
    → (r ≡ true) ↔ IsBound u rest
    → ((c.publication == u || (published is u || r)) ≡ true)
      ↔ IsBound u (chain_bindings c is ++ rest)
chain-IsBound c is rest r u tail = (λ h. found h, λ b. held b.0 b.1)
  where
    found :
        (c.publication == u || (published is u || r)) ≡ true
        → IsBound u (chain_bindings c is ++ rest)
    found h = elim (or-true (c.publication == u) (published is u || r) h) [
      | inl here ↦
          (c.head, inl (ap (λ v. (v, c.head)) (sym ((bytes_beq_iff c.publication u).0 here))))
      | inr there ↦ elim (or-true (published is u) r there) [
        | inl early ↦
            let (head, m) = published-IsBound is u early in
            (head, inr (In-append_left (u, head) (map binding is) rest m))
        | inr late ↦
            let (head, m) = tail.0 late in
            (head, inr (In-append_right (u, head) (map binding is) rest m))
      ]
    ]

    held :
        (h : Oid)
        → In (u, h) (chain_bindings c is ++ rest)
        → (c.publication == u || (published is u || r)) ≡ true
    held h (inl p) =
        or-inl (c.publication == u) (published is u || r)
          ((bytes_beq_iff c.publication u).1 (sym (ap (λ (t : Uuid × Oid). t.0) p)))
    held h (inr m) =
        or-inr (c.publication == u) (published is u || r)
          (elim (In-append (u, h) (map binding is) rest m) [
            | inl early ↦ or-inl (published is u) r (IsBound-published is u h early)
            | inr late ↦ or-inr (published is u) r (tail.1 (h, late))
          ])

retained-IsBound :
    (rs : List Retained) (u : Uuid)
    → (retained_publication rs u ≡ true) ↔ IsBound u (retained_bindings rs)
unfolding retained_publication
retained-IsBound [] u = (λ h. absurd (ground arith), λ b. absurd b.1)
retained-IsBound (r ∷ rs) u =
    chain-IsBound r.checkpoint r.increments (retained_bindings rs) (retained_publication rs u) u
      (retained-IsBound rs u)

-- The search for a publication id answers true exactly when a descriptor of the manifest, active or
-- retained, checkpoint or increment, binds the id to a head.
pub publication_in_iff :
    (m : Manifest) (u : Uuid) → (publication_in m u ≡ true) ↔ IsBound u (bindings m)
unfolding publication_in
publication_in_iff m u =
    chain-IsBound m.checkpoint m.increments (retained_bindings m.retained)
      (retained_publication m.retained u) u (retained-IsBound m.retained u)
