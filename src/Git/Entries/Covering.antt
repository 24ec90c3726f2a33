-- ===== src/Git/Entries/Covering.antt =====
-- `covering` of internal/git/readonly.go finds the longest entry over a path.
use slivingdoc.Base.{
  ◌≤◌, ◌≡◌, refl, ap, inl, inr, true, false, ◌&&◌, Option, none, some, List, [], ◌∷◌, map, Bytes,
  length, In, arith, Bool-cases, push_all, In-pushed, In-of-push_all, if◌then◌else◌,
}
use slivingdoc.Git.Entries.{EntryItem, set_of, covers, longer, covering_from, covering}
use slivingdoc.Git.Entries.Ancestors.{Covers, covers-Covers, Covers-covers}

-- No entry of the list is over the path.
abbrev pub NoneCovers : List EntryItem → Bytes → Type 0
NoneCovers ks path = (k : EntryItem) → In k ks → ¬ Covers k.folded path

-- `k` is an entry of the list over the path, and none over it is longer.
pub record IsLongest (ks : List EntryItem) (path : Bytes) (k : EntryItem) : Type 0 where
  pub held : In k ks
  pub over : Covers k.folded path
  pub longest : (j : EntryItem) → In j ks → Covers j.folded path → length j.folded ≤ length k.folded

abbrev pub Best : List EntryItem → Bytes → Option (Bytes × Bytes) → Type 0
Best ks path none = NoneCovers ks path
Best ks path (some (raw, folded)) =
    (k : EntryItem) × IsLongest ks path k × (k.raw ≡ raw) × (k.folded ≡ folded)

module _ (path : Bytes) where
  Best-skip :
      (ks : List EntryItem) (k : EntryItem) (found : Option (Bytes × Bytes))
      → (Covers k.folded path
          → (b : Bytes × Bytes) × (found ≡ some b) × (length k.folded ≤ length b.1))
      → Best ks path found
      → Best (k ∷ ks) path found
  Best-skip ks k none out h = nothing
    where
      nothing : (j : EntryItem) → In j (k ∷ ks) → ¬ Covers j.folded path
      nothing j (inl e) c =
          let (_, impossible, _) = out (rw e at c) in absurd (ground (arith, impossible))
      nothing j (inr m) c = h j m c
  Best-skip ks k (some (raw, folded)) out (b, l, r, f) =
      (b, record { held = inr l.held; over = l.over; longest = more }, r, f)
    where
      more :
          (j : EntryItem) → In j (k ∷ ks) → Covers j.folded path → length j.folded ≤ length b.folded
      more j (inl e) c = let (x, same, le) = out (rw e at c) in rw e (ground (arith, f, le, same))
      more j (inr m) c = l.longest j m c

  Best-take :
      (ks : List EntryItem) (k : EntryItem) (found : Option (Bytes × Bytes))
      → Covers k.folded path
      → longer k.folded found ≡ true
      → Best ks path found
      → Best (k ∷ ks) path (some (k.raw, k.folded))
  Best-take ks k none c l h = (k, record { held = inl refl; over = c; longest = only }, refl, refl)
    where
      only :
          (j : EntryItem) → In j (k ∷ ks) → Covers j.folded path → length j.folded ≤ length k.folded
      only j (inl e) d = rw e (omega arith)
      only j (inr m) d = absurd (h j m d)
  Best-take ks k (some (raw, folded)) c l (b, best, r, f) =
      (k, record { held = inl refl; over = c; longest = all }, refl, refl)
    where
      all :
          (j : EntryItem) → In j (k ∷ ks) → Covers j.folded path → length j.folded ≤ length k.folded
      all j (inl e) d = rw e (omega arith)
      all j (inr m) d = ground (arith, best.longest j m d, ap length f)

  Best-step :
      (ks : List EntryItem) (k : EntryItem) (found : Option (Bytes × Bytes))
      → Best ks path found
      → Best
          (k ∷ ks)
          path
          (if covers k.folded path && longer k.folded found then some (k.raw, k.folded) else found)
  Best-step ks k found h = elim (Bool-cases (covers k.folded path)) [
    | inr out ↦
        rw out
          (Best-skip ks k found (λ c. absurd (ground (arith, Covers-covers k.folded path c))) h)
    | inl over ↦ rw over (elim (Bool-cases (longer k.folded found)) [
      | inl more ↦ rw more (Best-take ks k found (covers-Covers k.folded path over) more h)
      | inr less ↦ rw less (Best-skip ks k found (λ c. shorter found less) h)
    ])
  ]
    where
      shorter :
          (o : Option (Bytes × Bytes))
          → longer k.folded o ≡ false
          → (b : Bytes × Bytes) × (o ≡ some b) × (length k.folded ≤ length b.1)
      shorter none e = absurd (ground arith)
      shorter (some b) e = (b, refl, ground arith)

  Best-from :
      (ks done : List EntryItem) (found : Option (Bytes × Bytes))
      → Best done path found
      → Best (push_all ks done) path (
          covering_from path
            (map (λ (k : EntryItem). k.raw) ks)
            (map (λ (k : EntryItem). k.folded) ks)
            found)
  unfolding covering_from
  Best-from [] done found h = h
  Best-from (k ∷ ks) done found h =
      Best-from ks (k ∷ done)
        (if covers k.folded path && longer k.folded found then some (k.raw, k.folded) else found)
        (Best-step done k found h)

  In-all : (ks : List EntryItem) (j : EntryItem) → In j (push_all ks []) → In j ks
  In-all ks j m = elim (In-of-push_all j ks [] m) [ inl p ↦ p | inr n ↦ absurd n ]

  Best-all :
      (ks : List EntryItem) (o : Option (Bytes × Bytes))
      → Best (push_all ks []) path o
      → Best ks path o
  Best-all ks none h = λ j m. h j (In-pushed j ks [] m)
  Best-all ks (some (raw, folded)) (k, l, r, f) = (
    k,
    record {
      held = In-all ks k l.held;
      over = l.over;
      longest = λ j m c. l.longest j (In-pushed j ks [] m) c;
    },
    r,
    f,
  )

  -- `covering` answers with a longest entry over the path, and with none exactly where none is.
  pub covering-Best : (ks : List EntryItem) → Best ks path (covering (set_of ks) path)
  unfolding covering
  covering-Best ks = Best-all ks _ (Best-from ks [] none (λ j m. absurd m))
