-- ===== src/Git/Entries/Collapse.antt =====
-- `collapseEntries` of internal/git/readonly.go drops only entries that decide nothing.
use slivingdoc.Base.{
  ℕ, zero, suc, ◌<◌, ◌≡◌, refl, sym, ap, ◌∙◌, ◌⊎◌, inl, inr, Bool, true, false, ◌||◌, List, [], ◌∷◌,
  ◌++◌, ◌==◌, bytes_eq, bytes_beq_iff, Bytes, length, In, In-append, In-append_left,
  In-append_right, arith, Bool-cases, if◌then◌else◌, bytes_less,
}
use slivingdoc.Git.Entries.{
  EntryItem, entry_between, is_redundant, has_folded, keep_entries, insert_entry, sort_entries,
  kept_entries,
}
use slivingdoc.Git.Entries.Ancestors.{
  Covers, Below, is_entry_ancestor-Below, Below-is_entry_ancestor, Below-longer, Below-Covers,
  Covers-Ordered, Covers-shorter,
}

-- Sorting keeps the elements.
insert-In : (k it : EntryItem) (ks : List EntryItem) → In k (insert_entry it ks) → In k (it ∷ ks)
unfolding insert_entry
insert-In k it [] m = m
insert-In k it (x ∷ ks) m = pick (bytes_less it.raw x.raw) m (insert-In k it ks)
  where
    pick :
        (b : Bool)
        → In k (if b then it ∷ x ∷ ks else x ∷ insert_entry it ks)
        → (In k (insert_entry it ks) → In k (it ∷ ks))
        → In k (it ∷ x ∷ ks)
    pick true p ih = p
    pick false (inl e) ih = inr (inl e)
    pick false (inr r) ih = elim (ih r) [ inl e ↦ inl e | inr q ↦ inr (inr q) ]

In-insert : (k it : EntryItem) (ks : List EntryItem) → In k (it ∷ ks) → In k (insert_entry it ks)
unfolding insert_entry
In-insert k it [] m = m
In-insert k it (x ∷ ks) m = pick (bytes_less it.raw x.raw) m (In-insert k it ks)
  where
    pick :
        (b : Bool)
        → In k (it ∷ x ∷ ks)
        → (In k (it ∷ ks) → In k (insert_entry it ks))
        → In k (if b then it ∷ x ∷ ks else x ∷ insert_entry it ks)
    pick true p ih = p
    pick false (inl e) ih = inr (ih (inl e))
    pick false (inr (inl e)) ih = inl e
    pick false (inr (inr r)) ih = inr (ih (inr r))

sort-In : (k : EntryItem) (ks : List EntryItem) → In k (sort_entries ks) → In k ks
unfolding sort_entries
sort-In k [] m = m
sort-In k (x ∷ ks) m = elim (insert-In k x (sort_entries ks) m) [
  | inl e ↦ inl e
  | inr r ↦ inr (sort-In k ks r)
]

In-sort : (k : EntryItem) (ks : List EntryItem) → In k ks → In k (sort_entries ks)
unfolding sort_entries
In-sort k [] m = m
In-sort k (x ∷ ks) (inl e) = In-insert k x (sort_entries ks) (inl e)
In-sort k (x ∷ ks) (inr r) = In-insert k x (sort_entries ks) (inr (In-sort k ks r))

-- An entry of the other set strictly between two of this one.
abbrev Splits : Bytes → Bytes → EntryItem → Type 0
Splits ancestor entry o = Below ancestor o.folded × Below o.folded entry

not_between :
    (a e : Bytes) (other : List EntryItem) (o : EntryItem)
    → entry_between a e other ≡ false
    → In o other
    → ¬ Splits a e o
unfolding entry_between
not_between a e [] o h m s = m
not_between a e (x ∷ other) o h (inl p) s =
    let above = Below-is_entry_ancestor a x.folded (rw p at s.0) in
    let below = Below-is_entry_ancestor x.folded e (rw p at s.1) in ground (arith, above, below)
not_between a e (x ∷ other) o h (inr m) s = not_between a e other o (ground arith) m s

-- `anc` stands for `it` over everything below `it`.
record Stands (it : EntryItem) (items other : List EntryItem) (anc : EntryItem) : Type 0 where
  held : In anc items
  above : Below anc.folded it.folded
  unsplit : (o : EntryItem) → In o other → ¬ Splits anc.folded it.folded o

redundant-Stands :
    (it : EntryItem) (items other : List EntryItem)
    → is_redundant it items other ≡ true
    → (anc : EntryItem) × Stands it items other anc
unfolding is_redundant
redundant-Stands it [] other h = absurd (ground arith)
redundant-Stands it (x ∷ items) other h = elim (Bool-cases (is_redundant it items other)) [
  | inl later ↦
      let (anc, s) = redundant-Stands it items other later in
      (anc, record { held = inr s.held; above = s.above; unsplit = s.unsplit })
  | inr first ↦ (
    x,
    record {
      held = inl refl;
      above = is_entry_ancestor-Below x.folded it.folded (ground arith);
      unsplit = λ o. not_between x.folded it.folded other o (ground arith);
    },
  )
]

has_folded-In :
    (f : Bytes) (ks : List EntryItem)
    → has_folded f ks ≡ true
    → (k : EntryItem) × In k ks × (k.folded ≡ f)
unfolding has_folded
has_folded-In f [] h = absurd (ground arith)
has_folded-In f (x ∷ ks) h = elim (Bool-cases (x.folded == f)) [
  | inl same ↦ (x, inl refl, (bytes_beq_iff x.folded f).0 same)
  | inr differ ↦ let (k, m, e) = has_folded-In f ks (ground arith) in (k, inr m, e)
]

-- `a` is an entry of `ks` over the path, longer than every entry of `other` that is over it.
pub record Wins (other ks : List EntryItem) (path : Bytes) (a : EntryItem) : Type 0 where
  pub held : In a ks
  pub over : Covers a.folded path
  pub beats :
      (b : EntryItem) → In b other → Covers b.folded path → length b.folded < length a.folded

module _ (items other : List EntryItem) where
  abbrev next_kept : EntryItem → List EntryItem → List EntryItem
  next_kept it kept =
      if is_redundant it items other || has_folded it.folded kept then kept else kept ++ it ∷ []

  keep-In :
      (k : EntryItem) (todo kept : List EntryItem)
      → In k (keep_entries items other todo kept)
      → In k todo ⊎ In k kept
  unfolding keep_entries
  keep-In k [] kept m = inr m
  keep-In k (it ∷ todo) kept m = elim (keep-In k todo (next_kept it kept) m) [
    | inl t ↦ inl (inr t)
    | inr n ↦ split (is_redundant it items other || has_folded it.folded kept) n
  ]
    where
      split : (b : Bool) → In k (if b then kept else kept ++ it ∷ []) → In k (it ∷ todo) ⊎ In k kept
      split true p = inr p
      split false p = elim (In-append k kept (it ∷ []) p) [
        | inl l ↦ inr l
        | inr (inl e) ↦ inl (inl e)
        | inr (inr n) ↦ absurd n
      ]

  kept-stays :
      (k : EntryItem) (todo kept : List EntryItem)
      → In k kept
      → In k (keep_entries items other todo kept)
  unfolding keep_entries
  kept-stays k [] kept m = m
  kept-stays k (it ∷ todo) kept m =
      kept-stays k todo (next_kept it kept)
        (grow (is_redundant it items other || has_folded it.folded kept))
    where
      grow : (b : Bool) → In k (if b then kept else kept ++ it ∷ [])
      grow true = m
      grow false = In-append_left k kept (it ∷ []) m

  abbrev Represented : EntryItem → List EntryItem → Type 0
  Represented it ks = (k : EntryItem) × In k ks × (k.folded ≡ it.folded)

  keep-all :
      (it : EntryItem) (todo kept : List EntryItem)
      → In it todo
      → is_redundant it items other ≡ false
      → Represented it (keep_entries items other todo kept)
  unfolding keep_entries
  keep-all it [] kept m h = absurd m
  keep-all it (x ∷ todo) kept (inr m) h = keep-all it todo (next_kept x kept) m h
  keep-all it (x ∷ todo) kept (inl e) h =
      let (k, m, f) = here x kept (rw e at h) in
      (k, kept-stays k todo (next_kept x kept) m, f ∙ ap (λ (t : EntryItem). t.folded) (sym e))
    where
      here :
          (x : EntryItem) (kept : List EntryItem)
          → is_redundant x items other ≡ false
          → Represented x (next_kept x kept)
      here x kept n = elim (Bool-cases (has_folded x.folded kept)) [
        | inl had ↦ rw (n, had) (has_folded-In x.folded kept had)
        | inr new ↦ rw (n, new) (x, In-append_right x kept (x ∷ []) (inl refl), refl)
      ]

  pub kept-In : (k : EntryItem) → In k (kept_entries items other) → In k items
  kept-In k m = elim (keep-In k items [] (sort-In k _ m)) [ inl t ↦ t | inr n ↦ absurd n ]

  kept-or-stood :
      (it : EntryItem)
      → In it items
      → Represented it (kept_entries items other) ⊎ ((anc : EntryItem) × Stands it items other anc)
  kept-or-stood it m = elim (Bool-cases (is_redundant it items other)) [
    | inl r ↦ inr (redundant-Stands it items other r)
    | inr n ↦ let (k, h, e) = keep-all it items [] m n in inl (k, In-sort k _ h, e)
  ]

  module _ (apart : (a b : EntryItem) → In a items → In b other → ¬ (a.folded ≡ b.folded)) where
    stood-Wins :
        (path : Bytes) (a anc : EntryItem)
        → Wins other items path a
        → Stands a items other anc
        → Wins other items path anc
    stood-Wins path a anc w s = record { held = s.held; over = over_path; beats = beaten }
      where
        over_path : Covers anc.folded path
        over_path = inr (Below-Covers anc.folded a.folded path s.above w.over)

        beaten :
            (b : EntryItem)
            → In b other
            → Covers b.folded path
            → length b.folded < length anc.folded
        beaten b m c = elim (Covers-Ordered b.folded anc.folded path c over_path) [
          | inl same ↦ absurd (apart anc b s.held m (sym same))
          | inr (inl below) ↦ Below-longer b.folded anc.folded below
          | inr (inr above) ↦ absurd (
              s.unsplit b m (above, Covers-shorter b.folded a.folded path c w.over (w.beats b m c)))
        ]

    Wins-kept_on_fuel :
        (fuel : ℕ) (path : Bytes) (a : EntryItem)
        → length a.folded < fuel
        → Wins other items path a
        → (k : EntryItem) × Wins other (kept_entries items other) path k
    Wins-kept_on_fuel zero path a short w = absurd (omega arith)
    Wins-kept_on_fuel (suc fuel) path a short w = elim (kept-or-stood a w.held) [
      | inl (k, m, e) ↦
          (k, record { held = m; over = rw e w.over; beats = λ b n c. rw e (w.beats b n c) })
      | inr (anc, s) ↦
          Wins-kept_on_fuel fuel path anc (omega (arith, Below-longer anc.folded a.folded s.above))
            (stood-Wins path a anc w s)
    ]

    -- Where an entry of a set decides for a path, an entry that the collapse keeps decides too.
    pub Wins-kept :
        (path : Bytes) (a : EntryItem)
        → Wins other items path a
        → (k : EntryItem) × Wins other (kept_entries items other) path k
    Wins-kept path a w = Wins-kept_on_fuel (suc (length a.folded)) path a (omega arith) w
