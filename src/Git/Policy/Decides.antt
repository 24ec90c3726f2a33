-- ===== src/Git/Policy/Decides.antt =====
-- A policy answers as the entries that the operator wrote.
use slivingdoc.Base.{
  ◌<◌, ◌≡◌, ◌≢◌, refl, ap, ◌↔◌, ◌⊎◌, inl, inr, Bool, true, false, Option, none, some, List, [],
  nat_eq, bytes_eq, Bytes, length, In, arith, Bool-cases, ltb,
}
use slivingdoc.Git.Entries.{EntryItem, set_of, covering}
use slivingdoc.Git.Entries.Ancestors.{Covers-same_length}
use slivingdoc.Git.Entries.Covering.{NoneCovers, IsLongest, Best, covering-Best}
use slivingdoc.Git.Entries.Collapse.{Wins}
use slivingdoc.Git.Policy.{resolve}

-- No entry of one set has the folded form of an entry of the other.
abbrev pub Apart : List EntryItem → List EntryItem → Type 0
Apart xs ys = (a b : EntryItem) → In a xs → In b ys → ¬ (a.folded ≡ b.folded)

-- What the two written sets say of a folded path: a read-only entry is over it and longer than
-- every writable one, or no entry is over it and there are writable entries.
abbrev pub Protected : List EntryItem → List EntryItem → Bytes → Type 0
Protected ro wr path =
    ((a : EntryItem) × Wins wr ro path a) ⊎ (NoneCovers ro path × NoneCovers wr path × (wr ≢ []))

-- Which set decides for a path, or that none does.
pub data Verdict (ro wr : List EntryItem) (path : Bytes) : Type 0 where
  by_ro : (a : EntryItem) → Wins wr ro path a → Verdict ro wr path
  by_wr : (b : EntryItem) → Wins ro wr path b → Verdict ro wr path
  by_none : NoneCovers ro path → NoneCovers wr path → Verdict ro wr path

module _ (ro wr : List EntryItem) (apart : Apart ro wr) (path : Bytes) where
  longest-Wins :
      (a b : EntryItem)
      → IsLongest ro path a
      → IsLongest wr path b
      → length b.folded < length a.folded
      → Wins wr ro path a
  longest-Wins a b l r less = record {
    held = l.held;
    over = l.over;
    beats = λ c m o. omega (arith, r.longest c m o);
  }

  decided : (o q : Option (Bytes × Bytes)) → Best ro path o → Best wr path q → Verdict ro wr path
  decided none none h k = by_none h k
  decided (some (r, f)) none (a, l, _, _) k =
      by_ro a (record { held = l.held; over = l.over; beats = λ b m c. absurd (k b m c) })
  decided none (some (r, f)) h (b, l, _, _) =
      by_wr b (record { held = l.held; over = l.over; beats = λ a m c. absurd (h a m c) })
  decided (some (r, f)) (some (r', f')) (a, l, _, _) (b, k, _, _) =
      elim (Bool-cases (ltb (length b.folded) (length a.folded))) [
        | inl less ↦ by_ro a (longest-Wins a b l k (ground arith))
        | inr more ↦ elim (Bool-cases (ltb (length a.folded) (length b.folded))) [
          | inl greater ↦ by_wr b (record {
            held = k.held;
            over = k.over;
            beats = λ c m o. omega (arith, l.longest c m o, lt_of greater);
          })
          | inr level ↦ absurd (
              apart a b l.held k.held
                (Covers-same_length a.folded b.folded path l.over k.over (ground arith)))
        ]
      ]
    where
      lt_of : ltb (length a.folded) (length b.folded) ≡ true → length a.folded < length b.folded
      lt_of e = ground arith

  -- For every path exactly one thing decides.
  pub verdict : Verdict ro wr path
  verdict =
      decided (covering (set_of ro) path) (covering (set_of wr) path) (covering-Best path ro)
        (covering-Best path wr)

  pub not_both : (a b : EntryItem) → Wins wr ro path a → Wins ro wr path b → ⊥
  not_both a b v w = omega (arith, v.beats b w.held w.over, w.beats a v.held v.over)

-- The answer of the `switch` on two sets with no common entry.
pub resolve_lem :
    (ro wr : List EntryItem) (path : Bytes) (o q : Option (Bytes × Bytes)) (unmatched : Bool)
    → Apart ro wr
    → (unmatched ≡ true) ↔ (wr ≢ [])
    → Best ro path o
    → Best wr path q
    → (resolve o q unmatched ≡ true) ↔ Protected ro wr path
unfolding resolve
resolve_lem ro wr path (some (r, f)) (some (r', f')) u ap n (a, l, p, e) (b, k, p', e') =
    (λ h. inl (a, longest-Wins ro wr ap path a b l k (less h)), back)
  where
    less : ltb (length f') (length f) ≡ true → length b.folded < length a.folded
    less h = ground (arith, e, e')

    back : Protected ro wr path → ltb (length f') (length f) ≡ true
    back (inl (c, w)) =
        let shorter : length b.folded < length a.folded =
          omega (arith, w.beats b k.held k.over, l.longest c w.held w.over) in
        ground (arith, e, e', shorter)
    back (inr (no_ro, no_wr, _)) = absurd (no_ro a l.held l.over)
resolve_lem ro wr path (some (r, f)) none u ap n (a, l, p, e) k = (
  λ h. inl (a, record { held = l.held; over = l.over; beats = λ b m c. absurd (k b m c) }),
  λ h. refl,
)
resolve_lem ro wr path none (some (r, f)) u ap n h (b, l, p, e) = (λ q. absurd (ground arith), back)
  where
    back : Protected ro wr path → false ≡ true
    back (inl (c, w)) = absurd (h c w.held w.over)
    back (inr (no_ro, no_wr, _)) = absurd (no_wr b l.held l.over)
resolve_lem ro wr path none none u ap n h k = (λ q. inr (h, k, n.0 q), back)
  where
    back : Protected ro wr path → u ≡ true
    back (inl (c, w)) = absurd (h c w.held w.over)
    back (inr (_, _, some_wr)) = n.1 some_wr
