-- ===== src/Git/Pin/Holds.antt =====
-- What `Pin` of internal/git/readonly.go returns.
use slivingdoc.Base.{
  ◌≡◌, refl, ◌↔◌, Bool, true, false, not, [], ◌∷◌, ◌++◌, inl, inr, ◌⊎◌, In, In-append,
  In-append_left, In-append_right, Bytes, arith, length, ◌==◌, nat_eq, bytes_less, Bool-cases,
}
use slivingdoc.Git.Path.{TextLibrary}
use slivingdoc.Git.Entries.{EntrySet}
use slivingdoc.Git.Snapshot.{File, Snapshot}
use slivingdoc.Git.Pin.{filter_files, insert_file, sort_files, covers_path, pin}

In-filter_files :
    (keep : Bytes → Bool) (fs : Snapshot) (f : File)
    → In f (filter_files keep fs)
    → In f fs × (keep f.path ≡ true)
unfolding filter_files
In-filter_files keep [] f m = absurd m
In-filter_files keep (g ∷ fs) f m = elim (Bool-cases (keep g.path)) [
  | inl kept ↦ first_kept kept (In-filter_files keep fs f) (rw kept at m)
  | inr gone ↦ let (n, k) = In-filter_files keep fs f (rw gone at m) in (inr n, k)
]
  where
    first_kept :
        keep g.path ≡ true
        → (In f (filter_files keep fs) → In f fs × (keep f.path ≡ true))
        → (f ≡ g) ⊎ In f (filter_files keep fs)
        → In f (g ∷ fs) × (keep f.path ≡ true)
    first_kept kept rest (inl p) = (inl p, rw p kept)
    first_kept kept rest (inr n) = let (o, k) = rest n in (inr o, k)

filter_files-In :
    (keep : Bytes → Bool) (fs : Snapshot) (f : File)
    → In f fs
    → keep f.path ≡ true
    → In f (filter_files keep fs)
unfolding filter_files
filter_files-In keep [] f m k = absurd m
filter_files-In keep (g ∷ fs) f (inl p) k = rw ((rw p at k)) (inl p)
filter_files-In keep (g ∷ fs) f (inr m) k = elim (Bool-cases (keep g.path)) [
  | inl kept ↦ rw kept (inr (filter_files-In keep fs f m k))
  | inr gone ↦ rw gone (filter_files-In keep fs f m k)
]

In-insert_file :
    (g : File) (fs : Snapshot) (f : File) → (In f (insert_file g fs)) ↔ ((f ≡ g) ⊎ In f fs)
unfolding insert_file
In-insert_file g [] f = (λ m. m, λ m. m)
In-insert_file g (h ∷ fs) f = elim (Bool-cases (bytes_less g.path h.path)) [
  | inl less ↦ rw less (λ m. m, λ m. m)
  | inr more ↦
      rw more (λ m. swap (In-insert_file g fs f).0 m, λ m. unswap (In-insert_file g fs f).1 m)
]
  where
    swap :
        (In f (insert_file g fs) → (f ≡ g) ⊎ In f fs)
        → (f ≡ h) ⊎ In f (insert_file g fs)
        → (f ≡ g) ⊎ In f (h ∷ fs)
    swap rest (inl p) = inr (inl p)
    swap rest (inr n) = elim (rest n) [ inl q ↦ inl q | inr o ↦ inr (inr o) ]

    unswap :
        ((f ≡ g) ⊎ In f fs → In f (insert_file g fs))
        → (f ≡ g) ⊎ In f (h ∷ fs)
        → (f ≡ h) ⊎ In f (insert_file g fs)
    unswap rest (inl q) = inr (rest (inl q))
    unswap rest (inr (inl p)) = inl p
    unswap rest (inr (inr o)) = inr (rest (inr o))

In-sort_files : (fs : Snapshot) (f : File) → (In f (sort_files fs)) ↔ (In f fs)
unfolding sort_files
In-sort_files [] f = (λ m. m, λ m. m)
In-sort_files (g ∷ fs) f = (
  λ m. forth (In-sort_files fs f).0 ((In-insert_file g (sort_files fs) f).0 m),
  λ m. (In-insert_file g (sort_files fs) f).1 (back (In-sort_files fs f).1 m),
)
  where
    forth : (In f (sort_files fs) → In f fs) → (f ≡ g) ⊎ In f (sort_files fs) → In f (g ∷ fs)
    forth rest (inl p) = inl p
    forth rest (inr n) = inr (rest n)

    back : (In f fs → In f (sort_files fs)) → In f (g ∷ fs) → (f ≡ g) ⊎ In f (sort_files fs)
    back rest (inl p) = inl p
    back rest (inr n) = inr (rest n)

not-true : (b : Bool) → not b ≡ true → b ≡ false
not-true b h = ground arith

-- For an entry set that is not empty, the pinned snapshot holds exactly the files of the local
-- snapshot whose paths are not covered and the files of the base whose paths are.
pub pin-In :
    (text : TextLibrary) (set : EntrySet) (local base : Snapshot) (f : File)
    → ¬ (length set.entries ≡ 0)
    → (In f (pin text set local base)) ↔ (
        (In f local × (covers_path text set f.path ≡ false))
        ⊎ (In f base × (covers_path text set f.path ≡ true)))
unfolding pin
pin-In text set local base f some_entries = elim (Bool-cases (length set.entries == 0)) [
  | inl none ↦ absurd (some_entries (ground arith))
  | inr some ↦ rw some (
    λ m. split_at ((In-sort_files (outside ++ inside) f).0 m),
    λ m. (In-sort_files (outside ++ inside) f).1 (joined m),
  )
]
  where
    outside : Snapshot
    outside = filter_files (λ path. not (covers_path text set path)) local

    inside : Snapshot
    inside = filter_files (covers_path text set) base

    split_at :
        In f (outside ++ inside)
        → (In f local × (covers_path text set f.path ≡ false))
          ⊎ (In f base × (covers_path text set f.path ≡ true))
    split_at m = elim (In-append f outside inside m) [
      | inl l ↦
          let (held, k) = In-filter_files (λ path. not (covers_path text set path)) local f l in
          inl (held, not-true (covers_path text set f.path) k)
      | inr r ↦ inr (In-filter_files (covers_path text set) base f r)
    ]

    joined :
        (In f local × (covers_path text set f.path ≡ false))
          ⊎ (In f base × (covers_path text set f.path ≡ true))
        → In f (outside ++ inside)
    joined (inl (l, k)) =
        In-append_left f outside inside
          (filter_files-In (λ path. not (covers_path text set path)) local f l (rw k refl))
    joined (inr (r, k)) =
        In-append_right f outside inside (filter_files-In (covers_path text set) base f r k)
