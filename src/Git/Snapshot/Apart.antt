-- ===== src/Git/Snapshot/Apart.antt =====
-- What `ValidateSnapshot` of internal/git/path.go ensures.
use slivingdoc.Base.{
  ◌≡◌, sym, Option, none, List, [], ◌∷◌, inl, inr, bytes_eq, bytes_beq_iff, Bytes, In, In-map, All,
  arith, In-contains, lookup, ok, eq_decided,
}
use slivingdoc.Git.Path.{TextLibrary, validate_path, validate_content}
use slivingdoc.Git.Snapshot.{
  File, Snapshot, directories, first_below, file_directory_collision, paths, exact_file,
  check_files, validate_snapshot,
}

none_below :
    (find : Bytes → Option Bytes) (path : Bytes) (ds : List Bytes)
    → first_below find path ds ≡ none
    → (d : Bytes) → In d ds
    → find d ≡ none
unfolding first_below
none_below find path [] h d m = absurd m
none_below find path (e ∷ ds) h d (inl p) = ground arith
none_below find path (e ∷ ds) h d (inr m) = none_below find path ds (ground arith) d m

no_collision :
    (find : Bytes → Option Bytes) (fs : Snapshot)
    → file_directory_collision find fs ≡ none
    → (f : File) → In f fs
    → (d : Bytes) → In d (directories f.path)
    → find d ≡ none
unfolding file_directory_collision
no_collision find [] h f m d n = absurd m
no_collision find (g ∷ fs) h f (inl p) d n =
    none_below find g.path (directories g.path) (ground arith) d (rw p at n)
no_collision find (g ∷ fs) h f (inr m) d n = no_collision find fs (ground arith) f m d n

module _ (text : TextLibrary) where
  -- No path of the snapshot has the folded form of a later one.
  abbrev pub AreApart : Snapshot → Type 0
  AreApart [] = Unit
  AreApart (f ∷ fs) = ((g : File) → In g fs → ¬ (text.fold f.path ≡ text.fold g.path)) × AreApart fs

  abbrev pub IsFile : File → Type 0
  IsFile f = (validate_path text f.path ≡ ok tt) × (validate_content f.contents ≡ ok tt)

  lookup-cons :
      (k j v : Bytes) (seen : List (Bytes × Bytes))
      → lookup k ((j, v) ∷ seen) ≡ none
      → (¬ (k ≡ j)) × (lookup k seen ≡ none)
  unfolding lookup
  lookup-cons k j v seen h = elim (eq_decided k j) [
    | inl same ↦ absurd (ground (arith, bytes_beq_iff k j))
    | inr differ ↦ (differ, ground (arith, bytes_beq_iff k j))
  ]

  check_files-unseen :
      (seen : List (Bytes × Bytes)) (fs : Snapshot)
      → check_files text seen fs ≡ ok tt
      → (f : File) → In f fs
      → lookup (text.fold f.path) seen ≡ none
  unfolding check_files
  check_files-unseen seen [] h f m = absurd m
  check_files-unseen seen (g ∷ fs) h f (inl p) = ground arith
  check_files-unseen seen (g ∷ fs) h f (inr m) =
      (lookup-cons (text.fold f.path) (text.fold g.path) g.path seen
        (check_files-unseen ((text.fold g.path, g.path) ∷ seen) fs (ground arith) f m)).1

  check_files-All :
      (seen : List (Bytes × Bytes)) (fs : Snapshot)
      → check_files text seen fs ≡ ok tt
      → All IsFile fs × AreApart fs
  unfolding check_files
  check_files-All seen [] h = (tt, tt)
  check_files-All seen (f ∷ fs) h =
      let later : check_files text ((text.fold f.path, f.path) ∷ seen) fs ≡ ok tt = ground arith in
      let (files, apart) = check_files-All ((text.fold f.path, f.path) ∷ seen) fs later in
      (
        ((ground arith, ground arith), files),
        (
          λ g m e.
              (lookup-cons (text.fold g.path) (text.fold f.path) f.path seen
                  (check_files-unseen ((text.fold f.path, f.path) ∷ seen) fs later g m)).0
                (sym e),
          apart,
        ),
      )

  -- A snapshot that `validate_snapshot` accepts has valid paths and contents only, no two of its
  -- paths have the same folded form, and none of its files is also a folder of one of its paths.
  pub validate_snapshot-AreApart :
      (snap : Snapshot)
      → validate_snapshot text snap ≡ ok tt
      → All IsFile snap
        × AreApart snap
        × ((f g : File) → In f snap → In g snap → ¬ In f.path (directories g.path))
  unfolding validate_snapshot exact_file
  validate_snapshot-AreApart snap h =
      let (files, apart) = check_files-All [] snap (ground arith) in
      (files, apart, λ f g m n below. no_file_below f g m n below)
    where
      no_file_below : (f g : File) → In f snap → In g snap → ¬ In f.path (directories g.path)
      no_file_below f g m n below = ground (
        arith,
        no_collision (exact_file snap) snap (ground arith) g n f.path below,
        In-contains (paths snap) f.path (In-map (λ (x : File). x.path) f snap m),
      )
