-- ===== src/Git/Snapshot.antt =====
-- internal/git/path.go: whole snapshots, and the paths in them that collide.
pub mod Apart
use slivingdoc.Base.{
  ℕ, Bool, true, false, not, Option, none, some, List, [], ◌∷◌, ◌++◌, map, ◌==◌, nat_eq, bytes_eq,
  Bytes, if◌then◌else◌, contains, lookup, Result, ok, err, ◌>>=◌, ◌>>◌,
}
use slivingdoc.Git.Path.{TextLibrary, PathError, ContentError, validate_path, validate_content}

pub record File : Type 0 where
  pub path : Bytes
  pub contents : Bytes

-- `git.Snapshot`, by its files.
abbrev pub Snapshot : Type 0
Snapshot = List File

pub record PathCollision : Type 0 where
  pub first : Bytes
  pub path : Bytes
  pub fold : Bool
  pub dir : Bool

pub data SnapshotError : Type 0 where
  invalid_path : PathError → SnapshotError
  invalid_content : Bytes → ContentError → SnapshotError
  collision : PathCollision → SnapshotError

-- `path[:i]` for every `i` at which a slash stands.
unfoldable pub directories : Bytes → List Bytes
directories [] = []
directories (c ∷ cs) =
    let rest = map (λ (d : Bytes). c ∷ d) (directories cs) in if c == b'/' then [] ∷ rest else rest

abbrev pub path_checked : Result PathError (Unit {0}) → Result SnapshotError (Unit {0})
path_checked (ok _) = ok tt
path_checked (err e) = err (SnapshotError.invalid_path e)

abbrev pub content_checked :
    Bytes → Result ContentError (Unit {0}) → Result SnapshotError (Unit {0})
content_checked path (ok _) = ok tt
content_checked path (err e) = err (SnapshotError.invalid_content path e)

-- The test of `seen` for one path.
abbrev pub unseen : Bytes → Option Bytes → Result SnapshotError (Unit {0})
unseen path none = ok tt
unseen path (some first) = err (
    SnapshotError.collision
      (record { first = first; path = path; fold = not (first == path); dir = false }))

abbrev pub collided : Option PathCollision → Result SnapshotError (Unit {0})
collided none = ok tt
collided (some c) = err (SnapshotError.collision c)

abbrev pub below : Bytes → Bytes → Bytes → PathCollision
below first path dir = record { first = first; path = path; fold = not (first == dir); dir = true }

-- The inner loop of `fileDirectoryCollision`.
unfoldable pub first_below : (Bytes → Option Bytes) → Bytes → List Bytes → Option PathCollision
first_below find path [] = none
first_below find path (d ∷ ds) =
    let rest = first_below find path ds in
    elim (find d) [ some first ↦ some (below first path d) | none ↦ rest ]

unfoldable pub file_directory_collision : (Bytes → Option Bytes) → Snapshot → Option PathCollision
file_directory_collision find [] = none
file_directory_collision find (f ∷ fs) =
    let rest = file_directory_collision find fs in
    elim (first_below find f.path (directories f.path)) [ some c ↦ some c | none ↦ rest ]

abbrev pub paths : Snapshot → List Bytes
paths snap = map (λ (f : File). f.path) snap

unfoldable pub exact_file : Snapshot → Bytes → Option Bytes
exact_file snap dir = if contains (paths snap) dir then some dir else none

-- The inner loop of `FoldedDirectoryPairs`.
unfoldable pub pairs_below : (Bytes → Option Bytes) → Bytes → List Bytes → List PathCollision
pairs_below find path [] = []
pairs_below find path (d ∷ ds) =
    let rest = pairs_below find path ds in
    elim (find d) [ some first ↦ below first path d ∷ rest | none ↦ rest ]

unfoldable pub pairs_from : (Bytes → Option Bytes) → Snapshot → List PathCollision
pairs_from find [] = []
pairs_from find (f ∷ fs) = pairs_below find f.path (directories f.path) ++ pairs_from find fs

module _ (text : TextLibrary) where
  -- The first loop of `ValidateSnapshot`; `seen` has the newest entry first.
  unfoldable pub check_files : List (Bytes × Bytes) → Snapshot → Result SnapshotError (Unit {0})
  check_files seen [] = ok tt
  check_files seen (f ∷ fs) = do
    path_checked (validate_path text f.path)
    content_checked f.path (validate_content f.contents)
    unseen f.path (lookup (text.fold f.path) seen)
    check_files ((text.fold f.path, f.path) ∷ seen) fs

  unfoldable pub validate_snapshot : Snapshot → Result SnapshotError (Unit {0})
  validate_snapshot snap = do
    check_files [] snap
    collided (file_directory_collision (exact_file snap) snap)

  -- The map of `FoldedDirectoryPairs`, the newest write first.
  unfoldable pub folded_paths : List (Bytes × Bytes) → Snapshot → List (Bytes × Bytes)
  folded_paths writes [] = writes
  folded_paths writes (f ∷ fs) = folded_paths ((text.fold f.path, f.path) ∷ writes) fs

  unfoldable pub folded_directory_pairs : Snapshot → List PathCollision
  folded_directory_pairs snap =
      pairs_from (λ dir. lookup (text.fold dir) (folded_paths [] snap)) snap

  abbrev pub first_pair : List PathCollision → Result SnapshotError (Unit {0})
  first_pair [] = ok tt
  first_pair (c ∷ cs) = err (SnapshotError.collision c)

  unfoldable pub validate_folded_directories : Snapshot → Result SnapshotError (Unit {0})
  validate_folded_directories snap = first_pair (folded_directory_pairs snap)
