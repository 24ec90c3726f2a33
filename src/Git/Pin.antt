-- ===== src/Git/Pin.antt =====
-- internal/git/readonly.go: the covered files of a snapshot, put back.
pub mod Holds
use slivingdoc.Base.{
  ℕ, Bool, true, false, not, ◌&&◌, Option, none, some, List, [], ◌∷◌, ◌++◌, ◌==◌, nat_eq, bytes_eq,
  Bytes, if◌then◌else◌, length, lookup, bytes_less,
}
use slivingdoc.Git.Path.{TextLibrary}
use slivingdoc.Git.Entries.{EntrySet, covering}
use slivingdoc.Git.Snapshot.{File, Snapshot}

abbrev pub found : Option (Bytes × Bytes) → Bool
found none = false
found (some _) = true

unfoldable pub filter_files : (Bytes → Bool) → Snapshot → Snapshot
filter_files keep [] = []
filter_files keep (f ∷ fs) =
    let rest = filter_files keep fs in if keep f.path then f ∷ rest else rest

-- `sort.Slice` by the path.
unfoldable pub insert_file : File → Snapshot → Snapshot
insert_file f [] = f ∷ []
insert_file f (g ∷ gs) =
    let rest = insert_file f gs in if bytes_less f.path g.path then f ∷ g ∷ gs else g ∷ rest

unfoldable pub sort_files : Snapshot → Snapshot
sort_files [] = []
sort_files (f ∷ fs) = insert_file f (sort_files fs)

-- A map from paths to contents, the newest write first.
unfoldable pub contents_map : List (Bytes × Bytes) → Snapshot → List (Bytes × Bytes)
contents_map writes [] = writes
contents_map writes (f ∷ fs) = contents_map ((f.path, f.contents) ∷ writes) fs

unfoldable pub insert_path : Bytes → List Bytes → List Bytes
insert_path p [] = p ∷ []
insert_path p (q ∷ qs) =
    let rest = insert_path p qs in if bytes_less p q then p ∷ q ∷ qs else q ∷ rest

unfoldable pub sort_paths : List Bytes → List Bytes
sort_paths [] = []
sort_paths (p ∷ ps) = insert_path p (sort_paths ps)

-- `!ok || !bytes.Equal(old, data)`
abbrev pub differs : Option Bytes → Bytes → Bool
differs none contents = true
differs (some old) contents = not (old == contents)

-- The loops of `ChangedUnder` over the two maps: the covered files of a snapshot, whose paths are
-- distinct, stand for its map.
unfoldable pub changed_files : List (Bytes × Bytes) → Snapshot → List Bytes
changed_files base [] = []
changed_files base (f ∷ fs) =
    let rest = changed_files base fs in
    if differs (lookup f.path base) f.contents then f.path ∷ rest else rest

abbrev pub absent : Option Bytes → Bool
absent none = true
absent (some _) = false

unfoldable pub removed_files : List (Bytes × Bytes) → Snapshot → List Bytes
removed_files local [] = []
removed_files local (f ∷ fs) =
    let rest = removed_files local fs in
    if absent (lookup f.path local) then f.path ∷ rest else rest

module _ (text : TextLibrary) (set : EntrySet) where
  -- `EntrySet.Covers`
  unfoldable pub covers_path : Bytes → Bool
  covers_path path = found (covering set (text.fold path))

  unfoldable pub pin : Snapshot → Snapshot → Snapshot
  pin local base =
      if length set.entries == 0
      then local
      else sort_files
          (filter_files (λ path. not (covers_path path)) local ++ filter_files covers_path base)

  unfoldable pub changed_under : Snapshot → Snapshot → List Bytes
  changed_under local base =
      let local_files = filter_files covers_path local in
      let base_files = filter_files covers_path base in
      if length set.entries == 0
      then []
      else sort_paths (
          changed_files (contents_map [] base_files) local_files
          ++ removed_files (contents_map [] local_files) base_files)
