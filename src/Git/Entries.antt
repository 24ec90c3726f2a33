-- ===== src/Git/Entries.antt =====
-- internal/git/readonly.go: the entries of a path policy, and the longest entry over a path.
pub mod Ancestors
pub mod Covering
pub mod Collapse
use slivingdoc.Base.{
  ℕ, ◌<◌, ◌≤◌, Bool, true, false, not, ◌&&◌, ◌||◌, Option, none, some, List, [], ◌∷◌, ◌++◌, map,
  ◌==◌, nat_eq, bytes_eq, Bytes, ltb, leb, length, get_elem?, if◌then◌else◌, Result, ok, err, ◌>>=◌,
  ◌>>◌, require, has_prefix, trim_suffix_byte, bytes_less,
}
use slivingdoc.Git.Path.{TextLibrary, PathError, validate_path}

-- `entryItem`: an entry as written, beside its folded form.
pub record EntryItem : Type 0 where
  pub raw : Bytes
  pub folded : Bytes

pub record EntrySet : Type 0 where
  pub entries : List Bytes
  pub folded : List Bytes

abbrev pub is_slash : Option ℕ → Bool
is_slash none = false
is_slash (some c) = c == b'/'

-- `foldedPath[len(foldedAncestor)]` is in range where it is read.
unfoldable pub is_entry_ancestor : Bytes → Bytes → Bool
is_entry_ancestor ancestor path =
    ltb (length ancestor) (length path)
    && (has_prefix path ancestor && is_slash (get_elem? path (length ancestor)))

unfoldable pub entry_between : Bytes → Bytes → List EntryItem → Bool
entry_between ancestor entry [] = false
entry_between ancestor entry (o ∷ other) =
    (is_entry_ancestor ancestor o.folded && is_entry_ancestor o.folded entry)
    || entry_between ancestor entry other

module _ (text : TextLibrary) where
  -- `validateEntries`; an error names the entry.
  unfoldable pub validate_entries : List Bytes → Result (Bytes × PathError) (List EntryItem)
  validate_entries [] = ok []
  validate_entries (raw ∷ rest) =
      let trimmed = trim_suffix_byte b'/' raw in
      let others = validate_entries rest in
      elim (validate_path text trimmed) [
        | err e ↦ err (raw, e)
        | ok _ ↦ do
          items ← others
          ok (record { raw = trimmed; folded = text.fold trimmed } ∷ items)
      ]

-- the search of `collapseEntries` for an entry that makes `it` redundant
unfoldable pub is_redundant : EntryItem → List EntryItem → List EntryItem → Bool
is_redundant it [] other = false
is_redundant it (anc ∷ items) other =
    (not (anc.folded == it.folded)
      && (is_entry_ancestor anc.folded it.folded && not (entry_between anc.folded it.folded other)))
    || is_redundant it items other

unfoldable pub has_folded : Bytes → List EntryItem → Bool
has_folded f [] = false
has_folded f (k ∷ kept) = k.folded == f || has_folded f kept

-- the outer loop of `collapseEntries`, with `todo` still to come
unfoldable pub keep_entries :
    List EntryItem → List EntryItem → List EntryItem → List EntryItem → List EntryItem
keep_entries items other [] kept = kept
keep_entries items other (it ∷ todo) kept =
    keep_entries items other todo
      (if is_redundant it items other || has_folded it.folded kept then kept else kept ++ it ∷ [])

-- `sort.Slice` by the written form; no two kept entries have the same.
unfoldable pub insert_entry : EntryItem → List EntryItem → List EntryItem
insert_entry it [] = it ∷ []
insert_entry it (k ∷ ks) =
    let rest = insert_entry it ks in if bytes_less it.raw k.raw then it ∷ k ∷ ks else k ∷ rest

unfoldable pub sort_entries : List EntryItem → List EntryItem
sort_entries [] = []
sort_entries (it ∷ items) = insert_entry it (sort_entries items)

-- the last loop of `collapseEntries`
abbrev pub set_of : List EntryItem → EntrySet
set_of kept = record {
  entries = map (λ (k : EntryItem). k.raw) kept;
  folded = map (λ (k : EntryItem). k.folded) kept;
}

abbrev pub kept_entries : List EntryItem → List EntryItem → List EntryItem
kept_entries items other = sort_entries (keep_entries items other items [])

unfoldable pub collapse_entries : List EntryItem → List EntryItem → EntrySet
collapse_entries items other = set_of (kept_entries items other)

unfoldable pub covers : Bytes → Bytes → Bool
covers entry path = path == entry || is_entry_ancestor entry path

-- the test of the loop of `covering` for a longer match
abbrev pub longer : Bytes → Option (Bytes × Bytes) → Bool
longer e none = true
longer e (some (raw, folded)) = ltb (length folded) (length e)

unfoldable pub covering_from :
    Bytes → List Bytes → List Bytes → Option (Bytes × Bytes) → Option (Bytes × Bytes)
covering_from path (r ∷ raws) (e ∷ es) found =
    covering_from path raws es (if covers e path && longer e found then some (r, e) else found)
covering_from path _ _ found = found

-- `covering`: the written and the folded form of the longest entry over a folded path.
unfoldable pub covering : EntrySet → Bytes → Option (Bytes × Bytes)
covering s folded_path = covering_from folded_path s.entries s.folded none
