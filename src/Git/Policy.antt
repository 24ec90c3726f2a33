-- ===== src/Git/Policy.antt =====
-- internal/git/policy.go: which paths of a notebook may not be written.
pub mod Decides
pub mod Lossless
pub mod Rebuild
use slivingdoc.Base.{
  ℕ, Bool, true, false, not, ◌&&◌, ◌||◌, Option, none, some, List, [], ◌∷◌, ◌==◌, nat_eq, bytes_eq,
  Bytes, ltb, length, if◌then◌else◌, Result, ok, err, ◌>>=◌,
}
use slivingdoc.Git.Path.{TextLibrary, PathError}
use slivingdoc.Git.Entries.{EntryItem, EntrySet, validate_entries, collapse_entries, covering}

pub data EntryKind : Type 0 where
  kind_read_only : EntryKind
  kind_writable : EntryKind

pub data PolicyError : Type 0 where
  invalid_entry : EntryKind → Bytes → PathError → PolicyError
  overlap : Bytes → Bytes → PolicyError

pub record PathPolicy : Type 0 where
  pub read_only : EntrySet
  pub writable : EntrySet

-- The two nested loops of `NewPolicy`: the first read-only entry and, for it, the first writable
-- entry with the same folded form.
same_entry : EntryItem → List EntryItem → Option PolicyError
same_entry r [] = none
same_entry r (w ∷ ws) =
    let rest = same_entry r ws in
    if r.folded == w.folded then some (PolicyError.overlap r.raw w.raw) else rest

or_else : Option PolicyError → Option PolicyError → Option PolicyError
or_else (some e) o = some e
or_else none o = o

unfoldable pub overlapping : List EntryItem → List EntryItem → Option PolicyError
unfolding same_entry or_else
overlapping [] ws = none
overlapping (r ∷ rs) ws = or_else (same_entry r ws) (overlapping rs ws)

abbrev pub as_policy_error :
    EntryKind → Result (Bytes × PathError) (List EntryItem) → Result PolicyError (List EntryItem)
as_policy_error kind (ok items) = ok items
as_policy_error kind (err (raw, e)) = err (PolicyError.invalid_entry kind raw e)

unfoldable pub collapsed :
    Option PolicyError → List EntryItem → List EntryItem → Result PolicyError PathPolicy
collapsed (some e) ro wr = err e
collapsed none ro wr =
    ok (record { read_only = collapse_entries ro wr; writable = collapse_entries wr ro })

-- `PathPolicy.Configured`
unfoldable pub configured : PathPolicy → Bool
configured p = not (length p.read_only.entries == 0) || not (length p.writable.entries == 0)

-- The `switch` of `Protects` over the two longest matches.
unfoldable pub resolve : Option (Bytes × Bytes) → Option (Bytes × Bytes) → Bool → Bool
resolve (some (_, ro)) (some (_, wr)) unmatched = ltb (length wr) (length ro)
resolve (some _) none unmatched = true
resolve none (some _) unmatched = false
resolve none none unmatched = unmatched

module _ (text : TextLibrary) where
  unfoldable pub new_policy : List Bytes → List Bytes → Result PolicyError PathPolicy
  new_policy read_only writable = do
    ro ← as_policy_error EntryKind.kind_read_only (validate_entries text read_only)
    wr ← as_policy_error EntryKind.kind_writable (validate_entries text writable)
    collapsed (overlapping ro wr) ro wr

  unfoldable pub protects : PathPolicy → Bytes → Bool
  protects p path =
      if configured p
      then resolve (covering p.read_only (text.fold path)) (covering p.writable (text.fold path))
          (not (length p.writable.entries == 0))
      else false
