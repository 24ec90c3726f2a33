-- ===== src/Storage/Manifest/Check.antt =====
-- internal/storage/manifest.go: `validateManifest`, with the state of its three maps passed on.
use slivingdoc.Base.{
  ℕ, Bool, true, not, List, [], ◌∷◌, Option, none, some, ◌==◌, leb, nat_eq, bytes_eq, Bytes, Result,
  ok, ◌>>=◌, ◌>>◌, require, contains, lookup,
}
use slivingdoc.Storage.Key.{Uuid, UuidLibrary, Key, PackKind, kind_eq, key_text}
use slivingdoc.Storage.Manifest.Types.{Oid, Checkpoint, Increment, Retained, Manifest}
use slivingdoc.Storage.Manifest.Valid.{add64, final_generation}

-- The refusals, one for each message.
pub data ManifestError : Type 0 where
  generation_zero : ManifestError
  size_zero : ManifestError
  wrong_kind : ManifestError
  wrong_generation : ManifestError
  wrong_id : ManifestError
  duplicate_key : ManifestError
  duplicate_checkpoint_id : ManifestError
  rebound_publication : ManifestError
  not_after_cutoff : ManifestError
  not_consecutive : ManifestError
  wrong_parent : ManifestError
  wrong_head : ManifestError
  cutoff_beyond_generation : ManifestError
  retained_order : ManifestError
  retained_too_early : ManifestError

abbrev pub Checked : Type 0 → Type 0
Checked = Result ManifestError

-- `seenKeys`, `seenCheckpointIDs` and `pubHeads`, the newest entry first.
pub record Seen : Type 0 where
  pub keys : List Bytes
  pub ids : List Uuid
  pub heads : List (Uuid × Oid)

unfoldable pub check_descriptor_key : Key → PackKind → ℕ → Uuid → Checked (Unit {0})
check_descriptor_key k kind generation id = do
  require (k.kind == kind) ManifestError.wrong_kind
  require (k.generation == generation) ManifestError.wrong_generation
  require (k.id == id) ManifestError.wrong_id

-- `!(dup && h != head)` of a look-up in `pubHeads`
unfoldable pub binds_same : Option Oid → Oid → Bool
binds_same none head = true
binds_same (some h) head = h == head

module _ (lib : UuidLibrary) where
  -- the body of the loop of `checkChain`
  unfoldable pub check_increment : Oid → ℕ → Seen → Increment → Checked Seen
  check_increment prev_head prev_gen seen inc = do
    require (not (inc.size == 0)) ManifestError.size_zero
    require (not (leb inc.generation prev_gen)) ManifestError.not_after_cutoff
    require (inc.generation == add64 prev_gen 1) ManifestError.not_consecutive
    require (inc.parent == prev_head) ManifestError.wrong_parent
    check_descriptor_key inc.key PackKind.increment inc.generation inc.publication
    require (not (contains seen.keys (key_text lib inc.key))) ManifestError.duplicate_key
    require (binds_same (lookup inc.publication seen.heads) inc.head)
        ManifestError.rebound_publication
    ok (record seen {
      keys = key_text lib inc.key ∷ seen.keys;
      heads = (inc.publication, inc.head) ∷ seen.heads;
    })

  unfoldable pub check_increments : Oid → ℕ → Seen → List Increment → Checked (Oid × Seen)
  check_increments prev_head prev_gen seen [] = ok (prev_head, seen)
  check_increments prev_head prev_gen seen (inc ∷ incs) = do
    seen' ← check_increment prev_head prev_gen seen inc
    check_increments inc.head inc.generation seen' incs

  -- the part of `checkChain` before its loop
  unfoldable pub check_checkpoint : Seen → Checkpoint → Checked Seen
  check_checkpoint seen c = do
    require (not (c.size == 0)) ManifestError.size_zero
    check_descriptor_key c.key PackKind.checkpoint c.through_generation c.id
    require (not (contains seen.keys (key_text lib c.key))) ManifestError.duplicate_key
    require (not (contains seen.ids c.id)) ManifestError.duplicate_checkpoint_id
    require (binds_same (lookup c.publication seen.heads) c.head) ManifestError.rebound_publication
    ok (record {
      keys = key_text lib c.key ∷ seen.keys;
      ids = c.id ∷ seen.ids;
      heads = (c.publication, c.head) ∷ seen.heads;
    })

  -- `checkChain`: the final tail head, and what was seen
  unfoldable pub check_chain : Seen → Checkpoint → List Increment → Checked (Oid × Seen)
  check_chain seen c incs = do
    seen' ← check_checkpoint seen c
    check_increments c.head c.through_generation seen' incs

  -- the body of the last loop of `validateManifest`
  unfoldable pub check_retained_entry : ℕ → Seen → Retained → Checked Seen
  check_retained_entry last_retired seen r = do
    require (not (leb last_retired r.retired_at_generation)) ManifestError.retained_order
    require
        (not (
          leb r.retired_at_generation
            (final_generation r.checkpoint.through_generation r.increments)))
        ManifestError.retained_too_early
    (final_head, seen') ← check_chain seen r.checkpoint r.increments
    require (r.head == final_head) ManifestError.wrong_head
    ok seen'

  unfoldable pub check_retained : ℕ → Seen → List Retained → Checked (Unit {0})
  check_retained last_retired seen [] = ok tt
  check_retained last_retired seen (r ∷ rs) = do
    seen' ← check_retained_entry last_retired seen r
    check_retained r.retired_at_generation seen' rs

  unfoldable pub validate_manifest : Manifest → Checked (Unit {0})
  validate_manifest m = do
    require (not (m.generation == 0)) ManifestError.generation_zero
    (final_head, seen) ←
        check_chain (record { keys = []; ids = []; heads = [] }) m.checkpoint m.increments
    require (m.head == final_head) ManifestError.wrong_head
    require (leb m.checkpoint.through_generation m.generation)
        ManifestError.cutoff_beyond_generation
    check_retained (add64 m.generation 1) seen m.retained
