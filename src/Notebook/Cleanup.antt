-- ===== src/Notebook/Cleanup.antt =====
-- internal/notebook/checkpoint.go: the removal of packs that no manifest references. The object store
-- is a parameter with a state; its metrics and log lines are left out.
pub mod Safe
pub mod Fuel
pub mod Samples
use slivingdoc.Base.{
  ℕ, zero, suc, Bool, true, false, not, Option, none, some, List, [], ◌∷◌, ◌++◌, ◌==◌, nat_eq,
  bytes_eq, Bytes, codes, leb, length, take, drop, contains, if◌then◌else◌, Result, ok, err,
}
use slivingdoc.Storage.Key.{UuidLibrary, Key}
use slivingdoc.Storage.Parse.{ParseError, parse_key}

-- `ListObjects`, `DeleteObjects` and the reread of the roots, each with the state it leaves; `none`
-- and `false` stand for an error.
pub record CleanupStore (S : Type 0) : Type 0 where
  pub list_objects : S → Bytes → Option (List Bytes) × S
  pub delete_objects : S → List Bytes → Bool × S
  pub roots : S → Option (List Bytes) × S

abbrev pub cleanup_batch_size : ℕ
cleanup_batch_size = 1000

abbrev pub at_or_before : ℕ → Result ParseError Key → Bool
at_or_before cutoff (ok k) = leb k.generation cutoff
at_or_before cutoff (err _) = false

module _ (lib : UuidLibrary) where
  -- The callback of `ListObjects` over the listed keys.
  unfoldable pub candidates : ℕ → List Bytes → List Bytes
  candidates cutoff [] = []
  candidates cutoff (k ∷ ks) =
      let rest = candidates cutoff ks in
      if at_or_before cutoff (parse_key lib k) then k ∷ rest else rest

-- The keys of a batch that are not referenced.
unfoldable pub unreferenced : List Bytes → List Bytes → List Bytes
unreferenced active [] = []
unreferenced active (k ∷ ks) =
    let rest = unreferenced active ks in if contains active k then rest else k ∷ rest

module _ {S : Type 0} (store : CleanupStore S) where
  -- One round for a batch whose roots were read. An error of the deletion is only logged.
  unfoldable pub delete_batch : List Bytes → S → S
  delete_batch [] s = s
  delete_batch (k ∷ ks) s = (store.delete_objects s (k ∷ ks)).1

  abbrev pub with_roots : List Bytes → Option (List Bytes) × S → (S → S) → S
  with_roots batch (none, s) next = s
  with_roots batch (some active, s) next = next (delete_batch (unreferenced active batch) s)

  -- The loop over the batches, on fuel: each round takes at least one key.
  unfoldable pub run_batches : ℕ → List Bytes → S → S
  run_batches zero keys s = s
  run_batches (suc fuel) [] s = s
  run_batches (suc fuel) (k ∷ ks) s =
      with_roots (take cleanup_batch_size (k ∷ ks)) (store.roots s)
        (run_batches fuel (drop cleanup_batch_size (k ∷ ks)))

  module _ (lib : UuidLibrary) where
    abbrev pub listed : ℕ → Option (List Bytes) × S → (List Bytes → S → S) → S
    listed cutoff (none, s) next = s
    listed cutoff (some keys, s) next = next (candidates lib cutoff keys) s

    -- `cleanupPacks`: the state that its calls of the store leave.
    unfoldable pub cleanup_packs : ℕ → S → S
    cleanup_packs cutoff s =
        listed cutoff (store.list_objects s (codes "packs/checkpoints/")) (λ checkpoints s'.
          listed cutoff (store.list_objects s' (codes "packs/increments/")) (λ increments s''.
            run_batches (length (checkpoints ++ increments)) (checkpoints ++ increments) s''))
