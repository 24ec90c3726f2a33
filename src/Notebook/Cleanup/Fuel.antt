-- ===== src/Notebook/Cleanup/Fuel.antt =====
-- The fuel of the loop of `cleanupPacks` of internal/notebook/checkpoint.go is enough.
use slivingdoc.Base.{
  ℕ, zero, suc, ◌≤◌, ◌≡◌, refl, Option, none, some, List, [], ◌∷◌, Bytes, arith, take, drop, length,
}
use slivingdoc.Notebook.Cleanup.{
  CleanupStore, unreferenced, delete_batch, with_roots, run_batches, cleanup_batch_size,
}

length-drop : (n : ℕ) (xs : List Bytes) → length (drop n xs) ≤ length xs
unfolding drop
length-drop zero xs = omega arith
length-drop (suc n) [] = omega arith
length-drop (suc n) (x ∷ xs) = omega (arith, length-drop n xs)

length-drop_cons :
    (n : ℕ) (x : Bytes) (xs : List Bytes) → length (drop (suc n) (x ∷ xs)) ≤ length xs
unfolding drop
length-drop_cons n x xs = length-drop n xs

module _ {S : Type 0} (store : CleanupStore S) where
  with_roots-same :
      (batch : List Bytes) (r : Option (List Bytes) × S) (next next' : S → S)
      → ((s : S) → next s ≡ next' s)
      → with_roots store batch r next ≡ with_roots store batch r next'
  with_roots-same batch (none, s) next next' same = refl
  with_roots-same batch (some active, s) next next' same =
      same (delete_batch store (unreferenced active batch) s)

  -- The loop over the batches does the same on every fuel that is at least the number of keys, so
  -- that it never ends for want of fuel: each round takes at least one key.
  pub run_batches-fuel :
      (fuel fuel' : ℕ) (keys : List Bytes) (s : S)
      → length keys ≤ fuel
      → length keys ≤ fuel'
      → run_batches store fuel keys s ≡ run_batches store fuel' keys s
  unfolding run_batches
  run_batches-fuel zero zero keys s h h' = refl
  run_batches-fuel zero (suc fuel') [] s h h' = refl
  run_batches-fuel zero (suc fuel') (k ∷ ks) s h h' = absurd (omega arith)
  run_batches-fuel (suc fuel) zero [] s h h' = refl
  run_batches-fuel (suc fuel) zero (k ∷ ks) s h h' = absurd (omega arith)
  run_batches-fuel (suc fuel) (suc fuel') [] s h h' = refl
  run_batches-fuel (suc fuel) (suc fuel') (k ∷ ks) s h h' =
      with_roots-same (take cleanup_batch_size (k ∷ ks)) (store.roots s)
        (run_batches store fuel (drop cleanup_batch_size (k ∷ ks)))
        (run_batches store fuel' (drop cleanup_batch_size (k ∷ ks)))
        (λ s'.
          run_batches-fuel fuel fuel' (drop cleanup_batch_size (k ∷ ks)) s'
            (omega (arith, length-drop_cons 999 k ks)) (omega (arith, length-drop_cons 999 k ks)))
