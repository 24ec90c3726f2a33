-- ===== src/Notebook/Cleanup/Safe.antt =====
-- What `cleanupPacks` of internal/notebook/checkpoint.go deletes.
use mathlib.Core.Path.{subst}
use slivingdoc.Base.{
  ℕ, zero, suc, ◌≤◌, ◌≡◌, refl, true, false, Option, none, some, List, [], ◌∷◌, ◌++◌, inl, inr, ◌⊎◌,
  In, In-append, In-append_left, In-append_right, In-contains, Bytes, bytes_eq, contains,
  Bool-cases, arith, take, drop, take_append_drop, codes, length, Result, ok, err,
}
use slivingdoc.Storage.Key.{UuidLibrary, Key}
use slivingdoc.Storage.Parse.{ParseError, parse_key}
use slivingdoc.Notebook.Cleanup.{
  CleanupStore, at_or_before, candidates, unreferenced, delete_batch, with_roots, run_batches,
  listed, cleanup_packs, cleanup_batch_size,
}

-- A key that the protocol's grammar accepts, of a generation up to the cutoff.
abbrev pub IsCandidate : UuidLibrary → ℕ → Bytes → Type 0
IsCandidate lib cutoff key = (k : Key) × (parse_key lib key ≡ ok k) × (k.generation ≤ cutoff)

-- A call of the store, with the roots that it answered or the keys that it was given.
pub data Call : Type 0 where
  list_call : Bytes → Call
  roots_call : Option (List Bytes) → Call
  delete_call : List Bytes → Call

-- The same store, which also records its calls, the last one first.
abbrev pub recorded : {S : Type 0} → CleanupStore S → CleanupStore (S × List Call)
recorded store = record {
  list_objects = λ (s, calls) prefix.
      let (keys, s') = store.list_objects s prefix in (keys, (s', Call.list_call prefix ∷ calls));
  delete_objects = λ (s, calls) keys.
      let (done, s') = store.delete_objects s keys in (done, (s', Call.delete_call keys ∷ calls));
  roots = λ (s, calls).
      let (active, s') = store.roots s in (active, (s', Call.roots_call active ∷ calls));
}

-- The keys of a deletion were candidates, and none is among the roots that the call just before it
-- has answered.
abbrev pub IsSafeAfter : UuidLibrary → ℕ → List Bytes → List Call → Type 0
IsSafeAfter lib cutoff doomed (Call.roots_call (some active) ∷ _) =
    (key : Bytes) → In key doomed → IsCandidate lib cutoff key × (¬ In key active)
IsSafeAfter lib cutoff doomed _ = ⊥

abbrev pub AreSafe : UuidLibrary → ℕ → List Call → Type 0
AreSafe lib cutoff [] = Unit {0}
AreSafe lib cutoff (Call.delete_call doomed ∷ calls) =
    IsSafeAfter lib cutoff doomed calls × AreSafe lib cutoff calls
AreSafe lib cutoff (Call.list_call _ ∷ calls) = AreSafe lib cutoff calls
AreSafe lib cutoff (Call.roots_call _ ∷ calls) = AreSafe lib cutoff calls

In-unreferenced :
    (active keys : List Bytes) (key : Bytes)
    → In key (unreferenced active keys)
    → In key keys × (¬ In key active)
unfolding unreferenced
In-unreferenced active [] key m = absurd m
In-unreferenced active (k ∷ ks) key m = elim (Bool-cases (contains active k)) [
  | inl held ↦ let (n, free) = In-unreferenced active ks key (rw held at m) in (inr n, free)
  | inr free ↦ first_or_later free (In-unreferenced active ks key) (rw free at m)
]
  where
    first_or_later :
        contains active k ≡ false
        → (In key (unreferenced active ks) → In key ks × (¬ In key active))
        → (key ≡ k) ⊎ In key (unreferenced active ks)
        → In key (k ∷ ks) × (¬ In key active)
    first_or_later free rest (inl p) =
        (inl p, λ n. ground (arith, In-contains active key n, free, p))
    first_or_later free rest (inr n) = let (o, f) = rest n in (inr o, f)

module _ (lib : UuidLibrary) (cutoff : ℕ) where
  IsCandidate-parsed :
      (key : Bytes) (r : Result ParseError Key)
      → parse_key lib key ≡ r
      → at_or_before cutoff r ≡ true
      → IsCandidate lib cutoff key
  IsCandidate-parsed key (ok k) e h = (k, e, ground arith)
  IsCandidate-parsed key (err x) e h = absurd (ground arith)

  In-candidates :
      (keys : List Bytes) (key : Bytes)
      → In key (candidates lib cutoff keys)
      → IsCandidate lib cutoff key
  unfolding candidates
  In-candidates [] key m = absurd m
  In-candidates (k ∷ ks) key m = elim (Bool-cases (at_or_before cutoff (parse_key lib k))) [
    | inl taken ↦ first_or_later taken (In-candidates ks key) (rw taken at m)
    | inr left ↦ In-candidates ks key (rw left at m)
  ]
    where
      first_or_later :
          at_or_before cutoff (parse_key lib k) ≡ true
          → (In key (candidates lib cutoff ks) → IsCandidate lib cutoff key)
          → (key ≡ k) ⊎ In key (candidates lib cutoff ks)
          → IsCandidate lib cutoff key
      first_or_later taken rest (inl p) = rw p (IsCandidate-parsed k (parse_key lib k) refl taken)
      first_or_later taken rest (inr n) = rest n

  module _ {S : Type 0} (store : CleanupStore S) where
    abbrev Recorded : Type 0
    Recorded = S × List Call

    delete_batch-AreSafe :
        (active doomed : List Bytes) (s : S) (calls : List Call)
        → ((key : Bytes) → In key doomed → IsCandidate lib cutoff key × (¬ In key active))
        → AreSafe lib cutoff calls
        → AreSafe lib cutoff
            (delete_batch (recorded store) doomed (s, Call.roots_call (some active) ∷ calls)).1
    unfolding delete_batch
    delete_batch-AreSafe active [] s calls free safe = safe
    delete_batch-AreSafe active (k ∷ ks) s calls free safe = (free, safe)

    with_roots-AreSafe :
        (batch : List Bytes) (r : Option (List Bytes) × S) (calls : List Call)
        (next : Recorded → Recorded)
        → ((key : Bytes) → In key batch → IsCandidate lib cutoff key)
        → AreSafe lib cutoff calls
        → ((s : Recorded) → AreSafe lib cutoff s.1 → AreSafe lib cutoff (next s).1)
        → AreSafe lib cutoff
            (with_roots (recorded store) batch (r.0, (r.1, Call.roots_call r.0 ∷ calls)) next).1
    with_roots-AreSafe batch (none, s) calls next known safe rest = safe
    with_roots-AreSafe batch (some active, s) calls next known safe rest =
        rest
          (delete_batch (recorded store) (unreferenced active batch)
            (s, Call.roots_call (some active) ∷ calls))
          (delete_batch-AreSafe active (unreferenced active batch) s calls
            (λ key m. let (held, out) = In-unreferenced active batch key m in (known key held, out))
            safe)

    run_batches-AreSafe :
        (fuel : ℕ) (keys : List Bytes) (s : Recorded)
        → ((key : Bytes) → In key keys → IsCandidate lib cutoff key)
        → AreSafe lib cutoff s.1
        → AreSafe lib cutoff (run_batches (recorded store) fuel keys s).1
    unfolding run_batches
    run_batches-AreSafe zero keys s known safe = safe
    run_batches-AreSafe (suc fuel) [] s known safe = safe
    run_batches-AreSafe (suc fuel) (k ∷ ks) (s, calls) known safe =
        with_roots-AreSafe (take cleanup_batch_size (k ∷ ks)) (store.roots s) calls
          (run_batches (recorded store) fuel (drop cleanup_batch_size (k ∷ ks)))
          (λ key n. known key (in_front key n)) safe
          (λ s'.
            run_batches-AreSafe fuel (drop cleanup_batch_size (k ∷ ks)) s'
              (λ key n. known key (in_back key n)))
      where
        in_front : (key : Bytes) → In key (take cleanup_batch_size (k ∷ ks)) → In key (k ∷ ks)
        in_front key n =
            subst (In key) (take_append_drop cleanup_batch_size (k ∷ ks))
              (In-append_left key (take cleanup_batch_size (k ∷ ks)) _ n)

        in_back : (key : Bytes) → In key (drop cleanup_batch_size (k ∷ ks)) → In key (k ∷ ks)
        in_back key n =
            subst (In key) (take_append_drop cleanup_batch_size (k ∷ ks))
              (In-append_right key (take cleanup_batch_size (k ∷ ks)) _ n)

    listed-AreSafe :
        (r : Option (List Bytes) × Recorded) (next : List Bytes → Recorded → Recorded)
        → AreSafe lib cutoff r.1.1
        → ((keys : List Bytes) (s : Recorded)
            → ((key : Bytes) → In key keys → IsCandidate lib cutoff key)
            → AreSafe lib cutoff s.1
            → AreSafe lib cutoff (next keys s).1)
        → AreSafe lib cutoff (listed (recorded store) lib cutoff r next).1
    listed-AreSafe (none, s) next safe rest = safe
    listed-AreSafe (some keys, s) next safe rest =
        rest (candidates lib cutoff keys) s (In-candidates keys) safe

    -- Whatever the store answers, every deletion that a cleanup asks the store for comes right after
    -- a reading of the roots, and every key of it is a canonical pack key of a generation up to the
    -- cutoff that is not among those roots.
    pub cleanup_packs-AreSafe :
        (s : S) → AreSafe lib cutoff (cleanup_packs (recorded store) lib cutoff (s, [])).1
    unfolding cleanup_packs
    cleanup_packs-AreSafe s =
        listed-AreSafe ((recorded store).list_objects (s, []) (codes "packs/checkpoints/")) _ tt
          (λ checkpoints s' known safe.
            listed-AreSafe ((recorded store).list_objects s' (codes "packs/increments/")) _ safe
              (λ increments s'' known'.
                run_batches-AreSafe (length (checkpoints ++ increments)) (checkpoints ++ increments)
                  s'' (either checkpoints increments known known')))
      where
        either :
            (xs ys : List Bytes)
            → ((key : Bytes) → In key xs → IsCandidate lib cutoff key)
            → ((key : Bytes) → In key ys → IsCandidate lib cutoff key)
            → (key : Bytes) → In key (xs ++ ys)
            → IsCandidate lib cutoff key
        either xs ys f g key n = elim (In-append key xs ys n) [ inl l ↦ f key l | inr r ↦ g key r ]
