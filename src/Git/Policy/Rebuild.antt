-- ===== src/Git/Policy/Rebuild.antt =====
-- The entries that a policy hands out make a policy that answers as it does.
use mathlib.Core.Path.{subst}
use slivingdoc.Base.{
  ◌≡◌, refl, sym, ◌↔◌, inl, inr, Bool, true, false, none, List, [], ◌∷◌, map, ◌==◌, bytes_eq,
  bytes_beq_iff, Bytes, In, All, All-of, All-In, arith, Bool-cases, Result, ok, err,
  trim_suffix_byte, trim_none,
}
use slivingdoc.Git.Path.{TextLibrary, PathError, validate_path}
use slivingdoc.Git.Path.Segments.{validate_path-outer}
use slivingdoc.Git.Entries.{EntryItem, set_of, collapse_entries, kept_entries, validate_entries}
use slivingdoc.Git.Entries.Collapse.{kept-In}
use slivingdoc.Git.Policy.{PathPolicy, overlapping, same_entry, collapsed, new_policy, protects}
use slivingdoc.Git.Policy.Decides.{Apart}
use slivingdoc.Git.Policy.Lossless.{
  Apart-kept, new_policy-Made, policy_of, protects-sets, kept-Protected,
}

module _ (text : TextLibrary) where
  -- An item that `validateEntries` makes of its own written form.
  record IsEntry (it : EntryItem) : Type 0 where
    trimmed : trim_suffix_byte b'/' it.raw ≡ it.raw
    accepted : validate_path text it.raw ≡ ok tt
    folded : it.folded ≡ text.fold it.raw

  item_of : Bytes → EntryItem
  item_of raw = record { raw = raw; folded = text.fold raw }

  item-IsEntry : (raw : Bytes) → validate_path text raw ≡ ok tt → IsEntry (item_of raw)
  unfolding item_of
  item-IsEntry raw h = record {
    trimmed = trim_none b'/' raw (validate_path-outer text raw h);
    accepted = h;
    folded = refl;
  }

  validate_entries-IsEntry :
      (rs : List Bytes) (items : List EntryItem)
      → validate_entries text rs ≡ ok items
      → All IsEntry items
  unfolding validate_entries item_of
  validate_entries-IsEntry [] items h = subst_nil items (ground arith)
    where
      subst_nil : (xs : List EntryItem) → xs ≡ [] → All IsEntry xs
      subst_nil xs e = rw e tt
  validate_entries-IsEntry (r ∷ rs) items h =
      go (validate_path text (trim_suffix_byte b'/' r)) refl (validate_entries text rs) refl
        (validate_entries-IsEntry rs)
    where
      go :
          (v : Result PathError Unit)
          → validate_path text (trim_suffix_byte b'/' r) ≡ v
          → (o : Result _ (List EntryItem)) → validate_entries text rs ≡ o
          → ((xs : List EntryItem) → validate_entries text rs ≡ ok xs → All IsEntry xs)
          → All IsEntry items
      go (err e) p o q ih = absurd (ground arith)
      go (ok _) p (err e) q ih = absurd (ground arith)
      go (ok u) p (ok xs) q ih =
          let e : items ≡ item_of (trim_suffix_byte b'/' r) ∷ xs = ground (arith, p, q) in
          subst (λ t. All IsEntry t) (sym e)
            (item-IsEntry (trim_suffix_byte b'/' r) (ground (arith, p)), ih xs q)

  validate_entries-raw :
      (ks : List EntryItem)
      → All IsEntry ks
      → validate_entries text (map (λ (k : EntryItem). k.raw) ks) ≡ ok ks
  unfolding validate_entries
  validate_entries-raw [] h = refl
  validate_entries-raw (k ∷ ks) h =
      let trimmed = h.0.trimmed in
      let accepted = h.0.accepted in
      let folded = h.0.folded in
      ground (arith, trimmed, accepted, folded, validate_entries-raw ks h.1)

  kept-IsEntry :
      (items other : List EntryItem) → All IsEntry items → All IsEntry (kept_entries items other)
  kept-IsEntry items other h =
      All-of IsEntry (kept_entries items other)
        (λ k m. All-In IsEntry k items h (kept-In items other k m))

  Apart-same :
      (r : EntryItem) (ws : List EntryItem)
      → ((b : EntryItem) → In b ws → ¬ (r.folded ≡ b.folded))
      → same_entry r ws ≡ none
  unfolding same_entry
  Apart-same r [] h = refl
  Apart-same r (w ∷ ws) h = elim (Bool-cases (r.folded == w.folded)) [
    | inl same ↦ absurd (h w (inl refl) ((bytes_beq_iff r.folded w.folded).0 same))
    | inr differ ↦ rw differ (Apart-same r ws (λ b m. h b (inr m)))
  ]

  Apart-overlapping : (rs ws : List EntryItem) → Apart rs ws → overlapping rs ws ≡ none
  unfolding overlapping
  Apart-overlapping [] ws h = refl
  Apart-overlapping (r ∷ rs) ws h =
      rw (Apart-same r ws (λ b m. h r b (inl refl) m))
        (Apart-overlapping rs ws (λ a b m n. h a b (inr m) n))

  new_policy-entries :
      (ks js : List EntryItem)
      → All IsEntry ks
      → All IsEntry js
      → Apart ks js
      → new_policy text (set_of ks).entries (set_of js).entries
        ≡ ok (policy_of (kept_entries ks js) (kept_entries js ks))
  unfolding new_policy collapsed collapse_entries
  new_policy-entries ks js h k apart =
      ground
        (arith, validate_entries-raw ks h, validate_entries-raw js k, Apart-overlapping ks js apart)

  same_answer : (b c : Bool) {P : Type 0} → (b ≡ true) ↔ P → (c ≡ true) ↔ P → b ≡ c
  same_answer true c h k = sym (k.1 (h.0 refl))
  same_answer false true h k = h.1 (k.0 refl)
  same_answer false false h k = refl

  -- `ReadOnly` and `Writable` of a policy are accepted by `NewPolicy` again, and the policy that it
  -- makes of them protects the same paths.
  pub rebuild-protects :
      (rs ws : List Bytes) (p : PathPolicy)
      → new_policy text rs ws ≡ ok p
      → (q : PathPolicy) × (new_policy text p.read_only.entries p.writable.entries ≡ ok q)
        × ((path : Bytes) → protects text q path ≡ protects text p path)
  rebuild-protects rs ws p h =
      let (ro, wr, m) = new_policy-Made text rs ws p h in
      let kro = kept_entries ro wr in
      let kwr = kept_entries wr ro in
      let apart = Apart-kept ro wr m.apart in
      let again =
        new_policy-entries kro kwr (kept-IsEntry ro wr (validate_entries-IsEntry rs ro m.from_ro))
          (kept-IsEntry wr ro (validate_entries-IsEntry ws wr m.from_wr)) apart in
      (
        policy_of (kept_entries kro kwr) (kept_entries kwr kro),
        subst
            (λ (x : PathPolicy).
              new_policy text x.read_only.entries x.writable.entries
              ≡ ok (policy_of (kept_entries kro kwr) (kept_entries kwr kro)))
            (sym m.sets) again,
        λ path. same kro kwr m.sets apart path,
      )
    where
      same :
          (ks js : List EntryItem)
          → p ≡ policy_of ks js
          → Apart ks js
          → (path : Bytes)
          → protects text (policy_of (kept_entries ks js) (kept_entries js ks)) path
            ≡ protects text p path
      same ks js e apart path =
          let kept = kept-Protected ks js apart (text.fold path) in
          let left =
            protects-sets text (kept_entries ks js) (kept_entries js ks) path
              (Apart-kept ks js apart) in
          let right = protects-sets text ks js path apart in
          rw e (same_answer _ _ (λ x. kept.0 (left.0 x), λ x. left.1 (kept.1 x)) right)
