-- ===== src/Git/Policy/Lossless.antt =====
-- The collapse of `NewPolicy` loses nothing: the policy answers as the written entries do, and the
-- policy made from its own entries answers alike.
use mathlib.Core.Path.{subst, subst₂}
use slivingdoc.Base.{
  suc, ◌≡◌, ◌≢◌, refl, sym, ap, ◌∙◌, ◌↔◌, inl, inr, true, false, not, Option, none, some, List, [],
  ◌∷◌, map, ◌==◌, nat_eq, bytes_eq, bytes_beq_iff, Bytes, length, In, arith, Result, ok, err,
  bind-ok,
}
use slivingdoc.Git.Path.{TextLibrary}
use slivingdoc.Git.Entries.{
  EntryItem, set_of, covering, collapse_entries, kept_entries, validate_entries,
}
use slivingdoc.Git.Entries.Ancestors.{Below-longer}
use slivingdoc.Git.Entries.Covering.{NoneCovers, covering-Best}
use slivingdoc.Git.Entries.Collapse.{Wins, kept-In, Wins-kept}
use slivingdoc.Git.Policy.{
  PathPolicy, PolicyError, overlapping, same_entry, as_policy_error, collapsed, configured, resolve,
  new_policy, protects,
}
use slivingdoc.Git.Policy.Decides.{Apart, Protected, by_ro, by_wr, by_none, verdict, resolve_lem}

same_entry-none :
    (r w : EntryItem) (ws : List EntryItem)
    → same_entry r ws ≡ none
    → In w ws
    → ¬ (r.folded ≡ w.folded)
unfolding same_entry
same_entry-none r w [] h m e = m
same_entry-none r w (x ∷ ws) h (inl p) e =
    let same : r.folded ≡ x.folded = e ∙ ap (λ (t : EntryItem). t.folded) p in
    ground (arith, (bytes_beq_iff r.folded x.folded).1 same)
same_entry-none r w (x ∷ ws) h (inr m) e = same_entry-none r w ws (ground arith) m e

overlapping-none : (rs ws : List EntryItem) → overlapping rs ws ≡ none → Apart rs ws
unfolding overlapping
overlapping-none [] ws h a b m n e = m
overlapping-none (r ∷ rs) ws h a b (inl p) n e =
    same_entry-none r b ws (ground arith) n (ap (λ (t : EntryItem). t.folded) (sym p) ∙ e)
overlapping-none (r ∷ rs) ws h a b (inr m) n e = overlapping-none rs ws (ground arith) a b m n e

pub Apart-sym : (xs ys : List EntryItem) → Apart xs ys → Apart ys xs
Apart-sym xs ys h b a n m e = h a b m n (sym e)

nonempty : (ks : List EntryItem) (k : EntryItem) → In k ks → ks ≢ []
nonempty [] k m e = m
nonempty (x ∷ ks) k m e = ground arith

module _ (ro wr : List EntryItem) (apart : Apart ro wr) where
  abbrev kro : List EntryItem
  kro = kept_entries ro wr

  abbrev kwr : List EntryItem
  kwr = kept_entries wr ro

  pub Apart-kept : Apart kro kwr
  Apart-kept a b m n = apart a b (kept-In ro wr a m) (kept-In wr ro b n)

  NoneCovers-kept :
      (xs ys : List EntryItem) (path : Bytes)
      → NoneCovers xs path
      → NoneCovers (kept_entries xs ys) path
  NoneCovers-kept xs ys path h k m = h k (kept-In xs ys k m)

  none_written :
      (path : Bytes)
      → NoneCovers kro path
      → NoneCovers kwr path
      → NoneCovers ro path × NoneCovers wr path
  none_written path h k = elim (verdict ro wr apart path) [
    | by_none h' k' ↦ (h', k')
    | by_ro a w ↦ let (c, v) = Wins-kept ro wr apart path a w in absurd (h c v.held v.over)
    | by_wr b w ↦
        let (c, v) = Wins-kept wr ro (Apart-sym ro wr apart) path b w in absurd (k c v.held v.over)
  ]

  -- A set that is not empty keeps an entry.
  kept-nonempty : (w : EntryItem) → In w wr → kwr ≢ []
  kept-nonempty w m = elim (verdict ro wr apart w.folded) [
    | by_none h k ↦ absurd (k w m (inl refl))
    | by_wr b v ↦
        let (c, u) = Wins-kept wr ro (Apart-sym ro wr apart) w.folded b v in nonempty kwr c u.held
    | by_ro a v ↦ absurd (elim v.over [
      | inl same ↦ apart a w v.held m (sym same)
      | inr below ↦ omega (arith, Below-longer a.folded w.folded below, v.beats w m (inl refl))
    ])
  ]

  pub nonempty-kept_iff : (kwr ≢ []) ↔ (wr ≢ [])
  nonempty-kept_iff = (forward kwr refl, backward wr refl)
    where
      forward : (ks : List EntryItem) → kwr ≡ ks → ks ≢ [] → wr ≢ []
      forward [] e n = absurd (n refl)
      forward (k ∷ ks) e n = nonempty wr k (kept-In wr ro k (rw e (inl refl)))

      backward : (ws : List EntryItem) → wr ≡ ws → ws ≢ [] → kwr ≢ []
      backward [] e n = absurd (n refl)
      backward (w ∷ ws) e n = kept-nonempty w (rw e (inl refl))

  Wins-back :
      (path : Bytes) (k : EntryItem) → Wins kwr kro path k → (a : EntryItem) × Wins wr ro path a
  Wins-back path k w = elim (verdict ro wr apart path) [
    | by_ro a v ↦ (a, v)
    | by_wr b v ↦
        let (c, u) = Wins-kept wr ro (Apart-sym ro wr apart) path b v in
        absurd (omega (arith, w.beats c u.held u.over, u.beats k (kept-In ro wr k w.held) w.over))
    | by_none h _ ↦ absurd (h k (kept-In ro wr k w.held) w.over)
  ]

  -- The kept sets decide as the written sets do.
  pub kept-Protected : (path : Bytes) → Protected kro kwr path ↔ Protected ro wr path
  kept-Protected path = (forward, backward)
    where
      forward : Protected kro kwr path → Protected ro wr path
      forward (inl (k, w)) = inl (Wins-back path k w)
      forward (inr (h, k, n)) =
          let (h', k') = none_written path h k in inr (h', k', nonempty-kept_iff.0 n)

      backward : Protected ro wr path → Protected kro kwr path
      backward (inl (a, w)) =
          let (c, v) = Wins-kept ro wr apart path a w in
          inl (
            c,
            record {
              held = v.held;
              over = v.over;
              beats = λ b m o. v.beats b (kept-In wr ro b m) o;
            },
          )
      backward (inr (h, k, n)) =
          inr (NoneCovers-kept ro wr path h, NoneCovers-kept wr ro path k, nonempty-kept_iff.1 n)

length-map-raw : (ks : List EntryItem) → length (map (λ (k : EntryItem). k.raw) ks) ≡ length ks
length-map-raw [] = refl
length-map-raw (k ∷ ks) = ap suc (length-map-raw ks)

not_empty_iff : (ks : List EntryItem) → (not (length (set_of ks).entries == 0) ≡ true) ↔ (ks ≢ [])
not_empty_iff [] = (λ h. absurd (ground arith), λ n. absurd (n refl))
not_empty_iff (k ∷ ks) = (λ h e. ground arith, λ n. ground arith)

abbrev pub policy_of : List EntryItem → List EntryItem → PathPolicy
policy_of ks js = record { read_only = set_of ks; writable = set_of js }

configured_ro : (k : EntryItem) (ks js : List EntryItem) → configured (policy_of (k ∷ ks) js) ≡ true
unfolding configured
configured_ro k ks js = ground arith

configured_wr : (j : EntryItem) (js : List EntryItem) → configured (policy_of [] (j ∷ js)) ≡ true
unfolding configured
configured_wr j js = ground arith

configured_none : configured (policy_of [] []) ≡ false
unfolding configured
configured_none = refl

module _ (text : TextLibrary) where
  answer-Protected :
      (ks js : List EntryItem) (path : Bytes)
      → Apart ks js
      → (resolve
            (covering (set_of ks) (text.fold path))
            (covering (set_of js) (text.fold path))
            (not (length (set_of js).entries == 0))
          ≡ true)
        ↔ Protected ks js (text.fold path)
  answer-Protected ks js path apart =
      resolve_lem ks js (text.fold path) _ _ _ apart (not_empty_iff js)
        (covering-Best (text.fold path) ks) (covering-Best (text.fold path) js)

  pub protects-sets :
      (ks js : List EntryItem) (path : Bytes)
      → Apart ks js
      → (protects text (policy_of ks js) path ≡ true) ↔ Protected ks js (text.fold path)
  unfolding protects
  protects-sets (k ∷ ks) js path apart =
      rw (configured_ro k ks js) (answer-Protected (k ∷ ks) js path apart)
  protects-sets [] (j ∷ js) path apart =
      rw (configured_wr j js) (answer-Protected [] (j ∷ js) path apart)
  protects-sets [] [] path apart = rw configured_none (λ h. absurd (ground arith), back)
    where
      back : Protected [] [] (text.fold path) → false ≡ true
      back (inl (a, w)) = absurd w.held
      back (inr (_, _, n)) = absurd (n refl)

  pub as_policy-ok :
      (kind : _) (r : Result _ (List EntryItem)) (items : List EntryItem)
      → as_policy_error kind r ≡ ok items
      → r ≡ ok items
  as_policy-ok kind (ok xs) items h = ground arith
  as_policy-ok kind (err (raw, e)) items h = absurd (ground arith)

  -- What a policy is made of, if there is one.
  pub record Made (rs ws : List Bytes) (p : PathPolicy) (ro wr : List EntryItem) : Type 0 where
    pub from_ro : validate_entries text rs ≡ ok ro
    pub from_wr : validate_entries text ws ≡ ok wr
    pub apart : Apart ro wr
    pub sets : p ≡ policy_of (kept_entries ro wr) (kept_entries wr ro)

  pub new_policy-Made :
      (rs ws : List Bytes) (p : PathPolicy)
      → new_policy text rs ws ≡ ok p
      → (ro : List EntryItem) × (wr : List EntryItem) × Made rs ws p ro wr
  unfolding new_policy collapsed collapse_entries
  new_policy-Made rs ws p h =
      let (ro, first, h') = bind-ok (as_policy_error _ (validate_entries text rs)) _ h in
      let (wr, second, end) = bind-ok (as_policy_error _ (validate_entries text ws)) _ h' in
      (
        ro,
        wr,
        go ro wr (as_policy-ok _ _ ro first) (as_policy-ok _ _ wr second) (overlapping ro wr) refl
            end,
      )
    where
      go :
          (ro wr : List EntryItem)
          → validate_entries text rs ≡ ok ro
          → validate_entries text ws ≡ ok wr
          → (o : Option PolicyError) → overlapping ro wr ≡ o
          → collapsed o ro wr ≡ ok p
          → Made rs ws p ro wr
      go ro wr f s (some e) q k = absurd (ground arith)
      go ro wr f s none q k = record {
        from_ro = f;
        from_wr = s;
        apart = overlapping-none ro wr q;
        sets = ground arith;
      }

  -- The entries that the operator wrote decide: a path is protected exactly when a written
  -- read-only entry is over it and longer than every writable entry over it, or when no entry is
  -- over it and there is a writable entry. The dropping of covered entries changes no answer.
  pub new_policy-protects :
      (rs ws : List Bytes) (p : PathPolicy) (ro wr : List EntryItem)
      → new_policy text rs ws ≡ ok p
      → validate_entries text rs ≡ ok ro
      → validate_entries text ws ≡ ok wr
      → (path : Bytes) → (protects text p path ≡ true) ↔ Protected ro wr (text.fold path)
  new_policy-protects rs ws p ro wr h f s path =
      let (ro', wr', m) = new_policy-Made rs ws p h in
      let e : ro' ≡ ro = ground (arith, m.from_ro, f) in
      let e' : wr' ≡ wr = ground (arith, m.from_wr, s) in
      let kept =
        protects-sets (kept_entries ro' wr') (kept_entries wr' ro') path
          (Apart-kept ro' wr' m.apart) in
      let written = kept-Protected ro' wr' m.apart (text.fold path) in
      let both : (protects text p path ≡ true) ↔ Protected ro' wr' (text.fold path) =
        subst (λ x. (protects text x path ≡ true) ↔ Protected ro' wr' (text.fold path)) (sym m.sets)
          (λ q. written.0 (kept.0 q), λ q. kept.1 (written.1 q)) in
      subst₂ (λ xs ys. (protects text p path ≡ true) ↔ Protected xs ys (text.fold path)) e e' both
