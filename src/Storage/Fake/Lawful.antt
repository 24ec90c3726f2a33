-- ===== src/Storage/Fake/Lawful.antt =====
-- The in-memory store of internal/storage/fake keeps the contract of internal/storage/store.go.
use mathlib.Core.Path.{subst}
use slivingdoc.Base.{
  ◌≡◌, refl, sym, ◌∙◌, Bool, true, false, Option, none, some, List, ◌∷◌, ◌==◌, bytes_eq,
  bytes_beq_iff, Bytes, arith, ok, err, lookup, nat_eq, if◌then◌else◌,
}
use slivingdoc.Storage.Names.{join_key}
use slivingdoc.Storage.Store.{StoreError, Held, Wrote, Tagged, IsConditional}
use slivingdoc.Storage.Fake.{
  Op, Faults, Memory, held, failed, after_barrier, begin, found, reading, answered, written,
  create_absent, creating, replace_tagged, replacing, memory_store,
}

lookup-newest : (k : Bytes) (h : Held) (m : List (Bytes × Held)) → lookup k ((k, h) ∷ m) ≡ some h
unfolding lookup
lookup-newest k h m = ground (arith, bytes_beq_iff k k)

-- No injected failure claims that an object is absent.
pub record IsHonest {F : Type 0} (engine : Faults F) : Type 0 where
  pub barrier_honest :
      (f : F) (op : Op) (key : Bytes)
      → ¬ ((engine.wait_for_barrier f op key).0 ≡ some StoreError.not_found)
  pub failure_honest :
      (f : F) (op : Op) (key : Bytes)
      → ¬ ((engine.consume_fail f op key).0 ≡ some StoreError.not_found)

module _ {F : Type 0} (engine : Faults F) (etag_for : Bytes → Bytes) where
  begin-held :
      (op : Op) (key : Bytes) (s : Memory F) (j : Bytes)
      → held engine etag_for (begin engine etag_for op key s).1 j ≡ held engine etag_for s j
  unfolding begin
  begin-held op key s j = on_barrier (engine.wait_for_barrier s.faults op key)
    where
      on_fail :
          (r : Option StoreError × F)
          → held engine etag_for (failed engine etag_for op s r).1 j ≡ held engine etag_for s j
      on_fail (some e, f) = refl
      on_fail (none, f) = refl

      on_barrier :
          (r : Option StoreError × F)
          → held engine etag_for (after_barrier engine etag_for op key s r).1 j
            ≡ held engine etag_for s j
      on_barrier (some e, f) = refl
      on_barrier (none, f) = on_fail (engine.consume_fail f op key)

  written-Wrote :
      (allowed : Type 0) (op : Op) (key contents : Bytes) (s : Memory F)
      → allowed
      → let r = written engine etag_for op key contents s in
        Wrote allowed contents (held engine etag_for s key) (held engine etag_for r.1 key) r.0
  written-Wrote allowed op key contents s held_so =
      on_answer (engine.consume_ambiguous s.faults op key)
    where
      object : Held
      object = record { contents = contents; etag = etag_for contents }

      stored : Memory F
      stored = record s { objects = (join_key s.prefix key, object) ∷ s.objects }

      read_back : held engine etag_for stored key ≡ some object
      read_back = lookup-newest (join_key s.prefix key) object s.objects

      on_answer :
          (r : Bool × F)
          → let t = answered engine etag_for stored r in
            Wrote allowed contents (held engine etag_for s key) (held engine etag_for t.1 key) t.0
      on_answer (true, f) = Wrote.lost_response (etag_for contents) held_so read_back
      on_answer (false, f) = Wrote.landed (etag_for contents) held_so read_back

  create-Wrote :
      (s : Memory F) (key contents : Bytes)
      → let r = creating engine etag_for key contents (none, s) in
        Wrote
          (held engine etag_for s key ≡ none)
          contents
          (held engine etag_for s key)
          (held engine etag_for r.1 key)
          r.0
  create-Wrote s key contents = on_held (held engine etag_for s key) refl
    where
      on_held :
          (o : Option Held)
          → held engine etag_for s key ≡ o
          → let r = create_absent engine etag_for key contents s o in
            Wrote
              (held engine etag_for s key ≡ none)
              contents
              (held engine etag_for s key)
              (held engine etag_for r.1 key)
              r.0
      on_held (some h) p = Wrote.unchanged StoreError.precondition_failed refl
      on_held none p = written-Wrote _ Op.create key contents s p

  replace-Wrote :
      (s : Memory F) (key etag contents : Bytes)
      → let r = replacing engine etag_for key etag contents (none, s) in
        Wrote
          (Tagged (held engine etag_for s key) etag)
          contents
          (held engine etag_for s key)
          (held engine etag_for r.1 key)
          r.0
  replace-Wrote s key etag contents = on_held (held engine etag_for s key) refl
    where
      on_held :
          (o : Option Held)
          → held engine etag_for s key ≡ o
          → let r = replace_tagged engine etag_for key etag contents s o in
            Wrote
              (Tagged (held engine etag_for s key) etag)
              contents
              (held engine etag_for s key)
              (held engine etag_for r.1 key)
              r.0
      on_held none p = Wrote.unchanged StoreError.precondition_failed refl
      on_held (some h) p = on_tag (h.etag == etag) refl
        where
          on_tag :
              (b : Bool)
              → (h.etag == etag) ≡ b
              → let r =
                  (if b
                    then written engine etag_for Op.replace key contents s
                    else (some StoreError.precondition_failed, s)) in
                Wrote
                  (Tagged (held engine etag_for s key) etag)
                  contents
                  (held engine etag_for s key)
                  (held engine etag_for r.1 key)
                  r.0
          on_tag true q =
              written-Wrote _ Op.replace key contents s (h, p, (bytes_beq_iff h.etag etag).0 q)
          on_tag false q = Wrote.unchanged StoreError.precondition_failed refl

  -- A start that failed leaves the object, and its error is the answer.
  fails-Wrote :
      (allowed : Type 0) (contents key : Bytes) (s : Memory F) (op : Op)
      (next : Option StoreError × Memory F → Option StoreError × Memory F)
      → ((e : StoreError) (t : Memory F) → next (some e, t) ≡ (some e, t))
      → ((t : Memory F)
          → held engine etag_for t key ≡ held engine etag_for s key
          → let r = next (none, t) in
            Wrote allowed contents (held engine etag_for s key) (held engine etag_for r.1 key) r.0)
      → let r = next (begin engine etag_for op key s) in
        Wrote allowed contents (held engine etag_for s key) (held engine etag_for r.1 key) r.0
  fails-Wrote allowed contents key s op next stops runs =
      on_begin (begin engine etag_for op key s) (begin-held op key s key)
    where
      on_begin :
          (b : Option StoreError × Memory F)
          → held engine etag_for b.1 key ≡ held engine etag_for s key
          → let r = next b in
            Wrote allowed contents (held engine etag_for s key) (held engine etag_for r.1 key) r.0
      on_begin (some e, t) p = rw (stops e t) (Wrote.unchanged e p)
      on_begin (none, t) p = runs t p

  begin-honest :
      (op : Op) (key : Bytes) (s : Memory F)
      → IsHonest engine
      → ¬ ((begin engine etag_for op key s).0 ≡ some StoreError.not_found)
  unfolding begin
  begin-honest op key s honest =
      on_barrier (engine.wait_for_barrier s.faults op key) (honest.barrier_honest s.faults op key)
    where
      on_fail :
          (r : Option StoreError × F)
          → ¬ (r.0 ≡ some StoreError.not_found)
          → ¬ ((failed engine etag_for op s r).0 ≡ some StoreError.not_found)
      on_fail (some e, f) h = h
      on_fail (none, f) h = h

      on_barrier :
          (r : Option StoreError × F)
          → ¬ (r.0 ≡ some StoreError.not_found)
          → ¬ ((after_barrier engine etag_for op key s r).0 ≡ some StoreError.not_found)
      on_barrier (some e, f) h = h
      on_barrier (none, f) h =
          on_fail (engine.consume_fail f op key) (honest.failure_honest f op key)

  read-missing :
      (key : Bytes) (b : Option StoreError × Memory F)
      → ¬ (b.0 ≡ some StoreError.not_found)
      → (reading engine etag_for key b).0 ≡ err StoreError.not_found
      → held engine etag_for b.1 key ≡ none
  read-missing key (some e, t) honest p = absurd (honest (ground arith))
  read-missing key (none, t) honest p = on_held (held engine etag_for t key) p
    where
      on_held : (o : Option Held) → found engine etag_for o ≡ err StoreError.not_found → o ≡ none
      on_held (some g) q = absurd (ground arith)
      on_held none q = refl

  read-gives :
      (key : Bytes) (b : Option StoreError × Memory F) (h : Held)
      → (reading engine etag_for key b).0 ≡ ok h
      → held engine etag_for b.1 key ≡ some h
  read-gives key (some e, t) h p = absurd (ground arith)
  read-gives key (none, t) h p = on_held (held engine etag_for t key) p
    where
      on_held : (o : Option Held) → found engine etag_for o ≡ ok h → o ≡ some h
      on_held (some g) q = ground arith
      on_held none q = absurd (ground arith)

  reading-held :
      (key : Bytes) (b : Option StoreError × Memory F)
      → held engine etag_for (reading engine etag_for key b).1 key ≡ held engine etag_for b.1 key
  reading-held key (some e, t) = refl
  reading-held key (none, t) = refl

  -- The in-memory store keeps the contract of conditional writes, whatever faults are injected that
  -- do not claim an object to be absent: a
  -- successful write landed under its condition, a lost response landed under it too, any other
  -- answer left the object as it was, and a read changes nothing and gives what the store holds.
  pub memory_store-IsConditional :
      IsHonest engine → IsConditional (memory_store engine etag_for) (held engine etag_for)
  memory_store-IsConditional honest = record {
    read_gives = λ s key h p.
        sym (begin-held Op.get key s key) ∙ read-gives key (begin engine etag_for Op.get key s) h p;
    read_missing = λ s key p.
        sym (begin-held Op.get key s key)
        ∙ read-missing key (begin engine etag_for Op.get key s) (begin-honest Op.get key s honest)
            p;
    read_keeps = λ s key.
        reading-held key (begin engine etag_for Op.get key s) ∙ begin-held Op.get key s key;
    creates = λ s key contents.
        fails-Wrote _ contents key s Op.create (creating engine etag_for key contents) (λ e t. refl)
          (λ t p.
            let r = creating engine etag_for key contents (none, t) in
            subst (λ o. Wrote (o ≡ none) contents o (held engine etag_for r.1 key) r.0) p
              (create-Wrote t key contents));
    replaces = λ s key etag contents.
        fails-Wrote _ contents key s Op.replace (replacing engine etag_for key etag contents)
          (λ e t. refl)
          (λ t p.
            let r = replacing engine etag_for key etag contents (none, t) in
            subst (λ o. Wrote (Tagged o etag) contents o (held engine etag_for r.1 key) r.0) p
              (replace-Wrote t key etag contents));
  }
