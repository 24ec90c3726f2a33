-- ===== src/Storage/Store.antt =====
-- internal/storage/store.go: the semantic errors of an object store, its conditional writes, and what
-- a client may rely on. The objects are read by the protocol's keys.
use mathlib.Core.Path.{subst}
use slivingdoc.Base.{◌≡◌, refl, sym, Option, none, some, List, Bytes, Result, ok, err}

-- The semantic errors that the clients tell apart; `refused` is any other.
pub data StoreError : Type 0 where
  not_found : StoreError
  precondition_failed : StoreError
  transport : StoreError
  integrity : StoreError
  quota_exceeded : StoreError
  refused : StoreError

-- An object with its entity tag.
pub record Held : Type 0 where
  pub contents : Bytes
  pub etag : Bytes

-- The methods of `ObjectStore` that a publication calls. `none` is success.
pub record ObjectStore (S : Type 0) : Type 0 where
  pub read_object : S → Bytes → Result StoreError Held × S
  pub create_object : S → Bytes → Bytes → Option StoreError × S
  pub replace_object : S → Bytes → Bytes → Bytes → Option StoreError × S
  pub delete_objects : S → List Bytes → Option StoreError × S

-- What a conditional write may do to its key, by its answer: `allowed` is the condition on the
-- object before the write. Only a transport error leaves open whether the bytes landed.
pub data Wrote (allowed : Type 0) (contents : Bytes) (before after : Option Held)
    : Option StoreError → Type 0 where
  landed :
      (etag : Bytes)
      → allowed
      → after ≡ some (record { contents = contents; etag = etag })
      → Wrote allowed contents before after none
  lost_response :
      (etag : Bytes)
      → allowed
      → after ≡ some (record { contents = contents; etag = etag })
      → Wrote allowed contents before after (some StoreError.transport)
  unchanged : (e : StoreError) → after ≡ before → Wrote allowed contents before after (some e)

-- The object is there, with the tag.
abbrev pub Tagged : Option Held → Bytes → Type 0
Tagged held etag = (h : Held) × (held ≡ some h) × (h.etag ≡ etag)

-- The contract of the interface's comments, over a view of the objects that the store holds, where
-- no other client acts during or between the calls.
pub record IsConditional {S : Type 0} (store : ObjectStore S) (held : S → Bytes → Option Held)
    : Type 0 where
  pub read_gives :
      (s : S) (key : Bytes) (h : Held) → (store.read_object s key).0 ≡ ok h → held s key ≡ some h
  pub read_missing :
      (s : S) (key : Bytes)
      → (store.read_object s key).0 ≡ err StoreError.not_found
      → held s key ≡ none
  pub read_keeps : (s : S) (key : Bytes) → held (store.read_object s key).1 key ≡ held s key
  pub creates :
      (s : S) (key contents : Bytes)
      → let r = store.create_object s key contents in
        Wrote (held s key ≡ none) contents (held s key) (held r.1 key) r.0
  pub replaces :
      (s : S) (key etag contents : Bytes)
      → let r = store.replace_object s key etag contents in
        Wrote (Tagged (held s key) etag) contents (held s key) (held r.1 key) r.0

-- What the answer of a read says of the object at the moment it was read.
abbrev pub Answered : Option Held → Result StoreError Held → Type 0
Answered now (ok h) = now ≡ some h
Answered now (err StoreError.not_found) = now ≡ none
Answered now (err _) = Unit {0}

-- The same contract where other clients may act before and after the moment that a call takes
-- effect: `others` is what they may make of an object.
pub record IsShared {S : Type 0} (store : ObjectStore S) (held : S → Bytes → Option Held)
    (others : Option Held → Option Held → Type 0) : Type 0 where
  pub stays : (o : Option Held) → others o o
  pub joins : (a b c : Option Held) → others a b → others b c → others a c
  pub reads :
      (s : S) (key : Bytes)
      → let r = store.read_object s key in
        (now : Option Held) × others (held s key) now × Answered now r.0 × others now (held r.1 key)
  pub creates :
      (s : S) (key contents : Bytes)
      → let r = store.create_object s key contents in
        (before : Option Held) × (after : Option Held) × others (held s key) before
        × Wrote (before ≡ none) contents before after r.0
        × others after (held r.1 key)
  pub replaces :
      (s : S) (key etag contents : Bytes)
      → let r = store.replace_object s key etag contents in
        (before : Option Held) × (after : Option Held) × others (held s key) before
        × Wrote (Tagged before etag) contents before after r.0
        × others after (held r.1 key)

-- A store that keeps the contract alone keeps it whatever the others do that includes nothing.
pub IsConditional-IsShared :
    {S : Type 0} (store : ObjectStore S) (held : S → Bytes → Option Held)
    (others : Option Held → Option Held → Type 0)
    → ((o : Option Held) → others o o)
    → ((a b c : Option Held) → others a b → others b c → others a c)
    → IsConditional store held
    → IsShared store held others
IsConditional-IsShared store held others stays joins law = record {
  stays = stays;
  joins = joins;
  reads = λ s key.
      let r = store.read_object s key in
      (
        held s key,
        stays (held s key),
        answered (held s key) r.0 (law.read_gives s key) (law.read_missing s key),
        subst (others (held s key)) (sym (law.read_keeps s key)) (stays (held s key)),
      );
  creates =
      λ s key contents. (held s key, _, stays (held s key), law.creates s key contents, stays _);
  replaces = λ s key etag contents.
      (held s key, _, stays (held s key), law.replaces s key etag contents, stays _);
}
  where
    answered :
        (now : Option Held) (r : Result StoreError Held)
        → ((h : Held) → r ≡ ok h → now ≡ some h)
        → (r ≡ err StoreError.not_found → now ≡ none)
        → Answered now r
    answered now (ok h) gives missing = gives h refl
    answered now (err StoreError.not_found) gives missing = missing refl
    answered now (err StoreError.precondition_failed) gives missing = tt
    answered now (err StoreError.transport) gives missing = tt
    answered now (err StoreError.integrity) gives missing = tt
    answered now (err StoreError.quota_exceeded) gives missing = tt
    answered now (err StoreError.refused) gives missing = tt

-- A weaker condition.
pub Wrote-map :
    {A B : Type 0} (f : A → B) (contents : Bytes) (before after : Option Held)
    (o : Option StoreError)
    → Wrote A contents before after o
    → Wrote B contents before after o
Wrote-map f contents before after none (Wrote.landed etag a q) = Wrote.landed etag (f a) q
Wrote-map f contents before after (some StoreError.transport) (Wrote.lost_response etag a q) =
    Wrote.lost_response etag (f a) q
Wrote-map f contents before after (some e) (Wrote.unchanged _ q) = Wrote.unchanged e q
