-- ===== src/Notebook/Publish/Outcome.antt =====
-- What each answer of `publish` of internal/notebook/commit.go says about `current`, on a store that
-- keeps the contract of conditional writes while other clients use it.
use mathlib.Core.Path.{subst}
use slivingdoc.Base.{
  ◌≡◌, refl, sym, ◌∙◌, ap, Bool, true, false, inl, inr, Option, none, some, ◌==◌, nat_eq, Bytes,
  arith, Result, ok, err, if◌then◌else◌, ◌⊎◌,
}
use slivingdoc.Storage.Key.{Uuid, UuidLibrary}
use slivingdoc.Storage.Manifest.{Manifest, ManifestError}
use slivingdoc.Storage.Store.{
  StoreError, Held, ObjectStore, Wrote, Wrote-map, Tagged, Answered, IsShared,
}
use slivingdoc.Storage.Current.{TextLibrary, CurrentError, encode_current, decode_stored_current}
use slivingdoc.Notebook.Publication.{RemoteState, Proposal, publication_in}
use slivingdoc.Notebook.Publish.{
  PublishError, current_key, current_answer, found_in, read_current, looked_up, lookup_publication,
  proved, after_write, publish_bytes, publish,
}

-- The object that a write for the observed remote may replace.
abbrev pub Expected : RemoteState → Option Held → Type 0
Expected remote before =
    ((remote.generation ≡ 0) × (before ≡ none))
    ⊎ ((¬ (remote.generation ≡ 0)) × Tagged before remote.etag)

-- The errors behind which nothing was written.
abbrev pub IsRefusal : PublishError → Type 0
IsRefusal PublishError.cas_lost = Unit {0}
IsRefusal (PublishError.manifest_refused _) = Unit {0}
IsRefusal (PublishError.not_encoded _) = Unit {0}
IsRefusal _ = ⊥

module _ (text : TextLibrary) (lib : UuidLibrary) where
  -- The object holds the proposal's manifest.
  pub record Holds (p : Proposal) (after : Option Held) : Type 0 where
    pub object : Held
    pub held_is : after ≡ some object
    pub encoded : encode_current text lib p.manifest ≡ ok object.contents

  -- The object is a readable manifest that records the publication.
  pub record Records (u : Uuid) (held : Option Held) : Type 0 where
    pub object : Held
    pub manifest : Manifest
    pub held_is : held ≡ some object
    pub readable : decode_stored_current text lib object.contents ≡ ok manifest
    pub recorded : publication_in manifest u ≡ true

  -- The write landed over the expected object, or it changed nothing.
  abbrev pub Effect : RemoteState → Proposal → Option Held → Option Held → Type 0
  Effect remote p before after = (Expected remote before × Holds p after) ⊎ (after ≡ before)

  module _ (others : Option Held → Option Held → Type 0) where
    -- The moments of a write, between what others do before it and after it.
    pub record Written (remote : RemoteState) (p : Proposal) (start finish : Option Held)
        : Type 0 where
      pub before : Option Held
      pub after : Option Held
      pub until : others start before
      pub effect : Effect remote p before after
      pub since : others after finish

    pub data Outcome (remote : RemoteState) (p : Proposal) (start finish : Option Held)
        : Result PublishError (Unit {0}) → Type 0 where
      accepted :
          (before after : Option Held)
          → others start before
          → Expected remote before
          → Holds p after
          → others after finish
          → Outcome remote p start finish (ok tt)
      recorded :
          (seen : Option Held)
          → Written remote p start seen
          → Records p.publication seen
          → others seen finish
          → Outcome remote p start finish (ok tt)
      refused :
          (e : PublishError)
          → IsRefusal e
          → others start finish
          → Outcome remote p start finish (err e)
      unproven :
          (seen : Option Held)
          → Written remote p start seen
          → ¬ Records p.publication seen
          → others seen finish
          → Outcome remote p start finish (err PublishError.unproven)
      unread :
          (e : StoreError)
          → Written remote p start finish
          → Outcome remote p start finish (err (PublishError.unreadable e))
      undecoded :
          (e : CurrentError)
          → Written remote p start finish
          → Outcome remote p start finish (err (PublishError.undecodable e))

    -- What a look-up saw.
    data Seen (u : Uuid) (held : Option Held) : Result PublishError Bool → Type 0 where
      yes : Records u held → Seen u held (ok true)
      no : ¬ Records u held → Seen u held (ok false)
      unreadable : (e : StoreError) → Seen u held (err (PublishError.unreadable e))
      undecodable : (e : CurrentError) → Seen u held (err (PublishError.undecodable e))

    ok-injective : {a b : Manifest} → ◌≡◌ {A = Result CurrentError Manifest} (ok a) (ok b) → a ≡ b
    ok-injective h = ground arith

    found-Seen :
        (u : Uuid) (held : Option Held) (h : Held)
        → held ≡ some h
        → (d : Result CurrentError Manifest) → decode_stored_current text lib h.contents ≡ d
        → Seen u held (found_in u d)
    found-Seen u held h q (err e) r = Seen.undecodable e
    found-Seen u held h q (ok m) r = on_recorded (publication_in m u) refl
      where
        on_recorded : (b : Bool) → publication_in m u ≡ b → Seen u held (ok b)
        on_recorded true f =
            Seen.yes (record { object = h; manifest = m; held_is = q; readable = r; recorded = f })
        on_recorded false f = Seen.no (λ there.
            let same : h ≡ there.object = ground (arith, q, there.held_is) in
            let same_manifest : m ≡ there.manifest = ok-injective (
              sym r
              ∙ ap (λ (g : Held). decode_stored_current text lib g.contents) same
              ∙ there.readable) in
            ground (arith, f, there.recorded, ap (λ m. publication_in m u) same_manifest))

    module _ {S : Type 0} (store : ObjectStore S) (held : S → Bytes → Option Held)
        (law : IsShared store held others) where
      abbrev now : S → Option Held
      now s = held s current_key

      looked_up-Seen :
          (u : Uuid) (seen : Option Held) (r : Result StoreError Held × S)
          → Answered seen r.0
          → Seen u seen (looked_up store text lib u (current_answer r)).0
            × ((looked_up store text lib u (current_answer r)).1 ≡ r.1)
      looked_up-Seen u seen (ok h, t) a =
          (found-Seen u seen h a (decode_stored_current text lib h.contents) refl, refl)
      looked_up-Seen u seen (err StoreError.not_found, t) a =
          (Seen.no (λ there. ground (arith, a, there.held_is)), refl)
      looked_up-Seen u seen (err StoreError.precondition_failed, t) a =
          (Seen.unreadable StoreError.precondition_failed, refl)
      looked_up-Seen u seen (err StoreError.transport, t) a =
          (Seen.unreadable StoreError.transport, refl)
      looked_up-Seen u seen (err StoreError.integrity, t) a =
          (Seen.unreadable StoreError.integrity, refl)
      looked_up-Seen u seen (err StoreError.quota_exceeded, t) a =
          (Seen.unreadable StoreError.quota_exceeded, refl)
      looked_up-Seen u seen (err StoreError.refused, t) a =
          (Seen.unreadable StoreError.refused, refl)

      module _ (remote : RemoteState) (p : Proposal) where
        later :
            (start seen finish : Option Held)
            → Written remote p start seen
            → others seen finish
            → Written remote p start finish
        later start seen finish w since = record {
          before = w.before;
          after = w.after;
          until = w.until;
          effect = w.effect;
          since = law.joins w.after seen finish w.since since;
        }

        proved-Outcome :
            (start seen : Option Held) (r : Result PublishError Bool × S)
            → Written remote p start seen
            → Seen p.publication seen r.0
            → others seen (now r.1)
            → Outcome remote p start (now (proved store text lib r).1) (proved store text lib r).0
        proved-Outcome start seen (_, t) w (Seen.yes there) since =
            Outcome.recorded seen w there since
        proved-Outcome start seen (_, t) w (Seen.no missing) since =
            Outcome.unproven seen w missing since
        proved-Outcome start seen (_, t) w (Seen.unreadable e) since =
            Outcome.unread e (later start seen (now t) w since)
        proved-Outcome start seen (_, t) w (Seen.undecodable e) since =
            Outcome.undecoded e (later start seen (now t) w since)

        lookup-Outcome :
            (start : Option Held) (t : S)
            → Written remote p start (now t)
            → let r = proved store text lib (lookup_publication store text lib t p.publication) in
              Outcome remote p start (now r.1) r.0
        unfolding lookup_publication read_current
        lookup-Outcome start t w =
            let (seen, until, answered, since) = law.reads t current_key in
            let (saw, same) =
              looked_up-Seen p.publication seen (store.read_object t current_key) answered in
            proved-Outcome start seen (lookup_publication store text lib t p.publication)
              (later start (now t) seen w until) saw
              (subst (λ x. others seen (now x)) (sym same) since)

        after_write-Outcome :
            (start before after : Option Held) (contents : Bytes) (o : Option StoreError) (t : S)
            → encode_current text lib p.manifest ≡ ok contents
            → others start before
            → Wrote (Expected remote before) contents before after o
            → others after (now t)
            → Outcome remote p start
                (now (after_write store text lib p.publication (o, t)).1)
                (after_write store text lib p.publication (o, t)).0
        after_write-Outcome start before after contents none t encoded until
              (Wrote.landed etag expected q) since =
            Outcome.accepted before after until expected
              (record {
                object = record { contents = contents; etag = etag };
                held_is = q;
                encoded = encoded;
              })
              since
        after_write-Outcome start before after contents (some StoreError.transport) t encoded until
              (Wrote.lost_response etag expected q) since =
            lookup-Outcome start t (record {
              before = before;
              after = after;
              until = until;
              effect = inl (
                expected,
                record {
                  object = record { contents = contents; etag = etag };
                  held_is = q;
                  encoded = encoded;
                },
              );
              since = since;
            })
        after_write-Outcome start before after contents (some e) t encoded until
              (Wrote.unchanged _ kept) since =
            on_error e
          where
            through : others start (now t)
            through =
                law.joins start before (now t) until (subst (λ o. others o (now t)) kept since)

            on_error :
                (e : StoreError)
                → Outcome remote p start
                    (now (after_write store text lib p.publication (some e, t)).1)
                    (after_write store text lib p.publication (some e, t)).0
            on_error StoreError.transport = lookup-Outcome start t (record {
              before = before;
              after = after;
              until = until;
              effect = inr kept;
              since = since;
            })
            on_error StoreError.not_found = Outcome.refused _ tt through
            on_error StoreError.precondition_failed = Outcome.refused _ tt through
            on_error StoreError.integrity = Outcome.refused _ tt through
            on_error StoreError.quota_exceeded = Outcome.refused _ tt through
            on_error StoreError.refused = Outcome.refused _ tt through

        written-Outcome :
            (s : S) (contents : Bytes) (b : Bool)
            → encode_current text lib p.manifest ≡ ok contents
            → (remote.generation == 0) ≡ b
            → let w =
                (if b
                  then store.create_object s current_key contents
                  else store.replace_object s current_key remote.etag contents) in
              Outcome remote p
                (now s)
                (now (after_write store text lib p.publication w).1)
                (after_write store text lib p.publication w).0
        written-Outcome s contents true encoded g =
            let (before, after, until, wrote, since) = law.creates s current_key contents in
            after_write-Outcome (now s) before after contents _ _ encoded until
              (Wrote-map (λ q. inl (ground (arith, g), q)) contents before after _ wrote) since
        written-Outcome s contents false encoded g =
            let (before, after, until, wrote, since) =
              law.replaces s current_key remote.etag contents in
            after_write-Outcome (now s) before after contents _ _ encoded until
              (Wrote-map (λ q. inr (λ z. ground (arith, g, z), q)) contents before after _ wrote)
              since

        publish_bytes-Outcome :
            (s : S) (e : Result ManifestError Bytes)
            → encode_current text lib p.manifest ≡ e
            → let r = publish_bytes store text lib s remote p e in
              Outcome remote p (now s) (now r.1) r.0
        publish_bytes-Outcome s (err e) q =
            Outcome.refused (PublishError.not_encoded e) tt (law.stays (now s))
        publish_bytes-Outcome s (ok contents) q =
            written-Outcome s contents (remote.generation == 0) q refl

        -- A publication that answers success wrote the proposal's manifest over the object that was
        -- observed, or a look-up behind a lost response found a manifest that records the publication.
        -- A lost race, a refused manifest and one that was not encoded leave `current` to the others.
        -- Behind the other errors the write may have landed, and an unproven one comes with a look-up
        -- that found no readable manifest that records the publication. The store keeps the contract
        -- of conditional writes while other clients act between its calls.
        pub publish-Outcome :
            (s : S)
            → let r = publish store text lib s remote p in Outcome remote p (now s) (now r.1) r.0
        unfolding publish
        publish-Outcome s = publish_bytes-Outcome s (encode_current text lib p.manifest) refl
