-- ===== src/Notebook/Publish.antt =====
-- internal/notebook/commit.go and remote.go: the conditional update of `current`, the look-up behind
-- a lost response, and what becomes of the pack of a compaction. The store is an interface.
pub mod Outcome
use slivingdoc.Base.{
  ℕ, Bool, true, false, Option, none, some, List, [], ◌∷◌, ◌==◌, nat_eq, bytes_eq, Bytes, codes,
  if◌then◌else◌, Result, ok, err, ◌||◌,
}
use slivingdoc.Storage.Key.{Uuid, UuidLibrary, key_text}
use slivingdoc.Storage.Manifest.{Manifest, Retained, ManifestError}
use slivingdoc.Storage.Store.{StoreError, Held, ObjectStore}
use slivingdoc.Storage.Current.{
  TextLibrary, CurrentError, encode_current, decode_current, decode_stored_current,
}
use slivingdoc.Notebook.Publication.{RemoteState, Proposal, publication_in}

abbrev pub current_key : Bytes
current_key = codes "current"

-- The errors of `publish`: `errCASLost`, `errManifestRefused`, an acceptance that no read could
-- prove, and the failures of the encoder and of the read of `current`.
pub data PublishError : Type 0 where
  cas_lost : PublishError
  manifest_refused : StoreError → PublishError
  unproven : PublishError
  not_encoded : ManifestError → PublishError
  unreadable : StoreError → PublishError
  undecodable : CurrentError → PublishError

-- `readCurrent`: `none` where there is no object.
abbrev pub current_answer :
    {S : Type 0} → Result StoreError Held × S → Result PublishError (Option Held) × S
current_answer (ok h, s) = (ok (some h), s)
current_answer (err StoreError.not_found, s) = (ok none, s)
current_answer (err e, s) = (err (PublishError.unreadable e), s)

abbrev pub found_in : Uuid → Result CurrentError Manifest → Result PublishError Bool
found_in u (ok m) = ok (publication_in m u)
found_in u (err e) = err (PublishError.undecodable e)

-- `checkpointAccepted` on a decoded manifest.
abbrev pub retained_checkpoint : List Retained → Uuid → Bool
retained_checkpoint [] u = false
retained_checkpoint (r ∷ rs) u = r.checkpoint.id == u || retained_checkpoint rs u

abbrev pub checkpoint_in : Result CurrentError Manifest → Uuid → Bool
checkpoint_in (ok m) u = m.checkpoint.id == u || retained_checkpoint m.retained u
checkpoint_in (err e) u = false

module _ {S : Type 0} (store : ObjectStore S) (text : TextLibrary) (lib : UuidLibrary) where
  unfoldable pub read_current : S → Result PublishError (Option Held) × S
  read_current s = current_answer (store.read_object s current_key)

  abbrev pub looked_up : Uuid → Result PublishError (Option Held) × S → Result PublishError Bool × S
  looked_up u (err e, s) = (err e, s)
  looked_up u (ok none, s) = (ok false, s)
  looked_up u (ok (some h), s) = (found_in u (decode_stored_current text lib h.contents), s)

  unfoldable pub lookup_publication : S → Uuid → Result PublishError Bool × S
  lookup_publication s u = looked_up u (read_current s)

  abbrev pub accepted_checkpoint : Uuid → Result PublishError (Option Held) × S → Bool × S
  accepted_checkpoint u (err e, s) = (false, s)
  accepted_checkpoint u (ok none, s) = (false, s)
  accepted_checkpoint u (ok (some h), s) = (checkpoint_in (decode_current text lib h.contents) u, s)

  unfoldable pub checkpoint_accepted : S → Uuid → Bool × S
  checkpoint_accepted s u = accepted_checkpoint u (read_current s)

  abbrev pub proved : Result PublishError Bool × S → Result PublishError (Unit {0}) × S
  proved (err e, s) = (err e, s)
  proved (ok true, s) = (ok tt, s)
  proved (ok false, s) = (err PublishError.unproven, s)

  -- The `switch` on the answer of the conditional write.
  abbrev pub after_write : Uuid → Option StoreError × S → Result PublishError (Unit {0}) × S
  after_write u (none, s) = (ok tt, s)
  after_write u (some StoreError.precondition_failed, s) = (err PublishError.cas_lost, s)
  after_write u (some StoreError.transport, s) = proved (lookup_publication s u)
  after_write u (some e, s) = (err (PublishError.manifest_refused e), s)

  abbrev pub write_current : S → RemoteState → Bytes → Option StoreError × S
  write_current s remote contents =
      if remote.generation == 0
      then store.create_object s current_key contents
      else store.replace_object s current_key remote.etag contents

  abbrev pub publish_bytes :
      S → RemoteState → Proposal → Result ManifestError Bytes → Result PublishError (Unit {0}) × S
  publish_bytes s remote p (err e) = (err (PublishError.not_encoded e), s)
  publish_bytes s remote p (ok contents) =
      after_write p.publication (write_current s remote contents)

  unfoldable pub publish : S → RemoteState → Proposal → Result PublishError (Unit {0}) × S
  publish s remote p = publish_bytes s remote p (encode_current text lib p.manifest)

  -- `discardCompaction`
  unfoldable pub discard_compaction : S → Proposal → PublishError → S
  discard_compaction s p PublishError.cas_lost =
      (store.delete_objects s (key_text lib p.key ∷ [])).1
  discard_compaction s p (PublishError.manifest_refused e) =
      (store.delete_objects s (key_text lib p.key ∷ [])).1
  discard_compaction s p _ = s
