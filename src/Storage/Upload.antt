-- ===== src/Storage/Upload.antt =====
-- internal/storage/upload.go: uploads to a key of their own, and the proof of their bytes. The store
-- is a parameter with a state, and so is the digest of crypto/sha256. The key's kind is one of the
-- two protocol kinds by its type.
pub mod Proved
pub mod Samples
use slivingdoc.Base.{
  ℕ, Bool, true, false, not, ◌&&◌, ◌||◌, Option, none, some, ◌==◌, nat_eq, bytes_eq, Bytes, length,
  if◌then◌else◌, Result, ok, err,
}
use slivingdoc.Storage.Key.{UuidLibrary, Key, key_text}
use slivingdoc.Storage.Manifest.{Sha256}
use slivingdoc.Storage.Metadata.{Metadata}
use slivingdoc.Storage.Store.{StoreError}

-- An object that is read: its bytes, and whether they came without an error of the stream.
pub record Body : Type 0 where
  pub contents : Bytes
  pub complete : Bool

pub record UploadStore (S : Type 0) : Type 0 where
  pub put_object : S → Bytes → Bytes → Metadata → Option StoreError × S
  pub read_object : S → Bytes → Result StoreError Body × S

module _ {S : Type 0} (store : UploadStore S) (digest : Bytes → Sha256) where
  abbrev pub verified : Sha256 → ℕ → Result StoreError Body × S → Result StoreError (Unit {0}) × S
  verified want size (err e, s) = (err e, s)
  verified want size (ok body, s) = (
    if not body.complete
        then err StoreError.transport
        else if not (length body.contents == size) || not (digest body.contents == want)
        then err StoreError.integrity
        else ok tt,
    s,
  )

  unfoldable pub verify_object : S → Bytes → Sha256 → ℕ → Result StoreError (Unit {0}) × S
  verify_object s key want size = verified want size (store.read_object s key)

  -- The `switch` on the answer of `VerifyObject`.
  abbrev pub resolved : Result StoreError (Unit {0}) × S → Result StoreError (Unit {0}) × S
  resolved (ok _, s) = (ok tt, s)
  resolved (err StoreError.integrity, s) = (err StoreError.integrity, s)
  resolved (err _, s) = (err StoreError.transport, s)

  abbrev pub after_put : Bytes → Metadata → Option StoreError × S → Result StoreError (Unit {0}) × S
  after_put key meta (none, s) = (ok tt, s)
  after_put key meta (some StoreError.transport, s) =
      resolved (verify_object s key meta.sha256 meta.size)
  after_put key meta (some e, s) = (err e, s)

  module _ (lib : UuidLibrary) where
    unfoldable pub upload_unique : S → Key → Bytes → Metadata → Result StoreError (Unit {0}) × S
    upload_unique s key contents meta =
        after_put (key_text lib key) meta (store.put_object s (key_text lib key) contents meta)
