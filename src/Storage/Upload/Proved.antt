-- ===== src/Storage/Upload/Proved.antt =====
-- What a successful upload of internal/storage/upload.go shows.
use slivingdoc.Base.{
  ℕ, ◌≡◌, refl, ap, true, ◌⊎◌, inl, inr, Option, none, some, nat_eq, bytes_eq, bytes_beq_iff, Bytes,
  length, arith, Result, ok, err,
}
use slivingdoc.Storage.Key.{UuidLibrary, Key, key_text}
use slivingdoc.Storage.Manifest.{Sha256}
use slivingdoc.Storage.Metadata.{Metadata}
use slivingdoc.Storage.Store.{StoreError}
use slivingdoc.Storage.Upload.{
  Body, UploadStore, verified, verify_object, resolved, after_put, upload_unique,
}

module _ {S : Type 0} (store : UploadStore S) (digest : Bytes → Sha256) where
  -- A read in the state `s` gave the whole object, of the wanted size and digest.
  pub record IsProved (s : S) (key : Bytes) (want : Sha256) (size : ℕ) : Type 0 where
    pub body : Body
    pub read : (store.read_object s key).0 ≡ ok body
    pub complete : body.complete ≡ true
    pub size_is : length body.contents ≡ size
    pub digest_is : digest body.contents ≡ want

  verify_object-IsProved :
      (s : S) (key : Bytes) (want : Sha256) (size : ℕ)
      → (verify_object store digest s key want size).0 ≡ ok tt
      → IsProved s key want size
  unfolding verify_object
  verify_object-IsProved s key want size h = on_read (store.read_object s key) refl h
    where
      on_read :
          (r : Result StoreError Body × S)
          → store.read_object s key ≡ r
          → (verified store digest want size r).0 ≡ ok tt
          → IsProved s key want size
      on_read (err e, t) q v = absurd (ground arith)
      on_read (ok body, t) q v = record {
        body = body;
        read = ap (λ (x : Result StoreError Body × S). x.0) q;
        complete = ground arith;
        size_is = ground arith;
        digest_is = ground (arith, bytes_beq_iff (digest body.contents) want);
      }

  resolved-ok :
      (r : Result StoreError (Unit {0}) × S) → (resolved store digest r).0 ≡ ok tt → r.0 ≡ ok tt
  resolved-ok (ok u, t) v = refl
  resolved-ok (err StoreError.integrity, t) v = absurd (ground arith)
  resolved-ok (err StoreError.transport, t) v = absurd (ground arith)
  resolved-ok (err StoreError.not_found, t) v = absurd (ground arith)
  resolved-ok (err StoreError.refused, t) v = absurd (ground arith)
  resolved-ok (err StoreError.precondition_failed, t) v = absurd (ground arith)
  resolved-ok (err StoreError.quota_exceeded, t) v = absurd (ground arith)

  -- An upload that reports success was accepted by the store, or its response was lost and a read
  -- of the key after it gave a whole object with the declared size and digest.
  pub upload_unique-IsProved :
      (lib : UuidLibrary) (s : S) (key : Key) (contents : Bytes) (meta : Metadata)
      → (upload_unique store digest lib s key contents meta).0 ≡ ok tt
      → let put = store.put_object s (key_text lib key) contents meta in
        (put.0 ≡ none)
        ⊎ ((put.0 ≡ some StoreError.transport)
            × IsProved put.1 (key_text lib key) meta.sha256 meta.size)
  unfolding upload_unique
  upload_unique-IsProved lib s key contents meta h =
      on_put (store.put_object s (key_text lib key) contents meta) h
    where
      on_put :
          (r : Option StoreError × S)
          → (after_put store digest (key_text lib key) meta r).0 ≡ ok tt
          → (r.0 ≡ none)
            ⊎ ((r.0 ≡ some StoreError.transport)
                × IsProved r.1 (key_text lib key) meta.sha256 meta.size)
      on_put (none, t) v = inl refl
      on_put (some StoreError.transport, t) v = inr (
        refl,
        verify_object-IsProved t (key_text lib key) meta.sha256 meta.size
            (resolved-ok (verify_object store digest t (key_text lib key) meta.sha256 meta.size) v),
      )
      on_put (some StoreError.not_found, t) v = absurd (ground arith)
      on_put (some StoreError.integrity, t) v = absurd (ground arith)
      on_put (some StoreError.refused, t) v = absurd (ground arith)
      on_put (some StoreError.precondition_failed, t) v = absurd (ground arith)
      on_put (some StoreError.quota_exceeded, t) v = absurd (ground arith)
