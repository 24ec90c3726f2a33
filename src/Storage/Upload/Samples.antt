-- ===== src/Storage/Upload/Samples.antt =====
-- An upload of internal/storage/upload.go whose response is lost.
use slivingdoc.Base.{◌≡◌, refl, true, some, none, [], Bytes, codes, ok, ◌⊎◌}
use slivingdoc.Base.{bytes_beq}
use slivingdoc.Storage.Key.{key_text}
use slivingdoc.Storage.Samples.{plain_ids, second, sample_metadata, repeated}
use slivingdoc.Storage.Store.{StoreError}
use slivingdoc.Storage.Upload.{UploadStore, verify_object, upload_unique}
use slivingdoc.Storage.Upload.Proved.{IsProved, upload_unique-IsProved}

-- A store of one object, which keeps the bytes that it is given and loses the response.
abbrev lossy_store : UploadStore Bytes
lossy_store = record {
  put_object = λ s key contents meta. (some StoreError.transport, contents);
  read_object = λ s key. (ok (record { contents = s; complete = true }), s);
}

upload_succeeds :
    (upload_unique lossy_store
      (λ b. repeated 32 9)
      plain_ids
      []
      second.key
      (codes "seven b")
      sample_metadata).0
    ≡ ok tt
unfolding upload_unique verify_object bytes_beq
upload_succeeds = refl

upload_unique-IsProved_example :
    (some StoreError.transport ≡ none)
    ⊎ ((some StoreError.transport ≡ some StoreError.transport)
        × IsProved lossy_store
            (λ b. repeated 32 9)
            (codes "seven b")
            (key_text plain_ids second.key)
            (repeated 32 9)
            7)
upload_unique-IsProved_example =
    upload_unique-IsProved lossy_store (λ b. repeated 32 9) plain_ids [] second.key
      (codes "seven b") sample_metadata upload_succeeds
