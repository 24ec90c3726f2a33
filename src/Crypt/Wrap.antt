-- ===== src/Crypt/Wrap.antt =====
-- internal/crypt/header.go: the notebook key under a door. The cipher XChaCha20-Poly1305 of
-- golang.org/x/crypto is a parameter; the random salt and nonce are arguments.
pub mod Opens
use slivingdoc.Base.{
  ℕ, ◌≡◌, [], Bool, true, false, Option, none, some, ◌==◌, nat_eq, Bytes, Result, ok, err, ◌>>=◌,
  ◌>>◌, require,
}
use slivingdoc.Crypt.Door.{
  CryptError, KdfParams, Door, is_door, kdf_argon2id, encode_object_key, wrap_ad,
}
use slivingdoc.Crypt.Kdf.{KdfWindow, KdfError, KdfLibrary, derive_kek}

-- `Seal` and `Open` (`unseal`) of the cipher, by key, nonce and associated data.
pub record Aead : Type 0 where
  pub seal : Bytes → Bytes → Bytes → Bytes → Bytes
  pub unseal : Bytes → Bytes → Bytes → Bytes → Option Bytes

-- What is documented of the cipher: what was sealed is opened under the key, the nonce and the
-- associated data that it was sealed with.
pub record IsAead (cipher : Aead) : Type 0 where
  pub opens :
      (key nonce text ad : Bytes)
      → cipher.unseal key nonce (cipher.seal key nonce text ad) ad ≡ some text

pub data WrapKeyError : Type 0 where
  envelope_error : CryptError → WrapKeyError
  derivation_error : KdfError → WrapKeyError
  key_rejected : WrapKeyError

abbrev pub of_crypt : {A : Type 0} → Result CryptError A → Result WrapKeyError A
of_crypt (ok a) = ok a
of_crypt (err e) = err (WrapKeyError.envelope_error e)

abbrev pub of_kdf : {A : Type 0} → Result KdfError A → Result WrapKeyError A
of_kdf (ok a) = ok a
of_kdf (err e) = err (WrapKeyError.derivation_error e)

abbrev pub opened_key : Option Bytes → Result WrapKeyError Bytes
opened_key none = err WrapKeyError.key_rejected
opened_key (some key) = ok key

abbrev pub unsealed : ℕ → Bytes → KdfParams → Bytes → Door
unsealed kind salt params nonce = record {
  kind = kind;
  kdf_id = kdf_argon2id;
  salt = salt;
  params = params;
  nonce = nonce;
  wrapped_key = [];
}

module _ (cipher : Aead) (lib : KdfLibrary) where
  unfoldable pub wrap_key :
      KdfWindow → Bytes → Bytes → Bytes → ℕ → KdfParams → Bytes → Bytes → Result WrapKeyError Door
  wrap_key window key secret object_key kind params salt nonce = do
    require (is_door kind) (WrapKeyError.envelope_error CryptError.unsupported)
    encoded ← of_crypt (encode_object_key object_key)
    kek ← of_kdf (derive_kek lib window secret salt params)
    ok (record (unsealed kind salt params nonce) {
      wrapped_key = cipher.seal kek nonce key (wrap_ad encoded (unsealed kind salt params nonce));
    })

  unfoldable pub unwrap_key : KdfWindow → Door → Bytes → Bytes → Result WrapKeyError Bytes
  unwrap_key window door secret object_key = do
    require (is_door door.kind) (WrapKeyError.envelope_error CryptError.unsupported)
    require (door.kdf_id == kdf_argon2id) (WrapKeyError.envelope_error CryptError.unsupported)
    encoded ← of_crypt (encode_object_key object_key)
    kek ← of_kdf (derive_kek lib window secret door.salt door.params)
    opened_key (cipher.unseal kek door.nonce door.wrapped_key (wrap_ad encoded door))
