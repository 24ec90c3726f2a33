-- ===== src/Crypt/Door.antt =====
-- internal/crypt/header.go: the doors of an envelope, its object key, and what authenticates them.
pub mod RoundTrip
use slivingdoc.Base.{
  ℕ, ◌^◌, Bool, true, false, not, ◌||◌, ◌&&◌, List, [], ◌∷◌, ◌++◌, ◌==◌, nat_eq, bytes_eq, Bytes,
  codes, length, take, drop, ltb, leb, if◌then◌else◌, Result, ok, err, ◌>>=◌, ◌>>◌, require,
}
use slivingdoc.Crypt.Wire.{big_endian, value_of}

-- `ErrMalformedEnvelope` and `ErrUnsupportedFormat`.
pub data CryptError : Type 0 where
  malformed : CryptError
  unsupported : CryptError

abbrev pub format_version : ℕ
format_version = 1

abbrev pub door_passphrase : ℕ
door_passphrase = 1

abbrev pub door_recovery : ℕ
door_recovery = 2

abbrev pub kdf_argon2id : ℕ
kdf_argon2id = 1

abbrev pub door_body_size : ℕ
door_body_size = 97

pub record KdfParams : Type 0 where
  pub memory_kib : ℕ
  pub iterations : ℕ
  pub parallelism : ℕ

pub record Door : Type 0 where
  pub kind : ℕ
  pub kdf_id : ℕ
  pub salt : Bytes
  pub params : KdfParams
  pub nonce : Bytes
  pub wrapped_key : Bytes

abbrev pub is_door : ℕ → Bool
is_door kind = kind == door_passphrase || kind == door_recovery

abbrev pub is_ascii : Bytes → Bool
is_ascii [] = true
is_ascii (x ∷ xs) = ltb x 128 && is_ascii xs

unfoldable pub encode_object_key : Bytes → Result CryptError Bytes
encode_object_key key = do
  require (not (key == [])) CryptError.malformed
  require (leb (length key) 65535) CryptError.malformed
  require (is_ascii key) CryptError.malformed
  ok (big_endian 2 (length key) ++ key)

unfoldable pub encode_door_body : Door → Bytes
encode_door_body d =
    d.salt
    ++ (big_endian 4 d.params.memory_kib
        ++ (big_endian 4 d.params.iterations
            ++ (d.params.parallelism ∷ (d.nonce ++ d.wrapped_key))))

-- `body[n]`, where there is such a byte.
abbrev pub byte_at : ℕ → Bytes → ℕ
byte_at n b = value_of (take 1 (drop n b))

unfoldable pub decode_door_body : ℕ → ℕ → Bytes → Door
decode_door_body kind kdf_id body = record {
  kind = kind;
  kdf_id = kdf_id;
  salt = take 16 body;
  params = record {
    memory_kib = value_of (take 4 (drop 16 body));
    iterations = value_of (take 4 (drop 20 body));
    parallelism = byte_at 24 body;
  };
  nonce = take 24 (drop 25 body);
  wrapped_key = drop 49 body;
}

-- The record of any door: its type, its KDF, the length of its body, and the body.
abbrev pub door_record : ℕ → ℕ → Bytes → Bytes
door_record kind kdf_id body = kind ∷ kdf_id ∷ (big_endian 2 (length body) ++ body)

unfoldable pub encode_door_record : Door → Result CryptError Bytes
encode_door_record d = do
  require (is_door d.kind) CryptError.unsupported
  require (d.kdf_id == kdf_argon2id) CryptError.unsupported
  ok (door_record d.kind d.kdf_id (encode_door_body d))

-- `wrapAD`
unfoldable pub wrap_ad : Bytes → Door → Bytes
wrap_ad encoded_key d =
    codes "slivingdoc/envelope/wrap/v1"
    ++ (0
        ∷ (big_endian 2 format_version
            ++ (encoded_key
                ++ (d.kind
                    ∷ d.kdf_id
                    ∷ (d.salt
                        ++ (big_endian 4 d.params.memory_kib
                            ++ (big_endian 4 d.params.iterations
                                ++ (d.params.parallelism ∷ []))))))))

-- The transcript that `headerCommitment` authenticates; the code of crypto/hmac is a parameter.
unfoldable pub header_transcript : ℕ → Bytes → Bytes → Bytes
header_transcript kind encoded_key body =
    codes "slivingdoc/envelope/header/v1"
    ++ (0 ∷ (big_endian 2 format_version ++ (kind ∷ (encoded_key ++ body))))
