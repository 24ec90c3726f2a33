-- ===== src/Crypt/Payload.antt =====
-- internal/crypt/envelope.go: the payload of an envelope as a sequence of sealed records.
pub mod Opens
use slivingdoc.Base.{
  ℕ, zero, suc, ◌+◌, ◌*◌, ◌-◌, Option, none, some, List, [], ◌∷◌, ◌++◌, ◌==◌, nat_eq, Bytes, codes,
  length, take, drop, if◌then◌else◌, Result, ok, err, ◌>>=◌,
}
use slivingdoc.Crypt.Wire.{big_endian}
use slivingdoc.Crypt.Door.{format_version}
use slivingdoc.Crypt.Envelope.{data_records, tag_size}
use slivingdoc.Crypt.Wrap.{Aead}

-- `ErrAuthentication`
pub data PayloadError : Type 0 where
  authentication : PayloadError

abbrev pub record_data : ℕ
record_data = 1

abbrev pub record_final : ℕ
record_final = 2

-- `payloadAD`
abbrev pub payload_ad : ℕ → Bytes → Bytes → ℕ → ℕ → ℕ → Bytes
payload_ad kind encoded_key core record_type counter plaintext_length =
    codes "slivingdoc/envelope/payload/v1"
    ++ (0
        ∷ (big_endian 2 format_version
            ++ (kind
                ∷ (encoded_key
                    ++ (core
                        ++ (record_type
                            ∷ (big_endian 8 counter ++ big_endian 4 plaintext_length)))))))

-- The nonce of a record: the prefix of the envelope and the counter.
abbrev pub record_nonce : Bytes → ℕ → Bytes
record_nonce prefix counter = prefix ++ big_endian 8 counter

abbrev pub authenticated : Option Bytes → Result PayloadError Bytes
authenticated none = err PayloadError.authentication
authenticated (some text) = ok text

-- What is the same for all records of a payload.
pub record PayloadKey : Type 0 where
  pub aead_key : Bytes
  pub kind : ℕ
  pub encoded_key : Bytes
  pub core : Bytes
  pub nonce_prefix : Bytes
  pub chunk_size : ℕ

module _ (cipher : Aead) (k : PayloadKey) where
  abbrev pub ad_of : ℕ → ℕ → ℕ → Bytes
  ad_of = payload_ad k.kind k.encoded_key k.core

  abbrev pub seal_record : ℕ → ℕ → Bytes → Bytes
  seal_record record_type counter text =
      cipher.seal k.aead_key (record_nonce k.nonce_prefix counter) text
        (ad_of record_type counter (length text))

  -- The loop of `sealPayload` over the data records that are left, and the final record.
  unfoldable pub seal_records : ℕ → ℕ → Bytes → Bytes
  seal_records zero counter text = seal_record record_final counter []
  seal_records (suc n) counter text =
      seal_record record_data counter (take k.chunk_size text)
      ++ seal_records n (counter + 1) (drop k.chunk_size text)

  unfoldable pub seal_payload : Bytes → Bytes
  seal_payload text = seal_records (data_records (length text) k.chunk_size) 0 text

  -- The length of a data record: only the last one may be short.
  abbrev pub record_length : ℕ → ℕ → ℕ → ℕ
  record_length plaintext_size records counter =
      if counter == records - 1 then plaintext_size - counter * k.chunk_size else k.chunk_size

  abbrev pub open_record : ℕ → ℕ → ℕ → Bytes → Result PayloadError Bytes
  open_record record_type counter size sealed = authenticated (
      cipher.unseal k.aead_key (record_nonce k.nonce_prefix counter) sealed
        (ad_of record_type counter size))

  abbrev pub prepend : Bytes → Bytes → Result PayloadError Bytes
  prepend text rest = ok (text ++ rest)

  -- The loop of `openPayload`, and the final record, whose plaintext is not used.
  unfoldable pub open_records : ℕ → ℕ → ℕ → ℕ → Bytes → Result PayloadError Bytes
  open_records plaintext_size records zero counter payload =
      open_record record_final counter 0 payload >>= λ text. ok []
  open_records plaintext_size records (suc n) counter payload =
      let size = record_length plaintext_size records counter in
      open_record record_data counter size (take (size + tag_size) payload) >>= λ text.
      (open_records plaintext_size records n (counter + 1) (drop (size + tag_size) payload)
        >>= prepend text)

  unfoldable pub open_payload : ℕ → Bytes → Result PayloadError Bytes
  open_payload plaintext_size payload =
      let records = data_records plaintext_size k.chunk_size in
      open_records plaintext_size records records 0 payload
