-- ===== src/Crypt/Door/RoundTrip.antt =====
-- The body of a door of internal/crypt/header.go is read back.
use slivingdoc.Base.{
  ℕ, suc, ◌+◌, ◌<◌, ◌≡◌, sym, ap, ◌∙◌, arith, [], ◌∷◌, ◌++◌, Bytes, length, take, drop,
  length-append,
}
use slivingdoc.Crypt.Wire.{big_endian, value_of}
use slivingdoc.Crypt.Wire.Reads.{limit, value_of-big_endian, take-append, drop-append}
use slivingdoc.Crypt.Door.{Door, byte_at, encode_door_body, decode_door_body, door_body_size}

-- What the Go types ensure of a door.
pub record IsDoor (d : Door) : Type 0 where
  pub kind_fits : d.kind < 256
  pub kdf_fits : d.kdf_id < 256
  pub salt_is : length d.salt ≡ 16
  pub memory_fits : d.params.memory_kib < limit 4
  pub iterations_fit : d.params.iterations < limit 4
  pub lanes_fit : d.params.parallelism < 256
  pub nonce_is : length d.nonce ≡ 24
  pub key_is : length d.wrapped_key ≡ 48

pub drop-beyond : (k : ℕ) (a b : Bytes) → drop (length a + k) (a ++ b) ≡ drop k b
unfolding drop
drop-beyond k [] b = ap (λ m. drop m b) (omega arith)
drop-beyond k (x ∷ xs) b =
    ap (λ m. drop m ((x ∷ xs) ++ b)) (suc_left (length xs)) ∙ drop-beyond k xs b
  where
    suc_left : (n : ℕ) → length (x ∷ xs) + k ≡ suc (length xs + k)
    suc_left n = omega arith

pub take_of : (n : ℕ) (a b : Bytes) → length a ≡ n → take n (a ++ b) ≡ a
take_of n a b h = sym (ap (λ k. take k (a ++ b)) h) ∙ take-append a b

pub drop_of : (n : ℕ) (a b : Bytes) → length a ≡ n → drop n (a ++ b) ≡ b
drop_of n a b h = sym (ap (λ k. drop k (a ++ b)) h) ∙ drop-append a b

drop_past : (n k : ℕ) (a b : Bytes) → length a ≡ n → drop (n + k) (a ++ b) ≡ drop k b
drop_past n k a b h = sym (ap (λ m. drop (m + k) (a ++ b)) h) ∙ drop-beyond k a b

-- The bytes behind the salt, and those behind the costs.
abbrev costs : Door → Bytes
costs d =
    big_endian 4 d.params.memory_kib
    ++ (big_endian 4 d.params.iterations ++ (d.params.parallelism ∷ (d.nonce ++ d.wrapped_key)))

-- The body of a door with fields of their Go types is read back as the door.
pub decode_door_body-encode :
    (d : Door) → IsDoor d → decode_door_body d.kind d.kdf_id (encode_door_body d) ≡ d
unfolding decode_door_body encode_door_body take drop
decode_door_body-encode d h =
    let salt : take 16 (d.salt ++ costs d) ≡ d.salt = take_of 16 d.salt (costs d) h.salt_is in
    let memory : value_of (take 4 (drop 16 (d.salt ++ costs d))) ≡ d.params.memory_kib =
      ap (λ b. value_of (take 4 b)) (drop_past 16 0 d.salt (costs d) h.salt_is)
      ∙ value_of-big_endian 4 d.params.memory_kib h.memory_fits in
    let iterations : value_of (take 4 (drop 20 (d.salt ++ costs d))) ≡ d.params.iterations =
      ap (λ b. value_of (take 4 b)) (drop_past 16 4 d.salt (costs d) h.salt_is)
      ∙ value_of-big_endian 4 d.params.iterations h.iterations_fit in
    let lanes : byte_at 24 (d.salt ++ costs d) ≡ d.params.parallelism =
      ap (λ b. value_of (take 1 b)) (drop_past 16 8 d.salt (costs d) h.salt_is) ∙ lane_value in
    let nonce : take 24 (drop 25 (d.salt ++ costs d)) ≡ d.nonce =
      ap (take 24) (drop_past 16 9 d.salt (costs d) h.salt_is)
      ∙ take_of 24 d.nonce d.wrapped_key h.nonce_is in
    let key : drop 49 (d.salt ++ costs d) ≡ d.wrapped_key =
      drop_past 16 33 d.salt (costs d) h.salt_is ∙ drop_of 24 d.nonce d.wrapped_key h.nonce_is in
    ground (arith, salt, memory, iterations, lanes, nonce, key)
  where
    lane_value : value_of (d.params.parallelism ∷ []) ≡ d.params.parallelism
    lane_value = omega arith

pub length-encode_door_body : (d : Door) → IsDoor d → length (encode_door_body d) ≡ door_body_size
unfolding encode_door_body
length-encode_door_body d h = omega (
  arith,
  length-append d.salt (costs d),
  length-append d.nonce d.wrapped_key,
  h.salt_is,
  h.nonce_is,
  h.key_is,
)
