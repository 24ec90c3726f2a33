-- ===== src/Crypt/Samples.antt =====
-- Sample envelopes, gates and doors of internal/crypt.
use slivingdoc.Base.{
  ◌*◌, ◌≤◌, ◌≡◌, refl, ◌∙◌, arith, true, ◌&&◌, inl, Option, none, some, [], ◌∷◌, ◌++◌, map, ◌==◌,
  bytes_eq, bytes_beq_iff, Bytes, codes, length, take, drop, if◌then◌else◌, ok, contains, bytes_beq,
}
use slivingdoc.Storage.Samples.{repeated}
use slivingdoc.Crypt.Wire.Reads.{take-append, drop-append}
use slivingdoc.Crypt.Door.{KdfParams, Door, encode_door_body, encode_object_key, wrap_ad}
use slivingdoc.Crypt.Envelope.{
  core, decode_envelope, assemble_envelope, encode_header, encode_door_section,
  encode_extension_section, encode_extension_records, check_payload_length, payload_size,
  data_records, default_chunk_size,
}
use slivingdoc.Crypt.Envelope.Sections.{WireDoor, record_of, unknown_doors}
use slivingdoc.Crypt.Envelope.Fields.{
  Contents, AreContents, header_of, body_of, door_bytes, extension_section,
}
use slivingdoc.Crypt.Envelope.RoundTrip.{decode_envelope-assemble_envelope}
use slivingdoc.Crypt.Kdf.{
  KdfWindow, KdfLibrary, canonical_window, new_kdf_gate_for_cost, new_kdf_gate, validate_params,
  validate_secret, derive_kek,
}
use slivingdoc.Crypt.Kdf.Window.{IsInside, IsBelow, new_kdf_gate_for_cost-window}
use slivingdoc.Base.{◌-◌, length-append, ap}
use slivingdoc.Crypt.Door.RoundTrip.{take_of}
use slivingdoc.Crypt.Payload.{PayloadKey, seal_payload, open_payload}
use slivingdoc.Crypt.Payload.Opens.{IsTagged, open_payload-seal_payload}
use slivingdoc.Crypt.Wrap.{Aead, IsAead, wrap_key, unwrap_key, unsealed}
use slivingdoc.Crypt.Wrap.Opens.{unwrap_key-wrap_key, unwrap_key-IsForgery, IsForgery}

abbrev sample_params : KdfParams
sample_params = record { memory_kib = 1024; iterations = 1; parallelism = 2 }

abbrev sample_door : Door
sample_door = record {
  kind = 1;
  kdf_id = 1;
  salt = repeated 16 3;
  params = sample_params;
  nonce = repeated 24 4;
  wrapped_key = repeated 48 5;
}

-- A passphrase door, a door of a type that this build does not know, and an extension.
abbrev sample_contents : Contents
sample_contents = record {
  kind = 2;
  plaintext_size = 3;
  nonce_prefix = repeated 16 6;
  doors = WireDoor.known_door sample_door ∷ WireDoor.opaque_door 9 1 (codes "later") ∷ [];
  extensions = record { kind = 7; value = codes "note" } ∷ [];
}

sample_contents-AreContents : AreContents sample_contents
unfolding contains
sample_contents-AreContents = record {
  size_fits = omega arith;
  prefix_is = refl;
  doors_are = (
    (
      record {
        kind_fits = omega arith;
        kdf_fits = omega arith;
        salt_is = refl;
        memory_fits = omega arith;
        iterations_fit = omega arith;
        lanes_fit = omega arith;
        nonce_is = refl;
        key_is = refl;
      },
      refl,
      refl,
    ),
    ((refl, omega arith), tt),
  );
  extensions_are = (record { kind_fits = omega arith; value_fits = omega arith }, tt);
  extensions_new = (refl, tt);
}

abbrev zero_mac : Bytes → Bytes → Bytes
zero_mac k t = repeated 32 0

abbrev sample_header : Bytes
sample_header = body_of sample_contents ++ repeated 32 0

sample_doors :
    encode_door_section (map record_of sample_contents.doors)
    ≡ ok (door_bytes sample_contents.doors)
unfolding encode_door_section
sample_doors = refl

sample_extensions :
    encode_extension_section sample_contents.extensions
    ≡ ok (extension_section sample_contents.extensions)
unfolding encode_extension_section encode_extension_records
sample_extensions = refl

sample_header_made :
    encode_header zero_mac 2
      (core (header_of sample_contents []))
      (door_bytes sample_contents.doors)
      (extension_section sample_contents.extensions)
      []
      []
    ≡ ok sample_header
unfolding encode_header core encode_door_body
sample_header_made = refl

sample_payload_sized : check_payload_length 3 default_chunk_size 35 ≡ ok tt
unfolding check_payload_length payload_size data_records
sample_payload_sized = refl

decode_envelope-assemble_envelope_example :
    decode_envelope (assemble_envelope 2 sample_header (repeated 35 8))
    ≡ ok (record {
      header = header_of sample_contents (repeated 32 0);
      body = body_of sample_contents;
      unknown_doors = unknown_doors sample_contents.doors;
      payload = repeated 35 8;
    })
decode_envelope-assemble_envelope_example =
    decode_envelope-assemble_envelope zero_mac (λ k t. refl) sample_contents [] []
      (door_bytes sample_contents.doors) (extension_section sample_contents.extensions)
      sample_header (repeated 35 8) sample_contents-AreContents refl sample_doors sample_extensions
      sample_header_made sample_payload_sized

abbrev sample_window : KdfWindow
sample_window = record canonical_window { min_memory_kib = 1024 }

sample_gate : new_kdf_gate_for_cost 1 sample_params ≡ ok sample_window
unfolding new_kdf_gate_for_cost new_kdf_gate validate_params
sample_gate = refl

new_kdf_gate_for_cost-window_example :
    IsInside sample_window sample_params
    × ((p : KdfParams) → IsInside canonical_window p → IsInside sample_window p)
    × ((p : KdfParams) → IsInside sample_window p → IsBelow p)
    × (8 * 2 ≤ 1024)
new_kdf_gate_for_cost-window_example =
    new_kdf_gate_for_cost-window 1 sample_params sample_window (omega arith) sample_gate

-- A cipher that writes its key and its data in front of the text, with their lengths.
abbrev plain_open : Bytes → Bytes → Bytes → Option Bytes
plain_open key (k ∷ a ∷ rest) ad =
    if take k rest == key && take a (drop k rest) == ad then some (drop a (drop k rest)) else none
plain_open key _ ad = none

abbrev plain_cipher : Aead
plain_cipher = record {
  seal = λ key nonce text ad. length key ∷ length ad ∷ (key ++ (ad ++ text));
  unseal = λ key nonce sealed ad. plain_open key sealed ad;
}

plain_opens :
    (key text ad other given : Bytes)
    → plain_open other (length key ∷ length ad ∷ (key ++ (ad ++ text))) given
      ≡ (if key == other && ad == given then some text else none)
plain_opens key text ad other given =
    let rest = drop-append key (ad ++ text) in
    rw (take-append key (ad ++ text), rest, take-append ad text, drop-append ad text) refl

plain_cipher-IsAead : IsAead plain_cipher
plain_cipher-IsAead = record {
  opens = λ key nonce text ad.
      plain_opens key text ad key ad ∙ ground (arith, bytes_beq_iff key key, bytes_beq_iff ad ad);
}

-- A derivation that gives the secret back.
abbrev plain_kdf : KdfLibrary
plain_kdf = record { valid_utf8 = λ b. true; id_key = λ secret salt params. secret }

abbrev sealed_sample : Door
sealed_sample = record (unsealed 2 (repeated 16 3) sample_params (repeated 24 4)) {
  wrapped_key = plain_cipher.seal (codes "secret") (repeated 24 4) (repeated 32 1) (
      wrap_ad (0 ∷ 7 ∷ codes "current") (unsealed 2 (repeated 16 3) sample_params (repeated 24 4)));
}

sample_wrapped :
    wrap_key plain_cipher plain_kdf sample_window
      (repeated 32 1)
      (codes "secret")
      (codes "current")
      2
      sample_params
      (repeated 16 3)
      (repeated 24 4)
    ≡ ok sealed_sample
unfolding wrap_key encode_object_key derive_kek validate_secret validate_params bytes_beq
sample_wrapped = refl

unwrap_key-wrap_key_example :
    unwrap_key plain_cipher plain_kdf sample_window sealed_sample (codes "secret") (codes "current")
    ≡ ok (repeated 32 1)
unwrap_key-wrap_key_example =
    unwrap_key-wrap_key plain_cipher plain_kdf plain_cipher-IsAead sample_window (repeated 32 1)
      (codes "secret") (codes "current") 2 sample_params (repeated 16 3) (repeated 24 4)
      sealed_sample sample_wrapped

sample_derived :
    derive_kek plain_kdf sample_window (codes "secret") (repeated 16 3) sample_params
    ≡ ok (codes "secret")
unfolding derive_kek validate_secret validate_params
sample_derived = refl

guess_derived :
    derive_kek plain_kdf sample_window (codes "guess") (repeated 16 3) sample_params
    ≡ ok (codes "guess")
unfolding derive_kek validate_secret validate_params
guess_derived = refl

sample_key_encoded : encode_object_key (codes "current") ≡ ok (0 ∷ 7 ∷ codes "current")
unfolding encode_object_key bytes_beq
sample_key_encoded = refl

-- A cipher without a tag: any key opens.
abbrev open_cipher : Aead
open_cipher = record {
  seal = λ key nonce text ad. text;
  unseal = λ key nonce sealed ad. some sealed;
}

abbrev open_sample : Door
open_sample = record (unsealed 2 (repeated 16 3) sample_params (repeated 24 4)) {
  wrapped_key = repeated 32 1;
}

open_wrapped :
    wrap_key open_cipher plain_kdf sample_window
      (repeated 32 1)
      (codes "secret")
      (codes "current")
      2
      sample_params
      (repeated 16 3)
      (repeated 24 4)
    ≡ ok open_sample
unfolding wrap_key encode_object_key derive_kek validate_secret validate_params bytes_beq
open_wrapped = refl

open_unwrapped :
    unwrap_key open_cipher plain_kdf sample_window open_sample (codes "guess") (codes "current")
    ≡ ok (repeated 32 1)
unfolding unwrap_key encode_object_key derive_kek validate_secret validate_params bytes_beq
open_unwrapped = refl

unwrap_key-IsForgery_example :
    IsForgery open_cipher
      (codes "secret")
      (repeated 24 4)
      (repeated 32 1)
      (codes "guess")
      (repeated 32 1)
unwrap_key-IsForgery_example =
    unwrap_key-IsForgery open_cipher plain_kdf sample_window (repeated 32 1) (codes "secret")
      (codes "current") (codes "guess") (codes "current") 2 sample_params (repeated 16 3)
      (repeated 24 4) (codes "secret") (codes "guess") (0 ∷ 7 ∷ codes "current") (repeated 32 1)
      open_sample open_wrapped sample_derived guess_derived sample_key_encoded
      (inl (λ p. ground arith)) open_unwrapped

-- A cipher that adds a tag of zeros.
abbrev tagging_cipher : Aead
tagging_cipher = record {
  seal = λ key nonce text ad. text ++ repeated 16 0;
  unseal = λ key nonce sealed ad. some (take (length sealed - 16) sealed);
}

tagging_cipher-IsTagged : IsTagged tagging_cipher
tagging_cipher-IsTagged = record {
  opens = λ key nonce text ad.
      ap (λ t. some t)
        (take_of (length (text ++ repeated 16 0) - 16) text (repeated 16 0)
          (omega (arith, length-append text (repeated 16 0))));
  width = λ key nonce text ad. omega (arith, length-append text (repeated 16 0));
}

abbrev sample_payload_key : PayloadKey
sample_payload_key = record {
  aead_key = repeated 32 1;
  kind = 2;
  encoded_key = 0 ∷ 7 ∷ codes "current";
  core = repeated 28 2;
  nonce_prefix = repeated 16 6;
  chunk_size = default_chunk_size;
}

open_payload-seal_payload_example :
    (open_payload tagging_cipher sample_payload_key 3
        (seal_payload tagging_cipher sample_payload_key (codes "abc"))
      ≡ ok (codes "abc"))
    × (check_payload_length 3 default_chunk_size
          (length (seal_payload tagging_cipher sample_payload_key (codes "abc")))
        ≡ ok tt)
open_payload-seal_payload_example =
    open_payload-seal_payload tagging_cipher tagging_cipher-IsTagged sample_payload_key refl
      (codes "abc") (omega arith)
