-- ===== src/Crypt/Wrap/Opens.antt =====
-- A door of internal/crypt/header.go opens with its secret for its object, and not otherwise.
use mathlib.Core.Path.{subst}
use slivingdoc.Base.{
  ℕ, ◌≡◌, sym, ap, ◌∙◌, arith, true, Option, none, some, [], ◌∷◌, ◌++◌, nat_eq, bytes_eq, ◌⊎◌, inl,
  inr, Bytes, codes, length, leb, take, drop, length-append, Result, ok, err, ◌>>◌, require,
  require-ok, bind-ok,
}
use slivingdoc.Crypt.Wire.{big_endian}
use slivingdoc.Crypt.Wire.Reads.{take-append}
use slivingdoc.Crypt.Door.RoundTrip.{take_of}
use slivingdoc.Crypt.Door.{
  CryptError, KdfParams, Door, is_door, is_ascii, encode_object_key, wrap_ad, format_version,
}
use slivingdoc.Crypt.Kdf.{KdfWindow, KdfError, KdfLibrary, derive_kek}
use slivingdoc.Crypt.Wrap.{
  Aead, IsAead, WrapKeyError, of_crypt, of_kdf, opened_key, unsealed, wrap_key, unwrap_key,
}

of_crypt-ok : {A : Type 0} (r : Result CryptError A) (a : A) → of_crypt r ≡ ok a → r ≡ ok a
of_crypt-ok (ok b) a h = ground arith
of_crypt-ok (err e) a h = absurd (ground arith)

of_kdf-ok : {A : Type 0} (r : Result KdfError A) (a : A) → of_kdf r ≡ ok a → r ≡ ok a
of_kdf-ok (ok b) a h = ground arith
of_kdf-ok (err e) a h = absurd (ground arith)

append-cancel : (a b c : Bytes) → a ++ b ≡ a ++ c → b ≡ c
append-cancel [] b c h = h
append-cancel (x ∷ xs) b c h = append-cancel xs b c (ground (arith, h))

append_cancel_right : (a b t : Bytes) → a ++ t ≡ b ++ t → a ≡ b
append_cancel_right a b t h =
    let same : length a ≡ length b =
      omega (arith, length-append a t, length-append b t, ap length h) in
    sym (take-append a t) ∙ ap (take (length a)) h ∙ take_of (length a) b t (sym same)

abbrev door_ad : Door → Bytes
door_ad d =
    d.kind
    ∷ d.kdf_id
    ∷ (d.salt
        ++ (big_endian 4 d.params.memory_kib
            ++ (big_endian 4 d.params.iterations ++ (d.params.parallelism ∷ []))))

abbrev key_bytes : Bytes → Result CryptError Bytes
key_bytes b = ok b

encoded_key-drop : (key encoded : Bytes) → encode_object_key key ≡ ok encoded → drop 2 encoded ≡ key
unfolding encode_object_key drop
encoded_key-drop key encoded h =
    let (some_key, h1) =
      require-ok _ CryptError.malformed
        (require (leb (length key) 65535) CryptError.malformed
          >> (require (is_ascii key) CryptError.malformed
              >> key_bytes (big_endian 2 (length key) ++ key)))
        h in
    let (short, h2) =
      require-ok _ CryptError.malformed
        (require (is_ascii key) CryptError.malformed
          >> key_bytes (big_endian 2 (length key) ++ key))
        h1 in
    let (ascii, h3) =
      require-ok _ CryptError.malformed (key_bytes (big_endian 2 (length key) ++ key)) h2 in
    ap (drop 2) (sym (bytes-injective (big_endian 2 (length key) ++ key) encoded h3))
  where
    bytes-injective : (a b : Bytes) → key_bytes a ≡ ok b → a ≡ b
    bytes-injective a b p = ground arith

-- A text that was sealed under a key opens to something under another key or other associated data.
abbrev pub IsForgery : Aead → (key nonce text other found : Bytes) → Type 0
IsForgery cipher key nonce text other found =
    (ad : Bytes) × (given : Bytes) × ((¬ (other ≡ key)) ⊎ (¬ (given ≡ ad)))
    × (cipher.unseal other nonce (cipher.seal key nonce text ad) given ≡ some found)

opened_key-ok : (o : Option Bytes) (key : Bytes) → opened_key o ≡ ok key → o ≡ some key
opened_key-ok none key h = absurd (ground arith)
opened_key-ok (some k) key h = ground arith

module _ (cipher : Aead) (lib : KdfLibrary) where
  abbrev sealed_door : Bytes → Bytes → Bytes → ℕ → KdfParams → Bytes → Bytes → Door
  sealed_door kek encoded key kind params salt nonce = record (unsealed kind salt params nonce) {
    wrapped_key = cipher.seal kek nonce key (wrap_ad encoded (unsealed kind salt params nonce));
  }

  -- What a wrap has done.
  record Wrapped (window : KdfWindow) (key secret object_key : Bytes) (kind : ℕ)
      (params : KdfParams) (salt nonce : Bytes) (door : Door) : Type 0 where
    encoded : Bytes
    kek : Bytes
    kind_is : is_door kind ≡ true
    encoded_is : encode_object_key object_key ≡ ok encoded
    derived : derive_kek lib window secret salt params ≡ ok kek
    door_is : sealed_door kek encoded key kind params salt nonce ≡ door

  wrap_key-Wrapped :
      (window : KdfWindow) (key secret object_key : Bytes) (kind : ℕ) (params : KdfParams)
      (salt nonce : Bytes) (door : Door)
      → wrap_key cipher lib window key secret object_key kind params salt nonce ≡ ok door
      → Wrapped window key secret object_key kind params salt nonce door
  unfolding wrap_key
  wrap_key-Wrapped window key secret object_key kind params salt nonce door h =
      let (kind_is, h1) =
        require-ok (is_door kind) (WrapKeyError.envelope_error CryptError.unsupported) _ h in
      let (encoded, e, h2) = bind-ok (of_crypt (encode_object_key object_key)) _ h1 in
      let (kek, k, h3) = bind-ok (of_kdf (derive_kek lib window secret salt params)) _ h2 in
      record {
        encoded = encoded;
        kek = kek;
        kind_is = kind_is;
        encoded_is = of_crypt-ok (encode_object_key object_key) encoded e;
        derived = of_kdf-ok (derive_kek lib window secret salt params) kek k;
        door_is = door-injective (sealed_door kek encoded key kind params salt nonce) door h3;
      }
    where
      door-injective : (a b : Door) → ◌≡◌ {A = Result WrapKeyError Door} (ok a) (ok b) → a ≡ b
      door-injective a b p = ground arith

  -- What an unwrap does with the door of a wrap, for any secret and object.
  opening :
      (window : KdfWindow) (key secret object_key : Bytes) (kind : ℕ) (params : KdfParams)
      (salt nonce encoded kek other derived : Bytes)
      → is_door kind ≡ true
      → encode_object_key object_key ≡ ok other
      → derive_kek lib window secret salt params ≡ ok derived
      → unwrap_key cipher lib window
          (sealed_door kek encoded key kind params salt nonce)
          secret
          object_key
        ≡ opened_key (
            cipher.unseal derived nonce
              (cipher.seal kek nonce key (wrap_ad encoded (unsealed kind salt params nonce)))
              (wrap_ad other (unsealed kind salt params nonce)))
  unfolding unwrap_key wrap_ad
  opening window key secret object_key kind params salt nonce encoded kek other derived kind_is e
        k =
      ground (arith, kind_is, e, k)

  -- A key that was wrapped is unwrapped with the same secret for the same object. The cipher opens
  -- what it sealed under the same key, nonce and associated data.
  pub unwrap_key-wrap_key :
      (law : IsAead cipher) (window : KdfWindow) (key secret object_key : Bytes) (kind : ℕ)
      (params : KdfParams) (salt nonce : Bytes) (door : Door)
      → wrap_key cipher lib window key secret object_key kind params salt nonce ≡ ok door
      → unwrap_key cipher lib window door secret object_key ≡ ok key
  unfolding unwrap_key
  unwrap_key-wrap_key law window key secret object_key kind params salt nonce door h =
      let w = wrap_key-Wrapped window key secret object_key kind params salt nonce door h in
      subst (λ d. unwrap_key cipher lib window d secret object_key ≡ ok key) w.door_is
        (opening window key secret object_key kind params salt nonce w.encoded w.kek w.encoded w.kek
            w.kind_is w.encoded_is w.derived
          ∙ ap opened_key
              (law.opens w.kek nonce key (wrap_ad w.encoded (unsealed kind salt params nonce))))

  encoded-injective :
      (a b ea eb : Bytes)
      → encode_object_key a ≡ ok ea
      → encode_object_key b ≡ ok eb
      → ea ≡ eb
      → a ≡ b
  unfolding encode_object_key
  encoded-injective a b ea eb ha hb same =
      sym (encoded_key-drop a ea ha) ∙ ap (drop 2) same ∙ encoded_key-drop b eb hb

  -- The associated data of a door tells the objects apart.
  wrap_ad-injective : (a b : Bytes) (d : Door) → wrap_ad a d ≡ wrap_ad b d → a ≡ b
  unfolding wrap_ad
  wrap_ad-injective a b d h = append_cancel_right a b (door_ad d) (
      append-cancel (codes "slivingdoc/envelope/wrap/v1" ++ (0 ∷ big_endian 2 format_version))
        (a ++ door_ad d) (b ++ door_ad d) h)

  -- Where a door opens for a secret that derives another key, or for another object, the cipher
  -- opened the sealed notebook key under another key or other associated data than it was sealed
  -- with: short of a forgery, the answer is an error. Nothing is assumed of the cipher; both secrets
  -- derive a key, and the other object key is well formed.
  pub unwrap_key-IsForgery :
      (window : KdfWindow) (key secret object_key guess other : Bytes) (kind : ℕ)
      (params : KdfParams) (salt nonce kek derived encoded found : Bytes) (door : Door)
      → wrap_key cipher lib window key secret object_key kind params salt nonce ≡ ok door
      → derive_kek lib window secret salt params ≡ ok kek
      → derive_kek lib window guess salt params ≡ ok derived
      → encode_object_key other ≡ ok encoded
      → (¬ (derived ≡ kek)) ⊎ (¬ (other ≡ object_key))
      → unwrap_key cipher lib window door guess other ≡ ok found
      → IsForgery cipher kek nonce key derived found
  unwrap_key-IsForgery window key secret object_key guess other kind params salt nonce kek derived
        encoded found door h k g e differs opened =
      let w = wrap_key-Wrapped window key secret object_key kind params salt nonce door h in
      let bare = unsealed kind salt params nonce in
      let same_key : w.kek ≡ kek = kek-injective w.kek kek (sym w.derived ∙ k) in
      let answer =
        sym (
          opening window key guess other kind params salt nonce w.encoded w.kek encoded derived
            w.kind_is e g)
        ∙ subst (λ d. unwrap_key cipher lib window d guess other ≡ ok found) (sym w.door_is)
            opened in
      subst (λ a. IsForgery cipher a nonce key derived found) same_key
        (
          wrap_ad w.encoded bare,
          wrap_ad encoded bare,
          other_input w same_key differs,
          opened_key-ok _ found answer,
        )
    where
      kek-injective : (a b : Bytes) → ◌≡◌ {A = Result KdfError Bytes} (ok a) (ok b) → a ≡ b
      kek-injective a b p = ground arith

      other_input :
          (w : Wrapped window key secret object_key kind params salt nonce door)
          → w.kek ≡ kek
          → (¬ (derived ≡ kek)) ⊎ (¬ (other ≡ object_key))
          → (¬ (derived ≡ w.kek))
            ⊎ (¬ (
                wrap_ad encoded (unsealed kind salt params nonce)
                ≡ wrap_ad w.encoded (unsealed kind salt params nonce)))
      other_input w same (inl other_key) = inl (λ p. other_key (p ∙ same))
      other_input w same (inr other_object) = inr (λ p. other_object (
          encoded-injective other object_key encoded w.encoded e w.encoded_is
            (wrap_ad-injective encoded w.encoded (unsealed kind salt params nonce) p)))
