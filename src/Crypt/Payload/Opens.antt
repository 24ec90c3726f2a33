-- ===== src/Crypt/Payload/Opens.antt =====
-- A payload of internal/crypt/envelope.go that was sealed has the declared length and is opened.
use mathlib.Core.Path.{subst}
use slivingdoc.Base.{
  ℕ, zero, suc, ◌+◌, ◌*◌, ◌-◌, ◌/◌, ◌%◌, ◌^◌, ◌≤◌, ◌<◌, ◌≡◌, refl, sym, ap, ◌∙◌, arith, some, [],
  ◌∷◌, ◌++◌, nat_eq, Bytes, length, length-append, take, drop, take_append_drop, Result, ok, ◌>>=◌,
}
use slivingdoc.Crypt.Door.RoundTrip.{take_of, drop_of}
use slivingdoc.Crypt.Envelope.{data_records, payload_size, check_payload_length, tag_size}
use slivingdoc.Crypt.Wrap.{Aead}
use slivingdoc.Crypt.Payload.{
  PayloadError, PayloadKey, record_data, record_final, seal_record, seal_records, seal_payload,
  record_length, open_record, prepend, open_records, open_payload, authenticated, ad_of,
  record_nonce,
}

-- What is documented of the cipher: what was sealed is opened, and has a tag of 16 bytes.
pub record IsTagged (cipher : Aead) : Type 0 where
  pub opens :
      (key nonce text ad : Bytes)
      → cipher.unseal key nonce (cipher.seal key nonce text ad) ad ≡ some text
  pub width :
      (key nonce text ad : Bytes) → length (cipher.seal key nonce text ad) ≡ length text + tag_size

length-take : (n : ℕ) (xs : Bytes) → n ≤ length xs → length (take n xs) ≡ n
unfolding take
length-take zero xs h = refl
length-take (suc n) [] h = omega (arith, h)
length-take (suc n) (x ∷ xs) h = omega (arith, length-take n xs (omega (arith, h)))

take_all : (n : ℕ) (xs : Bytes) → length xs ≤ n → take n xs ≡ xs
unfolding take
take_all zero [] h = refl
take_all zero (x ∷ xs) h = absurd (omega (arith, h))
take_all (suc n) [] h = refl
take_all (suc n) (x ∷ xs) h = ap (λ t. x ∷ t) (take_all n xs (omega (arith, h)))

length-drop : (n : ℕ) (xs : Bytes) → length (drop n xs) ≡ length xs - n
unfolding drop
length-drop zero xs = omega arith
length-drop (suc n) [] = omega arith
length-drop (suc n) (x ∷ xs) = omega (arith, length-drop n xs)

no_bytes : (xs : Bytes) → length xs ≡ 0 → [] ≡ xs
no_bytes [] h = refl
no_bytes (x ∷ xs) h = absurd (omega (arith, h))

module _ (cipher : Aead) (law : IsTagged cipher) (k : PayloadKey)
    (chunk : k.chunk_size ≡ 65536) where
  opened :
      (record_type counter : ℕ) (text : Bytes)
      → open_record cipher k record_type counter
          (length text)
          (seal_record cipher k record_type counter text)
        ≡ ok text
  opened record_type counter text = ap authenticated (law.opens _ _ text _)

  -- The length that a data record is opened with is that of its chunk.
  record_length-chunk :
      (size records n counter : ℕ) (text : Bytes)
      → counter + suc n ≡ records
      → length text + counter * 65536 ≡ size
      → size ≤ records * 65536
      → records * 65536 < size + 65536
      → record_length cipher k size records counter ≡ length (take k.chunk_size text)
  record_length-chunk size records zero counter text at fits low high =
      let whole : take k.chunk_size text ≡ text =
        take_all k.chunk_size text (omega (arith, at, fits, low, chunk)) in
      ground (arith, at, fits, ap length whole, ap (λ c. counter * c) chunk)
  record_length-chunk size records (suc m) counter text at fits low high =
      let full : length (take k.chunk_size text) ≡ k.chunk_size =
        length-take k.chunk_size text (omega (arith, at, fits, high, chunk)) in
      ground (arith, at, full)

  -- One turn of the loop, with the record and what follows it.
  abbrev turn_of : ℕ → ℕ → ℕ → ℕ → ℕ → Bytes → Bytes → Result PayloadError Bytes
  turn_of size records n counter len sealed more =
      open_record cipher k record_data counter len sealed >>= λ text.
      (open_records cipher k size records n (counter + 1) more >>= prepend cipher k text)

  turn_of-record :
      (size records n counter len : ℕ) (text rest more : Bytes)
      → len ≡ length text
      → open_records cipher k size records n (counter + 1) more ≡ ok rest
      → let sealed = seal_record cipher k record_data counter text in
        turn_of size records n counter len
          (take (len + tag_size) (sealed ++ more))
          (drop (len + tag_size) (sealed ++ more))
        ≡ ok (text ++ rest)
  turn_of-record size records n counter len text rest more same later =
      let sealed = seal_record cipher k record_data counter text in
      let width : length sealed ≡ len + tag_size =
        law.width _ _ text _ ∙ ap (λ l. l + tag_size) (sym same) in
      ap (λ t. turn_of size records n counter len t (drop (len + tag_size) (sealed ++ more)))
        (take_of (len + tag_size) sealed more width)
      ∙ ap (λ t. turn_of size records n counter len sealed t)
          (drop_of (len + tag_size) sealed more width)
      ∙ ap (λ l. turn_of size records n counter l sealed more) same
      ∙ ap
          (λ r. r >>= λ text.
            (open_records cipher k size records n (counter + 1) more >>= prepend cipher k text))
          (opened record_data counter text)
      ∙ ap (λ r. r >>= prepend cipher k text) later

  open_records-seal_records :
      (size records n counter : ℕ) (text : Bytes)
      → counter + n ≡ records
      → (n ≡ 0 → length text ≡ 0)
      → (0 < n → length text + counter * 65536 ≡ size)
      → size ≤ records * 65536
      → records * 65536 < size + 65536
      → open_records cipher k size records n counter (seal_records cipher k n counter text)
        ≡ ok text
  unfolding open_records seal_records
  open_records-seal_records size records zero counter text at done fits low high =
      ap (λ r. r >>= λ t. nothing) (opened record_final counter [])
      ∙ ap (λ t. opened_text t) (no_bytes text (done refl))
    where
      opened_text : Bytes → Result PayloadError Bytes
      opened_text t = ok t

      nothing : Result PayloadError Bytes
      nothing = ok []
  open_records-seal_records size records (suc n) counter text at done fits low high =
      turn_of-record size records n counter (record_length cipher k size records counter)
        (take k.chunk_size text) (drop k.chunk_size text)
        (seal_records cipher k n (counter + 1) (drop k.chunk_size text))
        (record_length-chunk size records n counter text at (fits (omega arith)) low high)
        (open_records-seal_records size records n (counter + 1) (drop k.chunk_size text)
          (omega (arith, at)) (λ z. last z) (λ more. rest_fits more) low high)
      ∙ ap (λ t. plaintext t) (take_append_drop k.chunk_size text)
    where
      plaintext : Bytes → Result PayloadError Bytes
      plaintext t = ok t

      lengths : length (take k.chunk_size text) + length (drop k.chunk_size text) ≡ length text
      lengths =
          sym (length-append (take k.chunk_size text) (drop k.chunk_size text))
          ∙ ap length (take_append_drop k.chunk_size text)

      here_fits : length text + counter * 65536 ≡ size
      here_fits = fits (omega arith)

      last : n ≡ 0 → length (drop k.chunk_size text) ≡ 0
      last z = omega (
        arith,
        lengths,
        ap length (take_all k.chunk_size text (omega (arith, z, at, here_fits, low, chunk))),
      )

      rest_fits : 0 < n → length (drop k.chunk_size text) + (counter + 1) * 65536 ≡ size
      rest_fits more = omega (
        arith,
        lengths,
        here_fits,
        chunk,
        length-take k.chunk_size text (omega (arith, more, at, here_fits, high, chunk)),
      )

  sealed_width :
      (n counter : ℕ) (text : Bytes)
      → length text ≤ n * 65536
      → length (seal_records cipher k n counter text) ≡ length text + (n + 1) * tag_size
  unfolding seal_records
  sealed_width zero counter text low = omega (
    arith,
    low,
    law.width k.aead_key (record_nonce k.nonce_prefix counter) []
        (ad_of cipher k record_final counter 0),
  )
  sealed_width (suc n) counter text low = omega (
    arith,
    lengths,
    length-append (seal_record cipher k record_data counter (take k.chunk_size text))
        (seal_records cipher k n (counter + 1) (drop k.chunk_size text)),
    law.width k.aead_key (record_nonce k.nonce_prefix counter) (take k.chunk_size text)
        (ad_of cipher k record_data counter (length (take k.chunk_size text))),
    sealed_width n (counter + 1) (drop k.chunk_size text)
        (omega (arith, low, chunk, length-drop k.chunk_size text)),
  )
    where
      lengths : length (take k.chunk_size text) + length (drop k.chunk_size text) ≡ length text
      lengths =
          sym (length-append (take k.chunk_size text) (drop k.chunk_size text))
          ∙ ap length (take_append_drop k.chunk_size text)

  -- The records cover the text, and the last of them is not empty.
  data_records-cover :
      (size : ℕ)
      → size < 2 ^ 62
      → (size ≤ data_records size k.chunk_size * 65536)
        × (data_records size k.chunk_size * 65536 < size + 65536)
  unfolding data_records
  data_records-cover size small =
      subst
        (λ c.
          let r = (size + c + (2 ^ 64 - 1)) % 2 ^ 64 / c in
          (size ≤ r * 65536) × (r * 65536 < size + 65536))
        (sym chunk) (omega (arith, small), omega (arith, small))

  -- A text that was sealed, of less than 2^62 bytes, is opened to the same text, and the sealed
  -- payload has the length that the text's length declares. The cipher opens what it sealed and adds
  -- a tag of 16 bytes, and the chunks have the default size.
  pub open_payload-seal_payload :
      (text : Bytes)
      → length text < 2 ^ 62
      → (open_payload cipher k (length text) (seal_payload cipher k text) ≡ ok text)
        × (check_payload_length (length text) k.chunk_size (length (seal_payload cipher k text))
            ≡ ok tt)
  unfolding open_payload seal_payload check_payload_length payload_size
  open_payload-seal_payload text small =
      let (low, high) = data_records-cover (length text) small in
      let records = data_records (length text) k.chunk_size in
      let width = sealed_width records 0 text low in
      (
        open_records-seal_records (length text) records records 0 text (omega arith)
            (λ z. omega (arith, z, low)) (λ more. omega arith) low high,
        ground (arith, width, low, high, small),
      )
