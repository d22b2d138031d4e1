-- ===== src/Crypto/Framing.antt =====
-- A text that `encrypt` has framed is what `decrypt` takes apart.
use apiserver_asymetric_encr.Base.{
  ltb, ◌==◌, Bool-cases, Option-cases, length, take, drop, length-append, drop-drop,
  drop-length_append, take-length_self, take_all, All-append, ℕ, ◌+◌, ◌%◌, ◌^◌, ◌<◌, ◌≡◌, refl,
  true, ap, ◌∙◌, subst, inl, inr, false, Option, some, ◌++◌, arith,
}
use apiserver_asymetric_encr.Text.{Bytes}
use apiserver_asymetric_encr.Crypto.{
  base64_encode, base64_decode, key_size, iv_size, tag_size, int_size, encrypt, decrypt,
}
use apiserver_asymetric_encr.Crypto.Base64.{AllBytes, base64_decode-base64_encode}

-- What is used of AES-GCM: a tag has its size, tags and ciphertexts are bytes, and unsealing what
-- was sealed under the same key and IV gives it back.
pub record IsCipher (seal : Bytes → Bytes → Bytes → Option (Bytes × Bytes))
    (unseal : Bytes → Bytes → Bytes → Bytes → Option Bytes) : Type 0 where
  pub tag_length :
      {key iv text tag sealed : Bytes}
      → seal key iv text ≡ some (tag, sealed)
      → length tag ≡ tag_size
  pub tag_bytes :
      {key iv text tag sealed : Bytes} → seal key iv text ≡ some (tag, sealed) → AllBytes tag
  pub sealed_bytes :
      {key iv text tag sealed : Bytes} → seal key iv text ≡ some (tag, sealed) → AllBytes sealed
  pub sealed_length :
      {key iv text tag sealed : Bytes}
      → seal key iv text ≡ some (tag, sealed)
      → length sealed ≡ length text
  pub unseals :
      {key iv text tag sealed : Bytes}
      → seal key iv text ≡ some (tag, sealed)
      → unseal key iv tag sealed ≡ some text

-- The parts of a blob.
blob_parts :
    (iv tag sealed : Bytes)
    → length iv ≡ iv_size
    → length tag ≡ tag_size
    → (take iv_size (iv ++ (tag ++ sealed)) ≡ iv)
      × (take tag_size (drop iv_size (iv ++ (tag ++ sealed))) ≡ tag)
      × (drop (iv_size + tag_size) (iv ++ (tag ++ sealed)) ≡ sealed)
      × (ltb (length (iv ++ (tag ++ sealed))) (iv_size + tag_size) ≡ false)
blob_parts iv tag sealed h k = (
  subst (λ n. take n (iv ++ (tag ++ sealed)) ≡ iv) h (take-length_self iv (tag ++ sealed)),
  subst (λ n. take tag_size (drop n (iv ++ (tag ++ sealed))) ≡ tag) h
      (ap (take tag_size) (drop-length_append iv (tag ++ sealed))
        ∙ subst (λ n. take n (tag ++ sealed) ≡ tag) k (take-length_self tag sealed)),
  drop-drop iv_size tag_size (iv ++ (tag ++ sealed))
      ∙ ap (drop tag_size) (
          subst (λ n. drop n (iv ++ (tag ++ sealed)) ≡ tag ++ sealed) h
            (drop-length_append iv (tag ++ sealed)))
      ∙ subst (λ n. drop n (tag ++ sealed) ≡ sealed) k (drop-length_append tag sealed),
  ground (arith, length-append iv (tag ++ sealed), length-append tag sealed),
)

-- A size that fits an `int` is kept.
int_size_fits : (n : ℕ) → n < 2 ^ 31 → int_size n ≡ some n
unfolding int_size
int_size_fits n h =
    let low : n % 2 ^ 32 ≡ n = omega arith in
    let fits : ltb n (2 ^ 31) ≡ true = ground arith in rw low (rw fits refl)

-- A text of a size that fits is sealed whole.
parts_of :
    (seal : Bytes → Bytes → Bytes → Option (Bytes × Bytes)) (iv text key_b64 out : Bytes)
    → length text < 2 ^ 31
    → encrypt seal iv text key_b64 ≡ some out
    → (key : Bytes) × (tag : Bytes) × (sealed : Bytes) × (base64_decode key_b64 ≡ some key)
      × ((length key == key_size) ≡ true)
      × (seal key iv text ≡ some (tag, sealed))
      × (out ≡ base64_encode (iv ++ (tag ++ sealed)))
unfolding encrypt
parts_of seal iv text key_b64 out fits e = elim (Option-cases (base64_decode key_b64)) [
  | inl f ↦ absurd (ground arith)
  | inr (key, f) ↦ elim (Bool-cases (length key == key_size)) [
    | inr short ↦ absurd (ground arith)
    | inl sized ↦
        let whole = int_size_fits (length text) fits in
        let all_of = take_all text (length text) (omega arith) in
        elim (Option-cases (seal key iv text)) [
          | inl g ↦ absurd (ground arith)
          | inr ((tag, sealed), g) ↦ (key, tag, sealed, f, sized, g, ground arith)
        ]
  ]
]

-- A blob of a sealed text that fits is taken apart and unsealed.
decrypt-blob :
    (seal : Bytes → Bytes → Bytes → Option (Bytes × Bytes))
    (unseal : Bytes → Bytes → Bytes → Bytes → Option Bytes) (iv text key_b64 key tag sealed : Bytes)
    → IsCipher seal unseal
    → length iv ≡ iv_size
    → AllBytes iv
    → length text < 2 ^ 31
    → base64_decode key_b64 ≡ some key
    → (length key == key_size) ≡ true
    → seal key iv text ≡ some (tag, sealed)
    → decrypt unseal (base64_encode (iv ++ (tag ++ sealed))) key_b64 ≡ some text
unfolding decrypt
decrypt-blob seal unseal iv text key_b64 key tag sealed cipher h b fits f sized g =
    let (at_iv, at_tag, at_text, long) = blob_parts iv tag sealed h (cipher.tag_length g) in
    let blob = base64_decode-base64_encode (iv ++ (tag ++ sealed)) (
      All-append _ iv (tag ++ sealed) b
        (All-append _ tag sealed (cipher.tag_bytes g) (cipher.sealed_bytes g))) in
    let kept =
      ap (λ t. int_size (length t)) at_text
      ∙ int_size_fits (length sealed) (omega (arith, fits, cipher.sealed_length g)) in
    rw (f, decrypt)
      (rw sized (
        rw blob (
          rw long (
            rw kept (
              rw (at_iv, at_tag, at_text)
                (rw (take_all sealed (length sealed) (omega arith)) (cipher.unseals g)))))))

-- A text of fewer than 2 ^ 31 bytes that has been encrypted under a key and an IV of 12 bytes
-- decrypts, under the same key, to itself, given that AES-GCM makes tags of 16 bytes, keeps the
-- length of a text, and unseals what it seals.
pub decrypt-encrypt :
    (seal : Bytes → Bytes → Bytes → Option (Bytes × Bytes))
    (unseal : Bytes → Bytes → Bytes → Bytes → Option Bytes) (iv text key_b64 out : Bytes)
    → IsCipher seal unseal
    → length iv ≡ iv_size
    → AllBytes iv
    → length text < 2 ^ 31
    → encrypt seal iv text key_b64 ≡ some out
    → decrypt unseal out key_b64 ≡ some text
decrypt-encrypt seal unseal iv text key_b64 out cipher h b fits e =
    let (key, tag, sealed, f, sized, g, framed) = parts_of seal iv text key_b64 out fits e in
    rw framed (decrypt-blob seal unseal iv text key_b64 key tag sealed cipher h b fits f sized g)
