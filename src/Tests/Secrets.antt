-- ===== src/Tests/Secrets.antt =====
-- The theorems on encryption, tokens and one-time passwords, with small stand-ins for OpenSSL.
use apiserver_asymetric_encr.Base.{
  ltb, if◌then◌else◌, ltb→lt, &&-true, Bool-cases, length, is_empty, all, ℕ, ◌+◌, ◌/◌, ◌≤◌, ◌≡◌,
  refl, sym, ap, subst, ◌≢◌, ◌↔◌, ◌⊎◌, inl, inr, true, false, Option, none, some, [], ◌∷◌, ◌++◌,
  arith,
}
use apiserver_asymetric_encr.Text.{
  Bytes, bytes, zeros, same, starts_with, find_if, find_last_if, take_digits, from_chars_size,
}
use apiserver_asymetric_encr.Crypto.{
  is_b64, b64_pos, base64_encode, base64_decode_from, base64_decode, int_size, encrypt, decrypt,
}
use apiserver_asymetric_encr.Crypto.Base64.{AllBytes, base64_decode-base64_encode}
use apiserver_asymetric_encr.Crypto.Framing.{IsCipher, decrypt-encrypt}
use apiserver_asymetric_encr.Otp.{decode_base32, generate_hotp, valid, is_valid_token}
use apiserver_asymetric_encr.Otp.Window.{is_valid_token_iff}
use apiserver_asymetric_encr.Jwt.{
  success, Claims, from_url_char, add_padding, find_in_claims, leading_number, bits64, signed64,
  from_time_t, is_past, base64url_decode, decode_payload, decode_claims_unvalidated,
  check_expiration, check_signature, validate_and_decode, is_valid,
}
use apiserver_asymetric_encr.Jwt.Accepted.{IsAccepted, is_valid-IsAccepted}

base64_decode-base64_encode_example :
    base64_decode (base64_encode (bytes "Man!")) ≡ some (bytes "Man!")
base64_decode-base64_encode_example =
    base64_decode-base64_encode (bytes "Man!")
      (omega arith, (omega arith, (omega arith, (omega arith, tt))))

-- A cipher that leaves the text as it is, under a tag of zeros.
abbrev plain_seal : Bytes → Bytes → Bytes → Option (Bytes × Bytes)
plain_seal key iv text = if all (λ c. ltb c 256) text then some (zeros 16, text) else none

abbrev plain_unseal : Bytes → Bytes → Bytes → Bytes → Option Bytes
plain_unseal key iv tag sealed = some sealed

plain_seal_lem :
    (key iv text tag sealed : Bytes)
    → plain_seal key iv text ≡ some (tag, sealed)
    → (all (λ c. ltb c 256) text ≡ true) × (tag ≡ zeros 16) × (sealed ≡ text)
plain_seal_lem key iv text tag sealed h = elim (Bool-cases (all (λ c. ltb c 256) text)) [
  | inl e ↦ ground arith
  | inr e ↦ absurd (ground arith)
]

all-AllBytes : (s : Bytes) → all (λ c. ltb c 256) s ≡ true → AllBytes s
all-AllBytes [] h = tt
all-AllBytes (c ∷ s) h =
    let (here, there) = &&-true (ltb c 256) (all (λ c. ltb c 256) s) h in
    (ltb→lt c 256 here, all-AllBytes s there)

plain-IsCipher : IsCipher plain_seal plain_unseal
plain-IsCipher = record {
  tag_length =
      λ {key} {iv} {text} {tag} {sealed} h. ap length (plain_seal_lem key iv text tag sealed h).1;
  tag_bytes = λ {key} {iv} {text} {tag} {sealed} h.
      subst AllBytes (sym (plain_seal_lem key iv text tag sealed h).1) zeros_bytes;
  sealed_bytes = λ {key} {iv} {text} {tag} {sealed} h.
      subst AllBytes (sym (plain_seal_lem key iv text tag sealed h).2)
        (all-AllBytes text (plain_seal_lem key iv text tag sealed h).0);
  sealed_length =
      λ {key} {iv} {text} {tag} {sealed} h. ap length (plain_seal_lem key iv text tag sealed h).2;
  unseals =
      λ {key} {iv} {text} {tag} {sealed} h. ap some (plain_seal_lem key iv text tag sealed h).2;
}
  where
    zeros_bytes : AllBytes (zeros 16)
    zeros_bytes = all-AllBytes (zeros 16) refl

abbrev sample_key : Bytes
sample_key = bytes "QUFBQUFBQUFBQUFBQUFBQUFBQUFBQUFBQUFBQUFBQUE="

abbrev sealed_text : Bytes
sealed_text = base64_encode (zeros 12 ++ (zeros 16 ++ bytes "hi"))

sample-encrypt : encrypt plain_seal (zeros 12) (bytes "hi") sample_key ≡ some sealed_text
unfolding encrypt int_size base64_decode base64_decode_from is_b64 b64_pos
sample-encrypt = refl

decrypt-encrypt_example : decrypt plain_unseal sealed_text sample_key ≡ some (bytes "hi")
decrypt-encrypt_example =
    decrypt-encrypt plain_seal plain_unseal (zeros 12) (bytes "hi") sample_key sealed_text
      plain-IsCipher refl (all-AllBytes (zeros 12) refl) (omega arith) sample-encrypt

-- Of a text of 2 ^ 32 + 5 bytes, five are sealed.
int_size_cut : int_size 4294967301 ≡ some 5
unfolding int_size
int_size_cut = refl

abbrev zero_hmac : Bytes → Bytes → Option Bytes
zero_hmac key data_ = some (zeros 20)

zero_hmac-total : (key data_ : Bytes) → zero_hmac key data_ ≢ none
zero_hmac-total key data_ h = cc

is_valid_token_iff_example :
    (is_valid_token zero_hmac 100 30 1 (bytes "000000") (bytes "GEZDGNBV") ≡ valid) ↔ (
      ((length (bytes "000000") ≡ 6) ⊎ (length (bytes "000000") ≡ 8))
      × (is_empty (bytes "GEZDGNBV") ≡ false)
      × ((secret : Bytes) × (step : ℕ) × (decode_base32 (bytes "GEZDGNBV") ≡ some secret)
          × (100 / 30 ≤ step + 1)
          × (step ≤ 100 / 30 + 1)
          × (generate_hotp zero_hmac secret step (length (bytes "000000"))
              ≡ some (bytes "000000"))))
is_valid_token_iff_example =
    is_valid_token_iff zero_hmac 100 30 1 (bytes "000000") (bytes "GEZDGNBV") zero_hmac-total

-- Base64 and HMAC stand-ins that leave a text as it is.
abbrev same_text : Bytes → Bytes
same_text s = s

abbrev same_read : Bytes → Option Bytes
same_read s = some s

abbrev tag_hmac : Bytes → Bytes → Bytes
tag_hmac secret data_ = bytes "sign"

abbrev fixed_claims : Bytes → Option Claims
fixed_claims payload = some ((bytes "exp", bytes "50") ∷ [])

sample-is_valid :
    is_valid same_text same_read tag_hmac (bytes "k") fixed_claims 10 (bytes "h.p.sign")
    ≡ success ((bytes "exp", bytes "50") ∷ [])
unfolding is_valid validate_and_decode check_signature check_expiration decode_claims_unvalidated
    decode_payload base64url_decode find_in_claims leading_number add_padding from_url_char find_if
    find_last_if same from_chars_size take_digits starts_with is_past from_time_t bits64 signed64
sample-is_valid = refl

is_valid-IsAccepted_example :
    IsAccepted same_text same_read tag_hmac
      (bytes "k")
      fixed_claims
      10
      (bytes "h.p.sign")
      ((bytes "exp", bytes "50") ∷ [])
is_valid-IsAccepted_example =
    is_valid-IsAccepted same_text same_read tag_hmac (bytes "k") fixed_claims 10 (bytes "h.p.sign")
      ((bytes "exp", bytes "50") ∷ []) sample-is_valid
