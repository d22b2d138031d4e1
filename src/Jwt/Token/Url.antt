-- ===== src/Jwt/Token/Url.antt =====
-- `base64url_decode` of src/jwt.cpp reads back what `base64url_encode` writes.
use mathlib.Core.List.{append-nil}
use apiserver_asymetric_encr.Base.{
  ◌==◌, length, replicate, All, take-length_self, ℕ, zero, suc, ◌+◌, ◌-◌, ◌%◌, ◌<◌, ◌≡◌, refl, sym,
  ap, ◌∙◌, ◌≢◌, false, Option, some, [], ◌∷◌, ◌++◌, map, arith,
}
use apiserver_asymetric_encr.Text.{Bytes}
use apiserver_asymetric_encr.Text.Marks.{find_if-append, find_if_misses}
use apiserver_asymetric_encr.Jwt.{
  to_url_char, from_url_char, cut_padding, add_padding, base64url_encode, base64url_decode,
}

-- A letter of base64: what the code relies on is that it is none of its own marks.
abbrev pub IsLetter : ℕ → Type 0
IsLetter c = (c ≢ b'=') × (c ≢ b'-') × (c ≢ b'_') × (c ≢ b'.')

abbrev pub IsByteText : Bytes → Type 0
IsByteText s = All (λ c. c < 256) s

-- What RFC 4648 says of OpenSSL's two functions: the text is letters and then padding, up to a
-- multiple of four, and it is read back.
pub record IsBase64 (encode_block : Bytes → Bytes) (read_base64 : Bytes → Option Bytes)
    : Type 0 where
  pub letters : Bytes → Bytes
  pub padding : Bytes → ℕ
  pub shape : (s : Bytes) → encode_block s ≡ letters s ++ replicate (padding s) b'='
  pub are_letters : (s : Bytes) → All IsLetter (letters s)
  pub few : (s : Bytes) → padding s < 4
  pub whole : (s : Bytes) → (length (letters s) + padding s) % 4 ≡ 0
  pub reads : (s : Bytes) → IsByteText s → read_base64 (encode_block s) ≡ some s

map-append : (f : ℕ → ℕ) (s t : Bytes) → map f (s ++ t) ≡ map f s ++ map f t
map-append f [] t = refl
map-append f (c ∷ s) t = ap (◌∷◌ (f c)) (map-append f s t)

map-replicate : (n : ℕ) → map to_url_char (replicate n b'=') ≡ replicate n b'='
unfolding to_url_char
map-replicate zero = refl
map-replicate (suc n) = ap (◌∷◌ b'=') (map-replicate n)

length-map : (f : ℕ → ℕ) (s : Bytes) → length (map f s) ≡ length s
length-map f [] = refl
length-map f (c ∷ s) = ap suc (length-map f s)

url_letter :
    (c : ℕ)
    → IsLetter c
    → ((to_url_char c == b'=') ≡ false)
      × ((to_url_char c == b'.') ≡ false)
      × (from_url_char (to_url_char c) ≡ c)
unfolding to_url_char from_url_char
url_letter c h = ground arith

no_padding : (s : Bytes) → All IsLetter s → All (λ c. (c == b'=') ≡ false) (map to_url_char s)
no_padding [] h = tt
no_padding (c ∷ s) h = ((url_letter c h.0).0, no_padding s h.1)

no_dot : (s : Bytes) → All IsLetter s → All (λ c. (c == b'.') ≡ false) (map to_url_char s)
no_dot [] h = tt
no_dot (c ∷ s) h = ((url_letter c h.0).1, no_dot s h.1)

letters_back : (s : Bytes) → All IsLetter s → map from_url_char (map to_url_char s) ≡ s
letters_back [] h = refl
letters_back (c ∷ s) h = rw ((url_letter c h.0).2) (ap (◌∷◌ c) (letters_back s h.1))

cut_padding-append :
    (s : Bytes) (n : ℕ) → All (λ c. (c == b'=') ≡ false) s → cut_padding (s ++ replicate n b'=') ≡ s
unfolding cut_padding
cut_padding-append s zero h =
    rw (append-nil s) (rw (find_if_misses (λ c. c == b'=') s h, cut_padding) refl)
cut_padding-append s (suc n) h =
    rw (find_if-append (λ c. c == b'=') s (replicate n b'=') b'=' h refl, cut_padding)
      (take-length_self s (replicate (suc n) b'='))

module _ (encode_block : Bytes → Bytes) (read_base64 : Bytes → Option Bytes)
    (base64 : IsBase64 encode_block read_base64) where
  pub base64url_encode_lem :
      (s : Bytes) → base64url_encode encode_block read_base64 s ≡ map to_url_char (base64.letters s)
  unfolding base64url_encode
  base64url_encode_lem s =
      ap (λ t. cut_padding (map to_url_char t)) (base64.shape s)
      ∙ ap cut_padding (
          map-append to_url_char (base64.letters s) (replicate (base64.padding s) b'=')
          ∙ ap (λ t. map to_url_char (base64.letters s) ++ t) (map-replicate (base64.padding s)))
      ∙ cut_padding-append (map to_url_char (base64.letters s)) (base64.padding s)
          (no_padding (base64.letters s) (base64.are_letters s))

  pub base64url_encode_dots :
      (s : Bytes) → All (λ c. (c == b'.') ≡ false) (base64url_encode encode_block read_base64 s)
  base64url_encode_dots s =
      rw (base64url_encode_lem s) (no_dot (base64.letters s) (base64.are_letters s))

  pub base64url_decode-base64url_encode :
      (s : Bytes)
      → IsByteText s
      → base64url_decode encode_block read_base64 (base64url_encode encode_block read_base64 s)
        ≡ some s
  unfolding base64url_decode add_padding
  base64url_decode-base64url_encode s h = rw (base64url_encode_lem s) (
      rw (letters_back (base64.letters s) (base64.are_letters s)) (
        ap (λ n. read_base64 (base64.letters s ++ replicate n b'=')) fits
        ∙ ap read_base64 (sym (base64.shape s))
        ∙ base64.reads s h))
    where
      fits : (4 - length (base64.letters s) % 4) % 4 ≡ base64.padding s
      fits = omega (arith, base64.few s, base64.whole s)
