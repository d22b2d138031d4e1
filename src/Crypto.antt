-- ===== src/Crypto.antt =====
-- `aes_gcm` of src/aes_gcm.hpp: base64, and the framing of an encrypted text. OpenSSL is a parameter:
-- `seal key iv plaintext` is the tag and the ciphertext of EVP_aes_256_gcm, `unseal` is the reverse
-- with its check of the tag, and the random IV is an argument.
pub mod Sextets
pub mod Base64
pub mod Framing
use mathlib.Core.Option
use apiserver_asymetric_encr.Base.{
  ltb, leb, ◌==◌, if◌then◌else◌, length, take, drop, ℕ, ◌+◌, ◌-◌, ◌*◌, ◌/◌, ◌%◌, ◌^◌, Bool, not,
  ◌||◌, Option, none, some, [], ◌∷◌, ◌++◌, map,
}
use apiserver_asymetric_encr.Text.{Bytes, is_digit, is_alpha}

-- `B64_CHARS[n]`.
unfoldable pub b64_char : ℕ → ℕ
b64_char n =
    if ltb n 26
    then b'A' + n
    else if ltb n 52
    then b'a' + (n - 26)
    else if ltb n 62
    then b'0' + (n - 52)
    else if n == 62
    then b'+'
    else b'/'

-- `is_b64`, and `B64_CHARS.find` for a byte that passes it.
unfoldable pub is_b64 : ℕ → Bool
is_b64 c = is_alpha c || is_digit c || c == b'+' || c == b'/'

unfoldable pub b64_pos : ℕ → ℕ
b64_pos c =
    if leb b'a' c
    then c - b'a' + 26
    else if leb b'A' c
    then c - b'A'
    else if leb b'0' c
    then c - b'0' + 52
    else if c == b'+'
    then 62
    else 63

-- The loop of `base64_encode`, three bytes a round. Bytes are below 256, so the bits of a group do
-- not overlap and `|` is `+`.
unfoldable pub base64_encode : Bytes → Bytes
unfolding b64_char
base64_encode [] = []
base64_encode (x ∷ []) =
    let b = x * 65536 in b64_char (b / 262144 % 64) ∷ b64_char (b / 4096 % 64) ∷ b'=' ∷ b'=' ∷ []
base64_encode (x ∷ y ∷ []) =
    let b = x * 65536 + y * 256 in
    b64_char (b / 262144 % 64) ∷ b64_char (b / 4096 % 64) ∷ b64_char (b / 64 % 64) ∷ b'=' ∷ []
base64_encode (x ∷ y ∷ z ∷ rest) =
    let b = x * 65536 + y * 256 + z in
    b64_char (b / 262144 % 64)
    ∷ b64_char (b / 4096 % 64)
    ∷ b64_char (b / 64 % 64)
    ∷ b64_char (b % 64)
    ∷ base64_encode rest

-- The loop of `base64_decode`. `val` is kept modulo 2 ^ 32, as the `int` that it is; `bits` is `-8`
-- plus `have`, the number of bits that are left. `none` where a byte is not of the alphabet.
unfoldable pub base64_decode_from : ℕ → ℕ → Bytes → Option Bytes
unfolding is_b64 b64_pos
base64_decode_from val have [] = some []
base64_decode_from val have (c ∷ cs) =
    let val' = (val * 64 + b64_pos c) % 2 ^ 32 in
    let emitting = base64_decode_from val' (have - 2) cs in
    let waiting_ = base64_decode_from val' (have + 6) cs in
    if c == b'='
    then some []
    else if not (is_b64 c)
    then none
    else if leb 2 have
    then Option.map (λ out. val' / 2 ^ (have - 2) % 256 ∷ out) emitting
    else waiting_

unfoldable pub base64_decode : Bytes → Option Bytes
base64_decode s = base64_decode_from 0 0 s

abbrev pub key_size : ℕ
key_size = 32

abbrev pub iv_size : ℕ
iv_size = 12

abbrev pub tag_size : ℕ
tag_size = 16

-- `static_cast<int>(n)`; `none` where the `int` is negative, which is no size that EVP or a vector
-- takes.
unfoldable pub int_size : ℕ → Option ℕ
int_size n = let low = n % 2 ^ 32 in if ltb low (2 ^ 31) then some low else none

-- `none` where the function throws.
unfoldable pub encrypt :
    (Bytes → Bytes → Bytes → Option (Bytes × Bytes)) → Bytes → Bytes → Bytes → Option Bytes
encrypt seal iv plaintext key_b64 = elim (base64_decode key_b64) [
  | none ↦ none
  | some key ↦ if not (length key == key_size) then none else elim (int_size (length plaintext)) [
    | none ↦ none
    | some len ↦ elim (seal key iv (take len plaintext)) [
      | none ↦ none
      | some (tag, ciphertext) ↦ some (base64_encode (iv ++ (tag ++ ciphertext)))
    ]
  ]
]

unfoldable pub decrypt :
    (Bytes → Bytes → Bytes → Bytes → Option Bytes) → Bytes → Bytes → Option Bytes
decrypt unseal ciphertext_b64 key_b64 = elim (base64_decode key_b64) [
  | none ↦ none
  | some key ↦ if not (length key == key_size) then none else elim (base64_decode ciphertext_b64) [
    | none ↦ none
    | some blob ↦
        if ltb (length blob) (iv_size + tag_size)
        then none
        else elim (int_size (length (drop (iv_size + tag_size) blob))) [
          | none ↦ none
          | some enc_len ↦
              unseal key (take iv_size blob) (take tag_size (drop iv_size blob))
                (take enc_len (drop (iv_size + tag_size) blob))
        ]
  ]
]
