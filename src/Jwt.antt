-- ===== src/Jwt.antt =====
-- JSON Web Tokens and nonces: `jwt::detail` of src/jwt.cpp. Parameters, for the code of OpenSSL and
-- json-c: `encode_block` is EVP_EncodeBlock, `read_base64` the BIO chain that decodes, `hmac` is
-- HMAC-SHA256, `get_map` reads the claims; `now` is the clock, a number of
-- nanoseconds below 2 ^ 63.
pub mod Nonce
pub mod Clock
pub mod Accepted
pub mod Token
pub mod Instance
pub mod Configured
use apiserver_asymetric_encr.Base.{
  ltb, leb, ◌==◌, if◌then◌else◌, value_or, length, is_empty, take, drop, replicate, ℤ, pos, negsuc,
  ℕ, ◌+◌, ◌-◌, ◌*◌, ◌%◌, ◌^◌, Bool, true, false, not, Option, none, some, List, [], ◌∷◌, ◌++◌, map,
}
use apiserver_asymetric_encr.Text.{
  Bytes, bytes, same, starts_with, find_if, find_last_if, substr, from_chars_size,
}
use apiserver_asymetric_encr.Text.Numbers.{negated}

pub data ErrorCode : Type 0 where
  token_expired invalid_signature invalid_format invalid_json : ErrorCode
  missing_expiration_claim invalid_claim_format json_creation_failed : ErrorCode
  token_too_long not_initialized : ErrorCode

pub data Result (A : Type 0) : Type 0 where
  success : A → Result A
  failure : ErrorCode → Result A

abbrev pub Claims : Type 0
Claims = List (Bytes × Bytes)

unfoldable pub to_url_char : ℕ → ℕ
to_url_char c = if c == b'+' then b'-' else if c == b'/' then b'_' else c

unfoldable pub from_url_char : ℕ → ℕ
from_url_char c = if c == b'-' then b'+' else if c == b'_' then b'/' else c

-- `buffer.resize(buffer.find('='))`.
unfoldable pub cut_padding : Bytes → Bytes
cut_padding s = elim (find_if (λ c. c == b'=') s) [ none ↦ s | some i ↦ take i s ]

-- `while (length % 4) += '='`.
unfoldable pub add_padding : Bytes → Bytes
add_padding s = s ++ replicate ((4 - length s % 4) % 4) b'='

-- Comparison of whole texts; that it takes constant time is outside the model.
abbrev pub constant_time_compare : Bytes → Bytes → Bool
constant_time_compare a b = same a b

unfoldable pub find_in_claims : Bytes → Claims → Option Bytes
find_in_claims key [] = none
find_in_claims key ((k, v) ∷ rest) = if same k key then some v else find_in_claims key rest

-- A `long long` that `std::from_chars` reads from the start of the text; what follows it is not
-- looked at.
unfoldable pub leading_number : Bytes → Option ℤ
leading_number s =
    if starts_with s (bytes "-")
    then elim (from_chars_size (drop 1 s)) [
      | none ↦ none
      | some (value, rest) ↦ if leb value (2 ^ 63) then some (negated value) else none
    ]
    else elim (from_chars_size s) [
      | none ↦ none
      | some (value, rest) ↦ if ltb value (2 ^ 63) then some (pos value) else none
    ]

-- The ticks of a second. `std::chrono::system_clock` counts nanoseconds in 64 bits with a sign, and
-- what overflows them is taken to wrap around.
abbrev pub nanos : ℕ
nanos = 1000000000

unfoldable pub bits64 : ℤ → ℕ
bits64 (pos n) = n % 2 ^ 64
bits64 (negsuc n) = 2 ^ 64 - 1 - n % 2 ^ 64

unfoldable pub signed64 : ℕ → ℤ
signed64 n = if ltb n (2 ^ 63) then pos n else negsuc (2 ^ 64 - 1 - n)

-- `std::chrono::system_clock::from_time_t`.
unfoldable pub from_time_t : ℤ → ℤ
unfolding bits64 signed64
from_time_t seconds = signed64 (bits64 seconds * nanos % 2 ^ 64)

abbrev pub ticks_passed : ℕ → ℤ → Bool
ticks_passed now (pos e) = ltb e now
ticks_passed now (negsuc n) = true

-- `system_clock::now() > system_clock::from_time_t(exp_val)`.
unfoldable pub is_past : ℕ → ℤ → Bool
is_past now exp_val = ticks_passed now (from_time_t exp_val)

module _ (encode_block : Bytes → Bytes) (read_base64 : Bytes → Option Bytes) where
  unfoldable pub base64url_encode : Bytes → Bytes
  base64url_encode data_ = cut_padding (map to_url_char (encode_block data_))

  unfoldable pub base64url_decode : Bytes → Option Bytes
  base64url_decode data_ = read_base64 (add_padding (map from_url_char data_))

  module _ (hmac : Bytes → Bytes → Bytes) (secret : Bytes) where
    unfoldable pub sign : Bytes → Bytes
    sign data_ = base64url_encode (hmac secret data_)

    -- `get_nonce`, on the random bytes.
    unfoldable pub get_nonce : Bytes → Bytes
    get_nonce random =
        let payload = base64url_encode random in
        payload ++ (b'.' ∷ base64url_encode (hmac secret payload))

    unfoldable pub verify_nonce : Bytes → Bool
    verify_nonce nonce = elim (find_if (λ c. c == b'.') nonce) [
      | none ↦ false
      | some dot ↦
          constant_time_compare (base64url_encode (hmac secret (take dot nonce)))
            (drop (dot + 1) nonce)
    ]

    module _ (get_map : Bytes → Option Claims) where
      -- The payload is between the first and the last dot.
      unfoldable pub decode_payload : Bytes → ℕ → ℕ → Result Claims
      decode_payload token first_dot second_dot =
          elim (base64url_decode (substr token (first_dot + 1) (second_dot - first_dot - 1))) [
            | none ↦ failure invalid_format
            | some payload ↦ elim (get_map payload) [
              | none ↦ failure invalid_json
              | some claims ↦ success claims
            ]
          ]

      unfoldable pub decode_claims_unvalidated : Bytes → Result Claims
      decode_claims_unvalidated token = elim (find_if (λ c. c == b'.') token) [
        | none ↦ failure invalid_format
        | some first_dot ↦ elim (find_last_if (λ c. c == b'.') token) [
          | none ↦ failure invalid_format
          | some second_dot ↦
              if second_dot == first_dot
              then failure invalid_format
              else decode_payload token first_dot second_dot
        ]
      ]

      -- The end of `validate_and_decode`.
      unfoldable pub check_expiration : ℕ → Claims → Result Claims
      check_expiration now claims = elim (find_in_claims (bytes "exp") claims) [
        | none ↦ failure missing_expiration_claim
        | some text ↦ elim (leading_number text) [
          | none ↦ failure invalid_claim_format
          | some exp_val ↦ if is_past now exp_val then failure token_expired else success claims
        ]
      ]

      -- The branch `if (verify_signature)`: `none` where it lets the token pass.
      unfoldable pub check_signature : Bytes → Option ErrorCode
      check_signature token =
          let second_dot = value_or (find_last_if (λ c. c == b'.') token) 0 in
          elim (base64url_decode (drop (second_dot + 1) token)) [
            | none ↦ some invalid_format
            | some received ↦
                if not (constant_time_compare (hmac secret (take second_dot token)) received)
                then some invalid_signature
                else none
          ]

      unfoldable pub validate_and_decode : ℕ → Bytes → Bool → Result Claims
      validate_and_decode now token verify_signature = elim (decode_claims_unvalidated token) [
        | failure e ↦ failure e
        | success claims ↦ elim (if verify_signature then check_signature token else none) [
          | some e ↦ failure e
          | none ↦ check_expiration now claims
        ]
      ]

      unfoldable pub is_valid : ℕ → Bytes → Result Claims
      is_valid now token = validate_and_decode now token true

      -- The claims of a token whose signature and expiration are not looked at.
      unfoldable pub get_claims : Bytes → Result Claims
      get_claims token = decode_claims_unvalidated token

-- `service`: the settings of the process.
pub record Service : Type 0 where
  pub secret : Bytes
  pub timeout : ℤ
  pub mfa_timeout : ℤ

-- The constructor; the exception is `none`.
unfoldable pub new_service : Bytes → ℤ → ℤ → Option Service
new_service secret timeout mfa_timeout =
    if is_empty secret
    then none
    else some (record { secret = secret; timeout = timeout; mfa_timeout = mfa_timeout })
