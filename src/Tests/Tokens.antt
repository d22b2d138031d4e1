-- ===== src/Tests/Tokens.antt =====
-- Tokens that are issued and validated, with the base64 of src/aes_gcm.hpp in the place of OpenSSL's.
use apiserver_asymetric_encr.Base.{
  ltb, if◌then◌else◌, value_or, length, replicate, All, ℤ, pos, negsuc, ℕ, ◌+◌, ◌*◌, ◌/◌, ◌%◌, ◌<◌,
  ◌≡◌, refl, true, false, not, Option, none, some, [], ◌∷◌, ◌++◌, arith,
}
use apiserver_asymetric_encr.Text.{Bytes, bytes, same, starts_with, tolower, sv_ci_equal}
use apiserver_asymetric_encr.Text.Numbers.{negated}
use apiserver_asymetric_encr.Crypto.{b64_char, base64_encode, base64_decode}
use apiserver_asymetric_encr.Crypto.Base64.{base64_decode-base64_encode}
use apiserver_asymetric_encr.Request.Model.{get, lookup_by, find_header}
use apiserver_asymetric_encr.Request.Access.{
  Request, bearer_of, get_bearer_token, get_user, get_session_id,
}
use apiserver_asymetric_encr.Server.Authorize.{is_preauth, validate_token, contains}
use apiserver_asymetric_encr.Jwt.{
  token_expired, success, failure, Claims, find_in_claims, nanos, bits64, signed64, from_time_t,
  is_past, sign, is_valid, get_claims,
}
use apiserver_asymetric_encr.Jwt.Token.{
  to_seconds, add_seconds, token_duration, stamp_claims, signing_input, get_token,
}
use apiserver_asymetric_encr.Jwt.Token.Url.{IsLetter, IsByteText, IsBase64}
use apiserver_asymetric_encr.Jwt.Token.Valid.{is_valid-get_token}
use apiserver_asymetric_encr.Mfa.{keys_to_copy, copy_claims, generate_post_auth_token}
use apiserver_asymetric_encr.Mfa.Kinds.{
  valid_claims, agree, validate_token-get_token, generate_post_auth_token_lem,
}
use apiserver_asymetric_encr.Jwt.Token.Claimed.{get_user-get_token}

letters_of : Bytes → Bytes
letters_of [] = []
letters_of (x ∷ []) =
    let b = x * 65536 in b64_char (b / 262144 % 64) ∷ b64_char (b / 4096 % 64) ∷ []
letters_of (x ∷ y ∷ []) =
    let b = x * 65536 + y * 256 in
    b64_char (b / 262144 % 64) ∷ b64_char (b / 4096 % 64) ∷ b64_char (b / 64 % 64) ∷ []
letters_of (x ∷ y ∷ z ∷ rest) =
    let b = x * 65536 + y * 256 + z in
    b64_char (b / 262144 % 64)
    ∷ b64_char (b / 4096 % 64)
    ∷ b64_char (b / 64 % 64)
    ∷ b64_char (b % 64)
    ∷ letters_of rest

padding_of : Bytes → ℕ
padding_of [] = 0
padding_of (x ∷ []) = 2
padding_of (x ∷ y ∷ []) = 1
padding_of (x ∷ y ∷ z ∷ rest) = padding_of rest

is_letter : (n : ℕ) → n < 64 → IsLetter (b64_char n)
unfolding b64_char
is_letter n h = ground arith

shape_of : (s : Bytes) → base64_encode s ≡ letters_of s ++ replicate (padding_of s) b'='
unfolding base64_encode letters_of padding_of
shape_of [] = refl
shape_of (x ∷ []) = refl
shape_of (x ∷ y ∷ []) = refl
shape_of (x ∷ y ∷ z ∷ rest) = rw (shape_of rest) refl

letters_are : (s : Bytes) → All IsLetter (letters_of s)
unfolding letters_of
letters_are [] = tt
letters_are (x ∷ []) = (is_letter _ (omega arith), (is_letter _ (omega arith), tt))
letters_are (x ∷ y ∷ []) =
    (is_letter _ (omega arith), (is_letter _ (omega arith), (is_letter _ (omega arith), tt)))
letters_are (x ∷ y ∷ z ∷ rest) = (
  is_letter _ (omega arith),
  (
    is_letter _ (omega arith),
    (is_letter _ (omega arith), (is_letter _ (omega arith), letters_are rest)),
  ),
)

padding_few : (s : Bytes) → padding_of s < 4
unfolding padding_of
padding_few [] = omega arith
padding_few (x ∷ []) = omega arith
padding_few (x ∷ y ∷ []) = omega arith
padding_few (x ∷ y ∷ z ∷ rest) = padding_few rest

padding_whole : (s : Bytes) → (length (letters_of s) + padding_of s) % 4 ≡ 0
unfolding letters_of padding_of
padding_whole [] = refl
padding_whole (x ∷ []) = refl
padding_whole (x ∷ y ∷ []) = refl
padding_whole (x ∷ y ∷ z ∷ rest) = omega (arith, padding_whole rest)

standard-IsBase64 : IsBase64 base64_encode base64_decode
standard-IsBase64 = record {
  letters = letters_of;
  padding = padding_of;
  shape = shape_of;
  are_letters = letters_are;
  few = padding_few;
  whole = padding_whole;
  reads = base64_decode-base64_encode;
}

abbrev fixed_hmac : Bytes → Bytes → Bytes
fixed_hmac secret data_ = bytes "sign"

fixed_digest : (data_ : Bytes) → IsByteText (fixed_hmac (bytes "k") data_)
fixed_digest data_ = omega arith

-- The clock when the token is issued, and when it is validated.
abbrev one_second : ℕ
one_second = 1000000000

abbrev one_minute : ℕ
one_minute = 60000000000

abbrev first_claims : Claims
first_claims = (bytes "preauth", bytes "true") ∷ (bytes "user", bytes "ann") ∷ []

abbrev first_stamped : Claims
first_stamped = stamp_claims (pos 3600) (pos 300) one_second first_claims

-- JSON of one object.
abbrev build_one : Claims → Option Bytes
build_one claims = some (bytes "{}")

abbrev read_one : Claims → Bytes → Option Claims
read_one claims payload = some claims

first_duration : token_duration (pos 3600) (pos 300) first_claims ≡ pos 300
unfolding token_duration find_in_claims same
first_duration = refl

is_valid-get_token_example :
    ((token : Bytes) × (get_token base64_encode base64_decode fixed_hmac
          (bytes "k")
          build_one
          (pos 3600)
          (pos 300)
          one_second
          first_claims
        ≡ success token)
      × (is_valid base64_encode base64_decode fixed_hmac
            (bytes "k")
            (read_one first_stamped)
            one_minute
            token
          ≡ (if ltb ((one_second / nanos + 300) * nanos) one_minute
              then failure token_expired
              else success first_stamped)))
    × ((key : Bytes)
        → same (bytes "exp") key ≡ false
        → same (bytes "iat") key ≡ false
        → find_in_claims key first_stamped ≡ find_in_claims key first_claims)
is_valid-get_token_example =
    is_valid-get_token base64_encode base64_decode standard-IsBase64 fixed_hmac (bytes "k")
      fixed_digest (read_one first_stamped) build_one (pos 3600) (pos 300) one_second one_minute 300
      first_claims first_stamped (bytes "{}") (omega arith) refl refl (λ key. refl) first_duration
      (omega arith)

-- A request with the token.
abbrev bearing : Bytes → Request ℕ
bearing token = record {
  json_payload = none;
  method = get;
  headers = (bytes "Authorization", bytes "Bearer " ++ token) ∷ [];
  params = [];
  body = none;
  file_parts = [];
  path = bytes "/shippers";
  remote_ip = [];
}

bearing_lem : (token : Bytes) → get_bearer_token (bearing token) ≡ some token
unfolding get_bearer_token bearer_of find_header lookup_by sv_ci_equal tolower starts_with
bearing_lem token = refl

abbrev first_token : Bytes
first_token =
    signing_input base64_encode base64_decode fixed_hmac (bytes "k") build_one (bytes "{}")
    ++ (b'.'
        ∷ sign base64_encode base64_decode fixed_hmac (bytes "k") (
            signing_input base64_encode base64_decode fixed_hmac (bytes "k") build_one
              (bytes "{}")))

issued :
    (timeout mfa_timeout : ℤ) (now : ℕ) (claims : Claims)
    → get_token base64_encode base64_decode fixed_hmac
        (bytes "k")
        build_one
        timeout
        mfa_timeout
        now
        claims
      ≡ success first_token
unfolding get_token
issued timeout mfa_timeout now claims = refl

validate_token-get_token_example :
    validate_token
      (λ t. valid_claims (
        is_valid base64_encode base64_decode fixed_hmac
          (bytes "k")
          (read_one first_stamped)
          one_minute
          t))
      (bytes "/validate/totp")
      (bearing first_token)
    ≡ (if ltb ((one_second / nanos + 300) * nanos) one_minute
        then false
        else agree (is_preauth first_claims) (same (bytes "/shippers") (bytes "/validate/totp")))
validate_token-get_token_example =
    validate_token-get_token base64_encode base64_decode standard-IsBase64 fixed_hmac (bytes "k")
      fixed_digest (read_one first_stamped) build_one (pos 3600) (pos 300) one_second one_minute 300
      first_claims first_stamped (bytes "{}") first_token (bytes "/validate/totp")
      (bearing first_token) (omega arith) refl refl (λ key. refl) first_duration (omega arith)
      (issued (pos 3600) (pos 300) one_second first_claims) (bearing_lem first_token)

abbrev second_stamped : Claims
second_stamped =
    stamp_claims (pos 3600) (pos 300) one_second (copy_claims keys_to_copy first_claims [])

second_issued :
    generate_post_auth_token
      (get_token base64_encode base64_decode fixed_hmac
        (bytes "k")
        build_one
        (pos 3600)
        (pos 300)
        one_second)
      first_claims
    ≡ some first_token
unfolding generate_post_auth_token get_token
second_issued = refl

generate_post_auth_token_lem_example :
    (validate_token
        (λ t. valid_claims (
          is_valid base64_encode base64_decode fixed_hmac
            (bytes "k")
            (read_one second_stamped)
            one_minute
            t))
        (bytes "/validate/totp")
        (bearing first_token)
      ≡ (if ltb ((one_second / nanos + 3600) * nanos) one_minute
          then false
          else not (same (bytes "/shippers") (bytes "/validate/totp"))))
    × ((key : Bytes)
        → same (bytes "exp") key ≡ false
        → same (bytes "iat") key ≡ false
        → find_in_claims key second_stamped
          ≡ (if contains keys_to_copy key then find_in_claims key first_claims else none))
generate_post_auth_token_lem_example =
    generate_post_auth_token_lem base64_encode base64_decode standard-IsBase64 fixed_hmac
      (bytes "k") fixed_digest (read_one second_stamped) build_one 3600 (pos 300) one_second
      one_minute first_claims second_stamped (bytes "{}") first_token (bytes "/validate/totp")
      (bearing first_token) (omega arith) refl refl (λ key. refl) (omega arith) second_issued
      (bearing_lem first_token)

get_user-get_token_example :
    (get_user
        (get_claims base64_encode base64_decode fixed_hmac (bytes "k") (read_one first_stamped))
        (bearing first_token)
      ≡ value_or (find_in_claims (bytes "user") first_claims) (bytes "not available"))
    × (get_session_id
          (get_claims base64_encode base64_decode fixed_hmac (bytes "k") (read_one first_stamped))
          (bearing first_token)
        ≡ value_or (find_in_claims (bytes "sessionId") first_claims) (bytes "not available"))
get_user-get_token_example =
    get_user-get_token base64_encode base64_decode standard-IsBase64 fixed_hmac (bytes "k")
      fixed_digest (read_one first_stamped) build_one (pos 3600) (pos 300) one_second first_claims
      first_stamped (bytes "{}") first_token (bearing first_token) (omega arith) refl refl
      (λ key. refl) (issued (pos 3600) (pos 300) one_second first_claims) (bearing_lem first_token)

-- An expiry long before the epoch whose nanoseconds wrap around to a time that has not come.
overflowing_expiry : is_past 1700000000000000000 (negsuc 9999999999) ≡ false
unfolding is_past from_time_t bits64 signed64
overflowing_expiry = refl

-- A lifetime whose end wraps around is over at once.
overflowing_lifetime :
    is_past 1700000000000000001 (add_seconds 1700000000000000000 (pos 10000000000)) ≡ true
unfolding is_past from_time_t add_seconds to_seconds bits64 signed64 negated
overflowing_lifetime = refl
