-- ===== src/Jwt/Token.antt =====
-- Tokens that the service issues: `service::get_token` of src/jwt.cpp. `build` is
-- `json_parser::build`, `none` where it throws; the clock, in nanoseconds, is an argument.
pub mod Stamps
pub mod Url
pub mod Valid
pub mod Claimed
use apiserver_asymetric_encr.Base.{
  ltb, ◌==◌, if◌then◌else◌, ℤ, pos, negsuc, ℕ, suc, ◌+◌, ◌*◌, ◌/◌, ◌%◌, ◌^◌, Bool, true, false,
  ◌&&◌, ◌||◌, Option, none, some, [], ◌∷◌, ◌++◌,
}
use apiserver_asymetric_encr.Text.{Bytes, bytes, same}
use apiserver_asymetric_encr.Text.Numbers.{to_string, negated}
use apiserver_asymetric_encr.Jwt.{
  json_creation_failed, Result, success, failure, Claims, find_in_claims, nanos, bits64, signed64,
  base64url_encode, sign,
}

-- The order of `std::less` on texts.
unfoldable pub less : Bytes → Bytes → Bool
less [] [] = false
less [] (b ∷ t) = true
less (a ∷ s) [] = false
less (a ∷ s) (b ∷ t) = ltb a b || (a == b && less s t)

-- `claims[key] = value` in a `std::map`, which holds its keys in order.
unfoldable pub set_claim : Bytes → Bytes → Claims → Claims
unfolding less
set_claim key value [] = (key, value) ∷ []
set_claim key value ((k, v) ∷ rest) =
    if same k key
    then (k, value) ∷ rest
    else if less key k
    then (key, value) ∷ (k, v) ∷ rest
    else (k, v) ∷ set_claim key value rest

-- `duration_cast<std::chrono::seconds>`, which rounds towards zero.
unfoldable pub to_seconds : ℤ → ℤ
to_seconds (pos n) = pos (n / nanos)
to_seconds (negsuc n) = negated (suc n / nanos)

-- The seconds of `now + duration`, a sum of ticks in 64 bits.
unfoldable pub add_seconds : ℕ → ℤ → ℤ
unfolding to_seconds
add_seconds now duration = to_seconds (signed64 ((now + bits64 duration * nanos) % 2 ^ 64))

unfoldable pub token_duration : ℤ → ℤ → Claims → ℤ
token_duration timeout mfa_timeout claims = elim (find_in_claims (bytes "preauth") claims) [
  | none ↦ timeout
  | some v ↦ if same v (bytes "true") then mfa_timeout else timeout
]

-- `claims_copy` with the two times.
unfoldable pub stamp_claims : ℤ → ℤ → ℕ → Claims → Claims
unfolding to_string add_seconds
stamp_claims timeout mfa_timeout now claims =
    set_claim (bytes "exp")
      (to_string (add_seconds now (token_duration timeout mfa_timeout claims)))
      (set_claim (bytes "iat") (to_string (pos (now / nanos))) claims)

abbrev pub header_text : Bytes
header_text = bytes "{\"alg\":\"HS256\",\"typ\":\"JWT\"}"

module _ (encode_block : Bytes → Bytes) (read_base64 : Bytes → Option Bytes)
    (hmac : Bytes → Bytes → Bytes) (secret : Bytes) (build : Claims → Option Bytes) where
  unfoldable pub signing_input : Bytes → Bytes
  signing_input payload =
      base64url_encode encode_block read_base64 header_text
      ++ (b'.' ∷ base64url_encode encode_block read_base64 payload)

  unfoldable pub get_token : ℤ → ℤ → ℕ → Claims → Result Bytes
  get_token timeout mfa_timeout now claims =
      elim (build (stamp_claims timeout mfa_timeout now claims)) [
        | none ↦ failure json_creation_failed
        | some payload ↦ success (
            signing_input payload
            ++ (b'.' ∷ sign encode_block read_base64 hmac secret (signing_input payload)))
      ]
