-- ===== src/Jwt/Token/Claimed.antt =====
-- What `get_user` and `get_sessionId` of src/http_request.cpp say of a request with a token that
-- src/jwt.cpp has issued.
use apiserver_asymetric_encr.Base.{value_or, ℤ, ℕ, ◌≡◌, refl, ◌∙◌, false, Option, some}
use apiserver_asymetric_encr.Text.{Bytes, bytes, same}
use apiserver_asymetric_encr.Jwt.{Result, success, Claims, find_in_claims, get_claims}
use apiserver_asymetric_encr.Jwt.Token.{stamp_claims, get_token}
use apiserver_asymetric_encr.Jwt.Token.Url.{IsByteText, IsBase64}
use apiserver_asymetric_encr.Jwt.Token.Stamps.{stamped_other}
use apiserver_asymetric_encr.Jwt.Token.Valid.{get_claims-get_token}
use apiserver_asymetric_encr.Request.Access.{
  Request, get_bearer_token, claim_of, get_user, get_session_id,
}

module _ {J : Type 0} (encode_block : Bytes → Bytes) (read_base64 : Bytes → Option Bytes)
    (base64 : IsBase64 encode_block read_base64) (hmac : Bytes → Bytes → Bytes) (secret : Bytes)
    (digest : (data_ : Bytes) → IsByteText (hmac secret data_)) (get_map : Bytes → Option Claims)
    (build : Claims → Option Bytes) (timeout mfa_timeout : ℤ) where
  claim_of-get_token :
      (get : Bytes → Result Claims) (key token : Bytes) (claims read : Claims) (req : Request J)
      → get token ≡ success read
      → get_bearer_token req ≡ some token
      → find_in_claims key read ≡ find_in_claims key claims
      → claim_of get key req ≡ value_or (find_in_claims key claims) (bytes "not available")
  unfolding claim_of
  claim_of-get_token get key token claims read req gives bearer kept =
      rw (bearer, claim_of) (rw gives (rw kept refl))

  -- For a request that carries a token that the service issued, at whatever time it is asked and
  -- whether or not the token has expired, the user and the session are the claims the token was
  -- issued for, or `not available` where it has none. The base64 and the JSON are as for the round
  -- trip of tokens.
  pub get_user-get_token :
      (now : ℕ) (claims read : Claims) (payload token : Bytes) (req : Request J)
      → IsByteText payload
      → build (stamp_claims timeout mfa_timeout now claims) ≡ some payload
      → get_map payload ≡ some read
      → ((key : Bytes)
          → find_in_claims key read
            ≡ find_in_claims key (stamp_claims timeout mfa_timeout now claims))
      → get_token encode_block read_base64 hmac secret build timeout mfa_timeout now claims
        ≡ success token
      → get_bearer_token req ≡ some token
      → (get_user (get_claims encode_block read_base64 hmac secret get_map) req
          ≡ value_or (find_in_claims (bytes "user") claims) (bytes "not available"))
        × (get_session_id (get_claims encode_block read_base64 hmac secret get_map) req
            ≡ value_or (find_in_claims (bytes "sessionId") claims) (bytes "not available"))
  unfolding get_user get_session_id same
  get_user-get_token now claims read payload token req text builds reads faithful issued bearer =
      let gives =
        get_claims-get_token encode_block read_base64 base64 hmac secret digest get_map build
          timeout mfa_timeout now claims read payload token text builds reads issued in
      let kept : (key : Bytes)
          → same (bytes "exp") key ≡ false
          → same (bytes "iat") key ≡ false
          → find_in_claims key read ≡ find_in_claims key claims =
        λ key h k. faithful key ∙ stamped_other timeout mfa_timeout now claims key h k in
      (
        claim_of-get_token _ (bytes "user") token claims read req gives bearer
            (kept (bytes "user") refl refl),
        claim_of-get_token _ (bytes "sessionId") token claims read req gives bearer
            (kept (bytes "sessionId") refl refl),
      )
