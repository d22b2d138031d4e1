-- ===== src/Mfa/Kinds.antt =====
-- Which paths a token opens: tokens of src/jwt.cpp before `validate_token` of src/server.cpp, and the
-- token that src/mfa.hpp issues behind the second factor.
use apiserver_asymetric_encr.Base.{
  ltb, if◌then◌else◌, ℤ, pos, ℕ, ◌+◌, ◌*◌, ◌/◌, ◌^◌, ◌<◌, ◌≡◌, refl, sym, ap, ◌∙◌, subst, Bool,
  true, false, not, ◌&&◌, Option, none, some, [], arith,
}
use apiserver_asymetric_encr.Text.{Bytes, bytes, same}
use apiserver_asymetric_encr.Jwt.{
  token_expired, Result, success, failure, Claims, find_in_claims, nanos, is_valid,
}
use apiserver_asymetric_encr.Server.Authorize.{is_preauth, validate_token, contains}
use apiserver_asymetric_encr.Mfa.{keys_to_copy, copy_claims, generate_post_auth_token}
use apiserver_asymetric_encr.Jwt.Token.{token_duration, stamp_claims, get_token}
use apiserver_asymetric_encr.Jwt.Token.Url.{IsByteText, IsBase64}
use apiserver_asymetric_encr.Jwt.Token.Valid.{is_valid-get_token}
use apiserver_asymetric_encr.Request.Access.{Request, get_bearer_token}
use apiserver_asymetric_encr.Mfa.Copied.{find-copy_claims}

-- The claims where a token is valid.
abbrev pub valid_claims : Result Claims → Option Claims
valid_claims (success claims) = some claims
valid_claims (failure e) = none

-- Both are true, or neither.
abbrev pub agree : Bool → Bool → Bool
agree true b = b
agree false b = not b

is_preauth_of :
    (claims read : Claims)
    → find_in_claims (bytes "preauth") read ≡ find_in_claims (bytes "preauth") claims
    → is_preauth read ≡ is_preauth claims
unfolding is_preauth
is_preauth_of claims read e = rw (e, is_preauth) refl

by_kind :
    (preauth target : Bool)
    → (if preauth && not target then false else if not preauth && target then false else true)
      ≡ agree preauth target
by_kind true true = refl
by_kind true false = refl
by_kind false true = refl
by_kind false false = refl

module _ {J : Type 0} (encode_block : Bytes → Bytes) (read_base64 : Bytes → Option Bytes)
    (base64 : IsBase64 encode_block read_base64) (hmac : Bytes → Bytes → Bytes) (secret : Bytes)
    (digest : (data_ : Bytes) → IsByteText (hmac secret data_)) (get_map : Bytes → Option Claims)
    (build : Claims → Option Bytes) (timeout mfa_timeout : ℤ) where
  validate_token_of :
      (later : ℕ) (mfa_uri token : Bytes) (req : Request J) (claims read : Claims) (expired : Bool)
      → get_bearer_token req ≡ some token
      → is_valid encode_block read_base64 hmac secret get_map later token
        ≡ (if expired then failure token_expired else success read)
      → find_in_claims (bytes "preauth") read ≡ find_in_claims (bytes "preauth") claims
      → validate_token
          (λ t. valid_claims (is_valid encode_block read_base64 hmac secret get_map later t))
          mfa_uri
          req
        ≡ (if expired then false else agree (is_preauth claims) (same req.path mfa_uri))
  unfolding validate_token
  validate_token_of later mfa_uri token req claims read true bearer valid kind =
      rw (bearer, validate_token) (rw valid refl)
  validate_token_of later mfa_uri token req claims read false bearer valid kind =
      rw (bearer, validate_token)
        (rw valid (
          rw (is_preauth_of claims read kind)
            (by_kind (is_preauth claims) (same req.path mfa_uri))))

  -- A request that carries an issued token, for a lifetime that is not negative and whose end fits
  -- the 64-bit nanoseconds of the clock, is let through, until the token expires, exactly when a
  -- pre-authentication token meets the path of the second factor or another token another path. The
  -- base64 and the JSON are as for the round trip of tokens.
  pub validate_token-get_token :
      (now later seconds : ℕ) (claims read : Claims) (payload token mfa_uri : Bytes)
      (req : Request J)
      → IsByteText payload
      → build (stamp_claims timeout mfa_timeout now claims) ≡ some payload
      → get_map payload ≡ some read
      → ((key : Bytes)
          → find_in_claims key read
            ≡ find_in_claims key (stamp_claims timeout mfa_timeout now claims))
      → token_duration timeout mfa_timeout claims ≡ pos seconds
      → now + seconds * nanos < 2 ^ 63
      → get_token encode_block read_base64 hmac secret build timeout mfa_timeout now claims
        ≡ success token
      → get_bearer_token req ≡ some token
      → validate_token
          (λ t. valid_claims (is_valid encode_block read_base64 hmac secret get_map later t))
          mfa_uri
          req
        ≡ (if ltb ((now / nanos + seconds) * nanos) later
            then false
            else agree (is_preauth claims) (same req.path mfa_uri))
  unfolding same
  validate_token-get_token now later seconds claims read payload token mfa_uri req text builds reads
        faithful lasts small issued bearer =
      let ((t, made, valid), kept) =
        is_valid-get_token encode_block read_base64 base64 hmac secret digest get_map build timeout
          mfa_timeout now later seconds claims read payload text builds reads faithful lasts
          small in
      let same_token : t ≡ token = success_inj (sym made ∙ issued) in
      validate_token_of later mfa_uri token req claims read
        (ltb ((now / nanos + seconds) * nanos) later) bearer
        (subst
          (λ x. is_valid encode_block read_base64 hmac secret get_map later x ≡ (
            if ltb ((now / nanos + seconds) * nanos) later
            then failure token_expired
            else success read))
          same_token valid)
        (kept (bytes "preauth") refl refl)
    where
      success_inj : {a b : Bytes} → Path (Result Bytes) (success a) (success b) → a ≡ b
      success_inj e = cc

copied_preauth : (claims : Claims) → is_preauth (copy_claims keys_to_copy claims []) ≡ false
unfolding is_preauth contains same find_in_claims
copied_preauth claims =
    rw (find-copy_claims (bytes "preauth") keys_to_copy claims [], is_preauth) refl

usual_duration :
    (timeout mfa_timeout : ℤ) (claims : Claims)
    → is_preauth claims ≡ false
    → token_duration timeout mfa_timeout claims ≡ timeout
unfolding token_duration is_preauth
usual_duration timeout mfa_timeout claims h = ground arith

issued_by :
    (get : Claims → Result Bytes) (claims : Claims) (token : Bytes)
    → generate_post_auth_token get claims ≡ some token
    → get (copy_claims keys_to_copy claims []) ≡ success token
unfolding generate_post_auth_token
issued_by get claims token h = ground arith

module _ {J : Type 0} (encode_block : Bytes → Bytes) (read_base64 : Bytes → Option Bytes)
    (base64 : IsBase64 encode_block read_base64) (hmac : Bytes → Bytes → Bytes) (secret : Bytes)
    (digest : (data_ : Bytes) → IsByteText (hmac secret data_)) (get_map : Bytes → Option Claims)
    (build : Claims → Option Bytes) (seconds : ℕ) (mfa_timeout : ℤ) where
  -- The token that follows a passed second factor is let through, for the full lifetime, on every
  -- path but that of the second factor, whatever the claims of the first token were; and beside the
  -- two stamps its claims are exactly those claims of the first token that the keys to copy name.
  -- The end of the lifetime fits the 64-bit nanoseconds of the clock; the base64 and the JSON are
  -- as for the round trip of tokens.
  pub generate_post_auth_token_lem :
      (now later : ℕ) (claims read : Claims) (payload token mfa_uri : Bytes) (req : Request J)
      → IsByteText payload
      → build (stamp_claims (pos seconds) mfa_timeout now (copy_claims keys_to_copy claims []))
        ≡ some payload
      → get_map payload ≡ some read
      → ((key : Bytes)
          → find_in_claims key read
            ≡ find_in_claims key
                (stamp_claims (pos seconds) mfa_timeout now (copy_claims keys_to_copy claims [])))
      → now + seconds * nanos < 2 ^ 63
      → generate_post_auth_token
          (get_token encode_block read_base64 hmac secret build (pos seconds) mfa_timeout now)
          claims
        ≡ some token
      → get_bearer_token req ≡ some token
      → (validate_token
            (λ t. valid_claims (is_valid encode_block read_base64 hmac secret get_map later t))
            mfa_uri
            req
          ≡ (if ltb ((now / nanos + seconds) * nanos) later
              then false
              else not (same req.path mfa_uri)))
        × ((key : Bytes)
            → same (bytes "exp") key ≡ false
            → same (bytes "iat") key ≡ false
            → find_in_claims key read
              ≡ (if contains keys_to_copy key then find_in_claims key claims else none))
  unfolding contains same find_in_claims
  generate_post_auth_token_lem now later claims read payload token mfa_uri req text builds reads
        faithful small issued bearer =
      let copied = copy_claims keys_to_copy claims [] in
      let usual = usual_duration (pos seconds) mfa_timeout copied (copied_preauth claims) in
      (
        validate_token-get_token encode_block read_base64 base64 hmac secret digest get_map build
              (pos seconds) mfa_timeout now later seconds copied read payload token mfa_uri req text
              builds reads faithful usual small
              (issued_by
                (get_token encode_block read_base64 hmac secret build (pos seconds) mfa_timeout now)
                claims token issued)
              bearer
            ∙ ap
                (λ b.
                  if ltb ((now / nanos + seconds) * nanos) later
                  then false
                  else agree b (same req.path mfa_uri))
                (copied_preauth claims),
        λ key not_exp not_iat.
            (is_valid-get_token encode_block read_base64 base64 hmac secret digest get_map build
                (pos seconds) mfa_timeout now later seconds copied read payload text builds reads
                faithful usual small).1
              key not_exp not_iat
            ∙ find-copy_claims key keys_to_copy claims [],
      )
