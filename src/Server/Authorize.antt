-- ===== src/Server/Authorize.antt =====
-- Who may call what: `validate_token` and `validate_bearer_token` of src/server.cpp and
-- `cors::is_origin_allowed` of src/cors.hpp. `is_valid` is `jwt::is_valid`: the claims of a token
-- that it accepts.
use apiserver_asymetric_encr.Base.{
  if◌then◌else◌, Option-cases, is_empty, ◌≡◌, ◌↔◌, inl, inr, Bool, true, false, not, ◌&&◌, ◌||◌,
  Option, none, some, List, [], ◌∷◌, arith,
}
use apiserver_asymetric_encr.Text.{Bytes, bytes, same}
use apiserver_asymetric_encr.Request.Access.{Request, get_bearer_token}
use apiserver_asymetric_encr.Jwt.{find_in_claims, is_valid}

unfoldable pub is_preauth : List (Bytes × Bytes) → Bool
is_preauth claims = elim (find_in_claims (bytes "preauth") claims) [
  | none ↦ false
  | some v ↦ same v (bytes "true")
]

unfoldable pub validate_token :
    {J : Type 0} → (Bytes → Option (List (Bytes × Bytes))) → Bytes → Request J → Bool
validate_token is_valid mfa_uri req = elim (get_bearer_token req) [
  | none ↦ false
  | some token ↦ elim (is_valid token) [
    | none ↦ false
    | some claims ↦
        let is_target_mfa = same req.path mfa_uri in
        if is_preauth claims && not is_target_mfa
        then false
        else if not (is_preauth claims) && is_target_mfa
        then false
        else true
  ]
]

unfoldable pub validate_bearer_token : {J : Type 0} → Bytes → Request J → Bool
validate_bearer_token api_key req = if is_empty api_key then true else elim (get_bearer_token req) [
  | none ↦ false
  | some token ↦ if not (same token api_key) then false else true
]

unfoldable pub contains : List Bytes → Bytes → Bool
contains [] s = false
contains (o ∷ rest) s = same o s || contains rest s

unfoldable pub is_origin_allowed : Option Bytes → List Bytes → Bool
is_origin_allowed none allowed = true
is_origin_allowed (some origin) allowed = contains allowed origin

-- A request is let through exactly when it has a bearer token that is valid and whose kind fits the
-- path: a pre-authentication token for the path of the second factor, any other token for every
-- other path.
pub validate_token_iff :
    {J : Type 0} (is_valid : Bytes → Option (List (Bytes × Bytes))) (mfa_uri : Bytes)
    (req : Request J)
    → (validate_token is_valid mfa_uri req ≡ true) ↔ (
        (token : Bytes) × (claims : List (Bytes × Bytes)) × (get_bearer_token req ≡ some token)
        × (is_valid token ≡ some claims)
        × (is_preauth claims ≡ same req.path mfa_uri))
unfolding validate_token
validate_token_iff is_valid mfa_uri req = (
  λ h. elim (Option-cases (get_bearer_token req)) [
    | inl e ↦ absurd (ground arith)
    | inr (token, e) ↦ elim (Option-cases (is_valid token)) [
      | inl f ↦ absurd (ground arith)
      | inr (claims, f) ↦ (token, claims, e, f, ground arith)
    ]
  ],
  λ (token, claims, e, f, k). ground arith,
)
