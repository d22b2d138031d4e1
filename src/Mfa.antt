-- ===== src/Mfa.antt =====
-- The second factor: src/mfa.hpp. The query, the clock and json-c are arguments; `none` in front of a
-- result is the exception `sql::error`.
pub mod Copied
pub mod Kinds
use apiserver_asymetric_encr.Base.{if◌then◌else◌, is_empty, Option, none, some, List, [], ◌∷◌}
use apiserver_asymetric_encr.Text.{Bytes, bytes}
use apiserver_asymetric_encr.Jwt.{Result, success, failure, Claims, find_in_claims}
use apiserver_asymetric_encr.Jwt.Token.{set_claim, get_token}
use apiserver_asymetric_encr.Sql.Rows.{Row, get_value, cast_string}

-- `fetch_user_secret`, on what the query returned.
unfoldable pub fetch_user_secret : Option (List Row) → Option (Option Bytes)
unfolding cast_string
fetch_user_secret none = none
fetch_user_secret (some []) = some none
fetch_user_secret (some (r ∷ rest)) = elim (get_value cast_string (bytes "totp_secret") r) [
  | none ↦ none
  | some secret ↦ if is_empty secret then some none else some (some secret)
]

abbrev pub keys_to_copy : List Bytes
keys_to_copy = bytes "user" ∷ bytes "email" ∷ bytes "roles" ∷ bytes "sessionId" ∷ []

-- `try_emplace`.
unfoldable pub emplace_claim : Bytes → Bytes → Claims → Claims
emplace_claim key value claims = elim (find_in_claims key claims) [
  | some old ↦ claims
  | none ↦ set_claim key value claims
]

-- The loop over the keys, from the claims that have been copied.
unfoldable pub copy_claims : List Bytes → Claims → Claims → Claims
copy_claims [] claims new_claims = new_claims
copy_claims (key ∷ keys) claims new_claims = elim (find_in_claims key claims) [
  | none ↦ copy_claims keys claims new_claims
  | some value ↦ copy_claims keys claims (emplace_claim key value new_claims)
]

-- `generate_post_auth_token`: `get_token` is `jwt::get_token`.
unfoldable pub generate_post_auth_token : (Claims → Result Bytes) → Claims → Option Bytes
generate_post_auth_token get_token claims = elim (get_token (copy_claims keys_to_copy claims [])) [
  | failure e ↦ none
  | success token ↦ some token
]
