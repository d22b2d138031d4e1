-- ===== src/Tests/Settings.antt =====
-- Runs of the theorems on the settings of src/env.hpp.
use apiserver_asymetric_encr.Base.{
  if◌then◌else◌, value_or, is_empty, pos, ◌≡◌, refl, Option, none, some, [], ◌∷◌, arith,
}
use apiserver_asymetric_encr.Text.{Bytes, bytes, same, starts_with, ends_with}
use apiserver_asymetric_encr.Text.Numbers.{decimal, decimal_from, to_string}
use apiserver_asymetric_encr.Env.{convert_signed, int_limit, find_cached, resolve, fetch_string}
use apiserver_asymetric_encr.Env.Numbers.{in_range, convert_signed-to_string}
use apiserver_asymetric_encr.Env.Cache.{Fetch, fetch, fetches, fetch_string_stable}
use apiserver_asymetric_encr.Jwt.Instance.{default_secret, get_service}
use apiserver_asymetric_encr.Jwt.Configured.{setting, known, get_service_configured}
use mathlib.Core.Option

convert_signed-to_string_example :
    convert_signed int_limit (to_string (pos 3000000000))
    ≡ (if in_range int_limit (pos 3000000000) then some (pos 3000000000) else none)
convert_signed-to_string_example = convert_signed-to_string int_limit (pos 3000000000) (omega arith)

abbrev at_start : Fetch
at_start = record {
  key = bytes "PORT";
  getenv = λ key. some (bytes "8080");
  decrypt = λ path. none;
}

-- The variable is gone.
abbrev later : Fetch
later = record { key = bytes "PORT"; getenv = λ key. none; decrypt = λ path. none }

abbrev other : Fetch
other = record { key = bytes "HOST"; getenv = λ key. some (bytes "main"); decrypt = λ path. none }

first_port : (fetch_string at_start.getenv at_start.decrypt at_start.key []).1 ≡ some (bytes "8080")
unfolding fetch_string find_cached resolve ends_with starts_with
first_port = refl

fetch_string_stable_example :
    let cache = fetches (other ∷ []) (fetch at_start []) in
    fetch_string later.getenv later.decrypt later.key cache ≡ (cache, some (bytes "8080"))
fetch_string_stable_example =
    fetch_string_stable at_start later (other ∷ []) (bytes "8080") [] refl first_port

-- A process with a secret and a lifetime, and no lifetime for the second factor.
abbrev small_env : Bytes → Option Bytes
small_env key =
    if same key (bytes "JWT_SECRET")
    then some (bytes "k")
    else if same key (bytes "JWT_TIMEOUT_SECONDS")
    then some (bytes "60")
    else none

abbrev no_files : Bytes → Option Bytes
no_files path = none

known_timeout :
    known small_env no_files [] (bytes "JWT_TIMEOUT_SECONDS") ≡ Option.map to_string (some (pos 60))
unfolding find_cached resolve same ends_with starts_with to_string decimal decimal_from
known_timeout = refl

known_mfa_timeout :
    known small_env no_files [] (bytes "JWT_MFA_TIMEOUT_SECONDS") ≡ Option.map to_string none
unfolding find_cached resolve same ends_with starts_with
known_mfa_timeout = refl

get_service_configured_example :
    let secret = value_or (known small_env no_files [] (bytes "JWT_SECRET")) default_secret in
    (get_service small_env no_files none []).1 ≡ (
      if is_empty secret
      then none
      else some (record {
        secret = secret;
        timeout = setting (some (pos 60)) (pos 3600);
        mfa_timeout = setting none (pos 300);
      }))
get_service_configured_example =
    get_service_configured small_env no_files [] (some (pos 60)) none (omega arith) tt known_timeout
      known_mfa_timeout
