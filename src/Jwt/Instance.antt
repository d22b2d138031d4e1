-- ===== src/Jwt/Instance.antt =====
-- The instance of the service that the public functions of src/jwt.cpp share: `get_service`. It is made
-- at the first call, from the settings of src/env.hpp as the calling thread reads them; a call whose
-- making throws leaves none, and the next call makes it again.
use apiserver_asymetric_encr.Base.{pos, Option, none, some}
use apiserver_asymetric_encr.Text.{Bytes, bytes}
use apiserver_asymetric_encr.Jwt.{Service, new_service}
use apiserver_asymetric_encr.Env.{convert_signed, long_limit, Settings, get_with_fallback}

abbrev pub default_secret : Bytes
default_secret = bytes "a-secure-secret-key-that-is-at-least-32-bytes-long"

module _ (getenv : Bytes → Option Bytes) (decrypt : Bytes → Option Bytes) where
  -- The thread's cache of settings, and the service; `none` where the constructor throws.
  unfoldable pub make_service : Settings → Settings × Option Service
  make_service cache =
      let (cache1, secret) =
        get_with_fallback getenv decrypt some (bytes "JWT_SECRET") default_secret cache in
      let (cache2, timeout) =
        get_with_fallback getenv decrypt (convert_signed long_limit) (bytes "JWT_TIMEOUT_SECONDS")
          (pos 3600) cache1 in
      let (cache3, mfa_timeout) =
        get_with_fallback getenv decrypt (convert_signed long_limit)
          (bytes "JWT_MFA_TIMEOUT_SECONDS") (pos 300) cache2 in
      (cache3, new_service secret timeout mfa_timeout)

  -- What is returned is also what `g_jwt_service` holds afterwards.
  unfoldable pub get_service : Option Service → Settings → Settings × Option Service
  get_service (some service) cache = (cache, some service)
  get_service none cache = make_service cache
