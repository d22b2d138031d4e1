-- ===== src/Jwt/Configured.antt =====
-- The settings that the service of src/jwt.cpp starts with, as the texts of src/env.hpp say them.
use apiserver_asymetric_encr.Base.{
  if◌then◌else◌, value_or, is_empty, Option-cases, Bool, true, ℤ, pos, ◌≡◌, refl, ap, ◌∙◌, inl, inr,
  false, Option, none, some,
}
use mathlib.Core.Option
use apiserver_asymetric_encr.Text.{Bytes, bytes, same}
use apiserver_asymetric_encr.Text.Numbers.{to_string}
use apiserver_asymetric_encr.Env.{
  long_limit, convert_signed, Settings, find_cached, resolve, fetch_string, get, get_with_fallback,
}
use apiserver_asymetric_encr.Env.Numbers.{in_range, Fits, convert_signed-to_string}
use apiserver_asymetric_encr.Jwt.{new_service}
use apiserver_asymetric_encr.Jwt.Instance.{default_secret, make_service, get_service}

-- A setting that is a number, or is not there.
abbrev pub FitsSetting : Option ℤ → Type 0
FitsSetting none = Unit
FitsSetting (some v) = Fits v

-- The number where a `long` holds it, otherwise the default.
abbrev pub setting : Option ℤ → ℤ → ℤ
setting none fallback = fallback
setting (some v) fallback = if in_range long_limit v then v else fallback

module _ (getenv : Bytes → Option Bytes) (decrypt : Bytes → Option Bytes) where
  -- The text that the thread has for a key: the one in its cache before that of the environment.
  abbrev pub known : Settings → Bytes → Option Bytes
  known cache key = elim (find_cached key cache) [
    | some v ↦ some v
    | none ↦ resolve getenv decrypt key
  ]

  fetched_text :
      (key : Bytes) (cache : Settings) → (fetch_string getenv decrypt key cache).1 ≡ known cache key
  unfolding fetch_string
  fetched_text key cache = elim (Option-cases (find_cached key cache)) [
    | inr (v, e) ↦ rw (e, fetch_string, known) refl
    | inl e ↦
        rw (e, fetch_string, known)
          (elim (Option-cases (resolve getenv decrypt key)) [
            | inl f ↦ rw f refl
            | inr (v, f) ↦ rw f refl
          ])
  ]

  -- Reading one setting leaves what is known of another.
  other_text :
      (key j : Bytes) (cache : Settings)
      → same key j ≡ false
      → known (fetch_string getenv decrypt key cache).0 j ≡ known cache j
  unfolding fetch_string find_cached
  other_text key j cache h = elim (Option-cases (find_cached key cache)) [
    | inr (v, e) ↦ rw (e, fetch_string) refl
    | inl e ↦
        rw (e, fetch_string)
          (elim (Option-cases (resolve getenv decrypt key)) [
            | inl f ↦ rw f refl
            | inr (v, f) ↦ rw f (rw (h, known) refl)
          ])
  ]

  -- A number that is read with a default.
  number_of :
      (key : Bytes) (cache : Settings) (v : Option ℤ) (fallback : ℤ)
      → FitsSetting v
      → known cache key ≡ Option.map to_string v
      → (get_with_fallback getenv decrypt (convert_signed long_limit) key fallback cache).1
        ≡ setting v fallback
  unfolding get_with_fallback get
  number_of key cache v fallback fits e =
      ap (λ o. value_or (converted o) fallback) (fetched_text key cache ∙ e) ∙ of_text v fits
    where
      converted : Option Bytes → Option ℤ
      converted o = elim o [ none ↦ none | some s ↦ convert_signed long_limit s ]

      kept :
          (b : Bool) (n : ℤ)
          → value_or (if b then some n else none) fallback ≡ (if b then n else fallback)
      kept true n = refl
      kept false n = refl

      of_text :
          (v : Option ℤ)
          → FitsSetting v
          → value_or (converted (Option.map to_string v)) fallback ≡ setting v fallback
      of_text none h = refl
      of_text (some n) h =
          ap (λ o. value_or o fallback) (convert_signed-to_string long_limit n h)
          ∙ kept (in_range long_limit n) n

  -- A text that is read with a default.
  text_of :
      (key : Bytes) (cache : Settings) (fallback : Bytes)
      → (get_with_fallback getenv decrypt some key fallback cache).1
        ≡ value_or (known cache key) fallback
  unfolding get_with_fallback get
  text_of key cache fallback =
      same_option ((fetch_string getenv decrypt key cache).1)
      ∙ ap (λ o. value_or o fallback) (fetched_text key cache)
    where
      same_option :
          (o : Option Bytes)
          → value_or (elim o [ none ↦ none | some v ↦ some v ]) fallback ≡ value_or o fallback
      same_option none = refl
      same_option (some v) = refl

  -- The first service has the secret that JWT_SECRET gives, or the one in the source where it is
  -- not set, and there is none where that secret is empty; its two lifetimes are the numbers that
  -- their own settings spell, where a `long` holds them, and otherwise an hour and five minutes.
  -- This is so whatever the thread has read before, for settings that are absent or the decimal
  -- text of a number below 2 ^ 64 in size.
  pub get_service_configured :
      (cache : Settings) (timeout mfa_timeout : Option ℤ)
      → FitsSetting timeout
      → FitsSetting mfa_timeout
      → known cache (bytes "JWT_TIMEOUT_SECONDS") ≡ Option.map to_string timeout
      → known cache (bytes "JWT_MFA_TIMEOUT_SECONDS") ≡ Option.map to_string mfa_timeout
      → let secret = value_or (known cache (bytes "JWT_SECRET")) default_secret in
        (get_service getenv decrypt none cache).1 ≡ (
          if is_empty secret
          then none
          else some (record {
            secret = secret;
            timeout = setting timeout (pos 3600);
            mfa_timeout = setting mfa_timeout (pos 300);
          }))
  unfolding get_service make_service new_service get_with_fallback get same
  get_service_configured cache timeout mfa_timeout fits mfa_fits e f =
      let cache1 = (fetch_string getenv decrypt (bytes "JWT_SECRET") cache).0 in
      let cache2 = (fetch_string getenv decrypt (bytes "JWT_TIMEOUT_SECONDS") cache1).0 in
      let at_first = other_text (bytes "JWT_SECRET") (bytes "JWT_TIMEOUT_SECONDS") cache refl in
      let at_last = other_text (bytes "JWT_SECRET") (bytes "JWT_MFA_TIMEOUT_SECONDS") cache refl in
      let behind_first =
        other_text (bytes "JWT_TIMEOUT_SECONDS") (bytes "JWT_MFA_TIMEOUT_SECONDS") cache1 refl in
      let secret = text_of (bytes "JWT_SECRET") cache default_secret in
      let lasts =
        number_of (bytes "JWT_TIMEOUT_SECONDS") cache1 timeout (pos 3600) fits (at_first ∙ e) in
      let mfa_lasts =
        number_of (bytes "JWT_MFA_TIMEOUT_SECONDS") cache2 mfa_timeout (pos 300) mfa_fits
          (behind_first ∙ at_last ∙ f) in
      λ i. new_service (secret i) (lasts i) (mfa_lasts i)
