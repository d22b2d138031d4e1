-- ===== src/Otp/Window.antt =====
-- Which tokens are valid.
use apiserver_asymetric_encr.Base.{
  ltb, leb, ◌==◌, if◌then◌else◌, ltb→lt, Bool-cases, Option-cases, length, is_empty, is_empty_of_lt,
  ℕ, zero, suc, ◌+◌, ◌-◌, ◌/◌, ◌≤◌, ◌<◌, ◌≡◌, refl, sym, ap, ◌∙◌, ◌≢◌, ◌↔◌, ◌⊎◌, inl, inr, false,
  not, ◌&&◌, Option, none, some, arith,
}
use apiserver_asymetric_encr.Text.{Bytes, same}
use apiserver_asymetric_encr.Text.Search.{same_iff}
use apiserver_asymetric_encr.Otp.{
  decode_base32, counter_be, generate_hotp, valid, check_steps, is_valid_token,
}

-- The loop finds a step in its range whose password is the token.
check_steps_found :
    (hotp : ℕ → Option Bytes) (token : Bytes) (step count : ℕ)
    → check_steps hotp token step count ≡ valid
    → (k : ℕ) × (step ≤ k) × (k < step + count) × (hotp k ≡ some token)
unfolding check_steps
check_steps_found hotp token step zero h = absurd (ground arith)
check_steps_found hotp token step (suc count) h = elim (Option-cases (hotp step)) [
  | inl e ↦ absurd (ground arith)
  | inr (generated, e) ↦ elim (Bool-cases (same generated token)) [
    | inl f ↦ (step, omega arith, omega arith, e ∙ ap some ((same_iff generated token).0 f))
    | inr f ↦
        let (k, low, high, here) = check_steps_found hotp token (suc step) count (ground arith) in
        (k, omega arith, omega arith, here)
  ]
]

later_step :
    (hotp : ℕ → Option Bytes) (token : Bytes) (step k : ℕ) (generated : Bytes)
    → hotp step ≡ some generated
    → same generated token ≡ false
    → hotp k ≡ some token
    → step ≤ k
    → suc step ≤ k
later_step hotp token step k generated e f here low = elim (Bool-cases (ltb step k)) [
  | inl before ↦ ltb→lt step k before
  | inr not_before ↦
      let at_k : step ≡ k = ground arith in
      let equal : Path (Option Bytes) (some generated) (some token) = sym e ∙ ap hotp at_k ∙ here in
      let same_text : generated ≡ token = ground arith in
      absurd (ground (arith, (same_iff generated token).1 same_text))
]

-- When no step fails, a password of the range is found.
check_steps_finds :
    (hotp : ℕ → Option Bytes) (token : Bytes) (step count k : ℕ)
    → ((i : ℕ) → hotp i ≢ none)
    → step ≤ k
    → k < step + count
    → hotp k ≡ some token
    → check_steps hotp token step count ≡ valid
unfolding check_steps
check_steps_finds hotp token step zero k total low high here = absurd (omega arith)
check_steps_finds hotp token step (suc count) k total low high here =
    elim (Option-cases (hotp step)) [
      | inl e ↦ absurd (total step e)
      | inr (generated, e) ↦ elim (Bool-cases (same generated token)) [
        | inl f ↦ rw (e, check_steps) (rw f refl)
        | inr f ↦
            rw (e, check_steps)
              (rw f (
                check_steps_finds hotp token (suc step) count k total
                  (later_step hotp token step k generated e f here low) (omega arith) here))
      ]
    ]

first_step : ℕ → ℕ → ℕ
first_step current window = if leb window current then current - window else 0

first_step_le :
    (current window step : ℕ) → current ≤ step + window → first_step current window ≤ step
unfolding first_step
first_step_le current window step h = ground arith

first_step_low :
    (current window step : ℕ) → first_step current window ≤ step → current ≤ step + window
unfolding first_step
first_step_low current window step h = ground arith

first_step_bound : (current window : ℕ) → first_step current window ≤ current + window
unfolding first_step
first_step_bound current window = ground arith

generate_hotp_total :
    (hmac_sha1 : Bytes → Bytes → Option Bytes) (key : Bytes) (step digits : ℕ)
    → ((k d : Bytes) → hmac_sha1 k d ≢ none)
    → generate_hotp hmac_sha1 key step digits ≢ none
unfolding generate_hotp
generate_hotp_total hmac_sha1 key step digits total h =
    elim (Option-cases (hmac_sha1 key (counter_be step))) [
      | inl e ↦ total key (counter_be step) e
      | inr (hash, e) ↦ absurd (ground arith)
    ]

module _ (hmac_sha1 : Bytes → Bytes → Option Bytes) (now seconds window : ℕ)
    (token secretb32 : Bytes) where
  is_valid_token_sized :
      (secret : Bytes)
      → (length token ≡ 6) ⊎ (length token ≡ 8)
      → is_empty secretb32 ≡ false
      → decode_base32 secretb32 ≡ some secret
      → is_valid_token hmac_sha1 now seconds window token secretb32
        ≡ check_steps
            (λ k. generate_hotp hmac_sha1 secret k (length token))
            token
            (first_step (now / seconds) window)
            (now / seconds + window + 1 - first_step (now / seconds) window)
  unfolding is_valid_token first_step
  is_valid_token_sized secret sized given decoded =
      let some_token : is_empty token ≡ false = is_empty_of_lt token (ground arith) in
      let fits : (not (length token == 6) && not (length token == 8)) ≡ false = ground arith in
      rw (some_token, given, fits) (rw decoded refl)

  valid_parts :
      is_valid_token hmac_sha1 now seconds window token secretb32 ≡ valid
      → ((length token ≡ 6) ⊎ (length token ≡ 8))
        × (is_empty secretb32 ≡ false)
        × ((secret : Bytes) × (step : ℕ) × (decode_base32 secretb32 ≡ some secret)
            × (now / seconds ≤ step + window)
            × (step ≤ now / seconds + window)
            × (generate_hotp hmac_sha1 secret step (length token) ≡ some token))
  unfolding is_valid_token
  valid_parts h = elim (Option-cases (decode_base32 secretb32)) [
    | inl e ↦ absurd (ground arith)
    | inr (secret, e) ↦
        let sized : (length token ≡ 6) ⊎ (length token ≡ 8) = ground arith in
        let given : is_empty secretb32 ≡ false = ground arith in
        let (step, low, high, here) =
          check_steps_found (λ k. generate_hotp hmac_sha1 secret k (length token)) token
            (first_step (now / seconds) window)
            (now / seconds + window + 1 - first_step (now / seconds) window)
            (sym (is_valid_token_sized secret sized given e) ∙ h) in
        (
          sized,
          given,
          (
            secret,
            step,
            e,
            first_step_low (now / seconds) window step low,
            omega (arith, first_step_bound (now / seconds) window),
            here,
          ),
        )
  ]

-- With HMAC available, a one-time password is valid exactly when it has 6 or 8 characters, the
-- secret is there and decodes, and it is the password of a step that is at most `window` steps away
-- from now.
pub is_valid_token_iff :
    (hmac_sha1 : Bytes → Bytes → Option Bytes) (now seconds window : ℕ) (token secretb32 : Bytes)
    → ((key data_ : Bytes) → hmac_sha1 key data_ ≢ none)
    → (is_valid_token hmac_sha1 now seconds window token secretb32 ≡ valid) ↔ (
        ((length token ≡ 6) ⊎ (length token ≡ 8))
        × (is_empty secretb32 ≡ false)
        × ((secret : Bytes) × (step : ℕ) × (decode_base32 secretb32 ≡ some secret)
            × (now / seconds ≤ step + window)
            × (step ≤ now / seconds + window)
            × (generate_hotp hmac_sha1 secret step (length token) ≡ some token)))
is_valid_token_iff hmac_sha1 now seconds window token secretb32 total = (
  λ h. valid_parts hmac_sha1 now seconds window token secretb32 h,
  λ (sized, given, (secret, step, decoded, low, high, here)).
      is_valid_token_sized hmac_sha1 now seconds window token secretb32 secret sized given decoded
      ∙ check_steps_finds (λ k. generate_hotp hmac_sha1 secret k (length token)) token
          (first_step (now / seconds) window)
          (now / seconds + window + 1 - first_step (now / seconds) window) step
          (λ k. generate_hotp_total hmac_sha1 secret k (length token) total)
          (first_step_le (now / seconds) window step low)
          (omega (arith, first_step_bound (now / seconds) window)) here,
)
