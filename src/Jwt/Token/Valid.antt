-- ===== src/Jwt/Token/Valid.antt =====
-- A token that `get_token` of src/jwt.cpp issues is one that `is_valid` reads back, until it expires.
use mathlib.Core.List.{append_assoc}
use apiserver_asymetric_encr.Base.{
  ltb, ◌==◌, if◌then◌else◌, length, All, length-append, take-length_self, ℤ, pos, ℕ, ◌+◌, ◌-◌, ◌*◌,
  ◌/◌, ◌^◌, ◌≤◌, ◌<◌, ◌≡◌, refl, sym, ap, ◌∙◌, subst, Bool, false, Option, none, some, ◌∷◌, ◌++◌,
  arith,
}
use apiserver_asymetric_encr.Text.{Bytes, bytes, same, find_if, find_last_if, substr}
use apiserver_asymetric_encr.Text.Marks.{find_if-append, drop_behind, find_last_if-append}
use apiserver_asymetric_encr.Text.Search.{same_iff}
use apiserver_asymetric_encr.Jwt.{
  token_expired, Result, success, failure, Claims, find_in_claims, nanos, is_past, base64url_encode,
  sign, decode_payload, decode_claims_unvalidated, check_expiration, check_signature,
  validate_and_decode, is_valid, get_claims,
}
use apiserver_asymetric_encr.Jwt.Clock.{from_time_t_small, add_seconds_small}
use apiserver_asymetric_encr.Jwt.Token.Stamps.{stamped_exp, stamped_other, leading_number-decimal}
use apiserver_asymetric_encr.Jwt.Token.Url.{
  IsByteText, IsBase64, base64url_encode_dots, base64url_decode-base64url_encode,
}
use apiserver_asymetric_encr.Text.Numbers.{decimal, to_string}
use apiserver_asymetric_encr.Jwt.Token.{
  add_seconds, token_duration, stamp_claims, header_text, signing_input, get_token,
}

abbrev dots : ℕ → Bool
dots c = c == b'.'

-- Three parts without dots.
first_dot :
    (h p t : Bytes)
    → All (λ c. dots c ≡ false) h
    → find_if dots ((h ++ (b'.' ∷ p)) ++ (b'.' ∷ t)) ≡ some (length h)
first_dot h p t plain =
    rw (append_assoc h (b'.' ∷ p) (b'.' ∷ t))
      (find_if-append dots h (p ++ (b'.' ∷ t)) b'.' plain refl)

last_dot :
    (s t : Bytes)
    → All (λ c. dots c ≡ false) t
    → find_last_if dots (s ++ (b'.' ∷ t)) ≡ some (length s)
last_dot s t plain = find_last_if-append dots s t b'.' plain refl

middle_part :
    (h p t : Bytes)
    → substr
        ((h ++ (b'.' ∷ p)) ++ (b'.' ∷ t))
        (length h + 1)
        (length (h ++ (b'.' ∷ p)) - length h - 1)
      ≡ p
middle_part h p t =
    let width : length (h ++ (b'.' ∷ p)) - length h - 1 ≡ length p =
      omega (arith, length-append h (b'.' ∷ p)) in
    rw (append_assoc h (b'.' ∷ p) (b'.' ∷ t), width)
      (rw (drop_behind h b'.' (p ++ (b'.' ∷ t))) (take-length_self p (b'.' ∷ t)))

module _ (encode_block : Bytes → Bytes) (read_base64 : Bytes → Option Bytes)
    (base64 : IsBase64 encode_block read_base64) (hmac : Bytes → Bytes → Bytes) (secret : Bytes)
    (digest : (data_ : Bytes) → IsByteText (hmac secret data_))
    (get_map : Bytes → Option Claims) where
  encoded : Bytes → Bytes
  encoded s = base64url_encode encode_block read_base64 s

  -- A token of three parts, the last of which signs the others.
  signed_token : Bytes → Bytes → Bytes
  signed_token header payload =
      (encoded header ++ (b'.' ∷ encoded payload))
      ++ (b'.' ∷ encoded (hmac secret (encoded header ++ (b'.' ∷ encoded payload))))

  claims_of-signed_token :
      (header payload : Bytes) (read : Claims)
      → IsByteText payload
      → get_map payload ≡ some read
      → decode_claims_unvalidated encode_block read_base64 hmac secret get_map
          (signed_token header payload)
        ≡ success read
  unfolding decode_claims_unvalidated decode_payload signed_token encoded
  claims_of-signed_token header payload read text reads =
      let h = encoded header in
      let p = encoded payload in
      let t = encoded (hmac secret (h ++ (b'.' ∷ p))) in
      let apart : (length (h ++ (b'.' ∷ p)) == length h) ≡ false =
        ground (arith, length-append h (b'.' ∷ p)) in
      rw
        (
          first_dot h p t (base64url_encode_dots encode_block read_base64 base64 header),
          decode_claims_unvalidated,
        )
        (rw
          (last_dot (h ++ (b'.' ∷ p)) t
            (base64url_encode_dots encode_block read_base64 base64 (hmac secret (h ++ (b'.' ∷ p)))))
          (rw apart (
            rw (middle_part h p t, decode_payload)
              (rw (base64url_decode-base64url_encode encode_block read_base64 base64 payload text)
                (rw reads refl)))))

  signature_of-signed_token :
      (header payload : Bytes)
      → check_signature encode_block read_base64 hmac secret get_map (signed_token header payload)
        ≡ none
  unfolding check_signature signed_token encoded
  signature_of-signed_token header payload =
      let s = encoded header ++ (b'.' ∷ encoded payload) in
      let t = encoded (hmac secret s) in
      let at : find_last_if dots (s ++ (b'.' ∷ t)) ≡ some (length s) =
        last_dot s t (base64url_encode_dots encode_block read_base64 base64 (hmac secret s)) in
      rw (at, check_signature)
        (rw (drop_behind s b'.' t) (
          rw
            (base64url_decode-base64url_encode encode_block read_base64 base64 (hmac secret s)
              (digest s))
            (rw at (
              rw (take-length_self s (b'.' ∷ t))
                (rw ((same_iff (hmac secret s) (hmac secret s)).1 refl) refl)))))

  expiration_of :
      (later expiry : ℕ) (read : Claims)
      → find_in_claims (bytes "exp") read ≡ some (decimal expiry)
      → expiry ≤ 9223372036
      → check_expiration encode_block read_base64 hmac secret get_map later read
        ≡ (if ltb (expiry * nanos) later then failure token_expired else success read)
  unfolding check_expiration is_past
  expiration_of later expiry read found small =
      rw (found, check_expiration)
        (rw (leading_number-decimal expiry (omega arith))
          (rw (from_time_t_small expiry small) refl))

  is_valid-signed_token :
      (header payload : Bytes) (later expiry : ℕ) (read : Claims)
      → IsByteText payload
      → get_map payload ≡ some read
      → find_in_claims (bytes "exp") read ≡ some (decimal expiry)
      → expiry ≤ 9223372036
      → is_valid encode_block read_base64 hmac secret get_map later (signed_token header payload)
        ≡ (if ltb (expiry * nanos) later then failure token_expired else success read)
  unfolding is_valid validate_and_decode
  is_valid-signed_token header payload later expiry read text reads found small =
      rw (claims_of-signed_token header payload read text reads, validate_and_decode)
        (rw (signature_of-signed_token header payload)
          (expiration_of later expiry read found small))

module _ (encode_block : Bytes → Bytes) (read_base64 : Bytes → Option Bytes)
    (base64 : IsBase64 encode_block read_base64) (hmac : Bytes → Bytes → Bytes) (secret : Bytes)
    (digest : (data_ : Bytes) → IsByteText (hmac secret data_)) (get_map : Bytes → Option Claims)
    (build : Claims → Option Bytes) (timeout mfa_timeout : ℤ) where
  get_token-signed_token :
      (now : ℕ) (claims : Claims) (payload : Bytes)
      → build (stamp_claims timeout mfa_timeout now claims) ≡ some payload
      → get_token encode_block read_base64 hmac secret build timeout mfa_timeout now claims
        ≡ success (
            signed_token encode_block read_base64 base64 hmac secret digest get_map header_text
              payload)
  unfolding get_token signing_input sign signed_token encoded
  get_token-signed_token now claims payload builds = rw (builds, get_token) refl

  -- A token that the service has issued, for a lifetime that is not negative and whose end fits the
  -- 64-bit nanoseconds of the clock, is accepted by the same service as long as the clock is not
  -- past the expiry, which is the lifetime behind the second it was issued in, with the claims it
  -- was issued for and the two stamps, and refused as expired from then on; the stamps change no
  -- other claim. Base64 and HMAC-SHA256 are OpenSSL's, of which the shape of the text and the round
  -- trip are assumed, and json-c reads back what it built.
  pub is_valid-get_token :
      (now later seconds : ℕ) (claims read : Claims) (payload : Bytes)
      → IsByteText payload
      → build (stamp_claims timeout mfa_timeout now claims) ≡ some payload
      → get_map payload ≡ some read
      → ((key : Bytes)
          → find_in_claims key read
            ≡ find_in_claims key (stamp_claims timeout mfa_timeout now claims))
      → token_duration timeout mfa_timeout claims ≡ pos seconds
      → now + seconds * nanos < 2 ^ 63
      → ((token : Bytes) × (get_token encode_block read_base64 hmac secret build timeout mfa_timeout
              now claims
            ≡ success token)
          × (is_valid encode_block read_base64 hmac secret get_map later token ≡ (
              if ltb ((now / nanos + seconds) * nanos) later
              then failure token_expired
              else success read)))
        × ((key : Bytes)
            → same (bytes "exp") key ≡ false
            → same (bytes "iat") key ≡ false
            → find_in_claims key read ≡ find_in_claims key claims)
  unfolding to_string
  is_valid-get_token now later seconds claims read payload text builds reads faithful lasts small =
      (
        (
          signed_token encode_block read_base64 base64 hmac secret digest get_map header_text
              payload,
          get_token-signed_token now claims payload builds,
          is_valid-signed_token encode_block read_base64 base64 hmac secret digest get_map
              header_text payload later (now / nanos + seconds) read text reads
              (faithful (bytes "exp")
                ∙ stamped_exp timeout mfa_timeout now claims
                ∙ ap (λ d. some (to_string (add_seconds now d))) lasts
                ∙ ap (λ e. some (to_string e)) (add_seconds_small now seconds small))
              (omega arith),
        ),
        λ key h k. faithful key ∙ stamped_other timeout mfa_timeout now claims key h k,
      )

  pub get_claims-get_token :
      (now : ℕ) (claims read : Claims) (payload token : Bytes)
      → IsByteText payload
      → build (stamp_claims timeout mfa_timeout now claims) ≡ some payload
      → get_map payload ≡ some read
      → get_token encode_block read_base64 hmac secret build timeout mfa_timeout now claims
        ≡ success token
      → get_claims encode_block read_base64 hmac secret get_map token ≡ success read
  unfolding get_claims
  get_claims-get_token now claims read payload token text builds reads issued =
      let made : Path (Result Bytes)
          (success (
            signed_token encode_block read_base64 base64 hmac secret digest get_map header_text
              payload))
          (success token) =
        sym (get_token-signed_token now claims payload builds) ∙ issued in
      subst (λ t. get_claims encode_block read_base64 hmac secret get_map t ≡ success read)
        (success_inj made)
        (claims_of-signed_token encode_block read_base64 base64 hmac secret digest get_map
          header_text payload read text reads)
    where
      success_inj : {a b : Bytes} → Path (Result Bytes) (success a) (success b) → a ≡ b
      success_inj e = cc
