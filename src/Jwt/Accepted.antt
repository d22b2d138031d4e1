-- ===== src/Jwt/Accepted.antt =====
-- What a token that is accepted has.
use apiserver_asymetric_encr.Base.{
  ◌==◌, Option-cases, take, drop, ℤ, pos, ℕ, ◌+◌, ◌*◌, ◌≤◌, ◌≡◌, refl, sym, ap, ◌∙◌, subst, ◌⊎◌,
  inl, inr, true, Option, none, some, arith,
}
use apiserver_asymetric_encr.Text.{Bytes, bytes, same, find_if, find_last_if}
use apiserver_asymetric_encr.Jwt.{
  ErrorCode, Result, success, failure, Claims, find_in_claims, leading_number, nanos, from_time_t,
  is_past, base64url_decode, decode_claims_unvalidated, check_expiration, check_signature,
  validate_and_decode, is_valid,
}
use apiserver_asymetric_encr.Jwt.Clock.{IsOverflowing, not_past, time_or_overflow}
use apiserver_asymetric_encr.Text.Search.{same_iff}

-- The facts behind an accepted token: what its payload says, that the text before the last dot is
-- signed by the part behind it, and that the expiry has not passed.
pub record IsAccepted (encode_block : Bytes → Bytes) (read_base64 : Bytes → Option Bytes)
    (hmac : Bytes → Bytes → Bytes) (secret : Bytes) (get_map : Bytes → Option Claims) (now : ℕ)
    (token : Bytes) (claims : Claims) : Type 0 where
  pub last_dot : ℕ
  pub expiry_text : Bytes
  pub expiry : ℤ
  pub until : ℕ
  pub decoded :
      decode_claims_unvalidated encode_block read_base64 hmac secret get_map token ≡ success claims
  pub at_last_dot : find_last_if (λ c. c == b'.') token ≡ some last_dot
  pub signed :
      base64url_decode encode_block read_base64 (drop (last_dot + 1) token)
      ≡ some (hmac secret (take last_dot token))
  pub has_expiry : find_in_claims (bytes "exp") claims ≡ some expiry_text
  pub is_number : leading_number expiry_text ≡ some expiry
  pub in_ticks : from_time_t expiry ≡ pos until
  pub in_seconds :
      ((seconds : ℕ) × (expiry ≡ pos seconds) × (until ≡ seconds * nanos)) ⊎ IsOverflowing expiry
  pub not_expired : now ≤ until

Result-cases :
    {A : Type 0} (r : Result A) → ((a : A) × (r ≡ success a)) ⊎ ((e : ErrorCode) × (r ≡ failure e))
Result-cases (success a) = inl (a, refl)
Result-cases (failure e) = inr (e, refl)

module _ (encode_block : Bytes → Bytes) (read_base64 : Bytes → Option Bytes)
    (hmac : Bytes → Bytes → Bytes) (secret : Bytes) (get_map : Bytes → Option Claims) where
  decoded_dot :
      (token : Bytes) (claims : Claims)
      → decode_claims_unvalidated encode_block read_base64 hmac secret get_map token
        ≡ success claims
      → (d : ℕ) × (find_last_if (λ c. c == b'.') token ≡ some d)
  unfolding decode_claims_unvalidated
  decoded_dot token claims h = elim (Option-cases (find_if (λ c. c == b'.') token)) [
    | inl e ↦ absurd (ground arith)
    | inr (first, e) ↦ elim (Option-cases (find_last_if (λ c. c == b'.') token)) [
      | inl f ↦ absurd (ground arith)
      | inr (d, f) ↦ (d, f)
    ]
  ]

  signature_ok :
      (token : Bytes) (d : ℕ)
      → find_last_if (λ c. c == b'.') token ≡ some d
      → check_signature encode_block read_base64 hmac secret get_map token ≡ none
      → base64url_decode encode_block read_base64 (drop (d + 1) token)
        ≡ some (hmac secret (take d token))
  unfolding check_signature
  signature_ok token d e h =
      elim (Option-cases (base64url_decode encode_block read_base64 (drop (d + 1) token))) [
        | inl f ↦ absurd (ground arith)
        | inr (received, f) ↦
            let checked : same (hmac secret (take d token)) received ≡ true = ground arith in
            f ∙ ap some (sym ((same_iff (hmac secret (take d token)) received).0 checked))
      ]

  expiration_ok :
      (now : ℕ) (found claims : Claims)
      → check_expiration encode_block read_base64 hmac secret get_map now found ≡ success claims
      → (text : Bytes) × (exp : ℤ) × (until : ℕ) × (found ≡ claims)
        × (find_in_claims (bytes "exp") found ≡ some text)
        × (leading_number text ≡ some exp)
        × (from_time_t exp ≡ pos until)
        × (now ≤ until)
  unfolding check_expiration is_past
  expiration_ok now found claims h = elim (Option-cases (find_in_claims (bytes "exp") found)) [
    | inl e ↦ absurd (ground arith)
    | inr (text, e) ↦ elim (Option-cases (leading_number text)) [
      | inl f ↦ absurd (ground arith)
      | inr (exp, f) ↦
          let (until, at, young) = not_past now (from_time_t exp) (ground arith) in
          (text, exp, until, ground arith, e, f, at, young)
    ]
  ]

  -- A token that is accepted has claims that its payload decodes to, a part behind the last dot
  -- that decodes to the HMAC of the text before it, and an expiry claim that starts with a number
  -- whose time, in the 64-bit nanoseconds of the clock, is not before now; that time is the number
  -- of seconds, unless the nanoseconds of the number do not fit 64 bits.
  pub is_valid-IsAccepted :
      (now : ℕ) (token : Bytes) (claims : Claims)
      → is_valid encode_block read_base64 hmac secret get_map now token ≡ success claims
      → IsAccepted encode_block read_base64 hmac secret get_map now token claims
  unfolding is_valid validate_and_decode
  is_valid-IsAccepted now token claims h =
      elim (Result-cases
        (decode_claims_unvalidated encode_block read_base64 hmac secret get_map token)) [
          | inr (e, f) ↦ absurd (ground arith)
          | inl (found, f) ↦
              elim (Option-cases
                (check_signature encode_block read_base64 hmac secret get_map token)) [
                  | inr (e, g) ↦ absurd (ground arith)
                  | inl g ↦
                      let checked : check_expiration encode_block read_base64 hmac secret get_map
                            now found
                          ≡ success claims =
                        ground arith in
                      let (text, exp, until, same_claims, at, num, ticks, young) =
                        expiration_ok now found claims checked in
                      let (d, e) = decoded_dot token found f in
                      record {
                        last_dot = d;
                        expiry_text = text;
                        expiry = exp;
                        until = until;
                        decoded = f ∙ ap success same_claims;
                        at_last_dot = e;
                        signed = signature_ok token d e g;
                        has_expiry =
                            subst (λ c. find_in_claims (bytes "exp") c ≡ some text) same_claims at;
                        is_number = num;
                        in_ticks = ticks;
                        in_seconds = time_or_overflow exp until ticks;
                        not_expired = young;
                      }
                ]
        ]
