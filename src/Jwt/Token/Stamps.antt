-- ===== src/Jwt/Token/Stamps.antt =====
-- The claims of a token that `get_token` of src/jwt.cpp issues.
use apiserver_asymetric_encr.Base.{
  ltb, ◌==◌, Bool-cases, ℤ, pos, ℕ, ◌^◌, ◌<◌, ◌≡◌, refl, ◌∙◌, inl, inr, true, false, some, [], ◌∷◌,
  arith,
}
use apiserver_asymetric_encr.Text.{Bytes, bytes, same, starts_with}
use apiserver_asymetric_encr.Text.Search.{same_iff}
use apiserver_asymetric_encr.Text.Numbers.{decimal, to_string, from_chars_size-decimal}
use apiserver_asymetric_encr.Jwt.{Claims, find_in_claims, leading_number}
use apiserver_asymetric_encr.Jwt.Token.{less, set_claim, add_seconds, token_duration, stamp_claims}

same_refl : (s : Bytes) → same s s ≡ true
same_refl s = (same_iff s s).1 refl

pub find_in_claims-set_claim :
    (key value : Bytes) (claims : Claims)
    → find_in_claims key (set_claim key value claims) ≡ some value
unfolding find_in_claims set_claim
find_in_claims-set_claim key value [] = rw (same_refl key) refl
find_in_claims-set_claim key value ((k, v) ∷ rest) = elim (Bool-cases (same k key)) [
  | inl here ↦ rw here (rw here refl)
  | inr other ↦ rw other (elim (Bool-cases (less key k)) [
    | inl before ↦ rw before (rw (same_refl key) refl)
    | inr behind ↦ rw behind (rw other (find_in_claims-set_claim key value rest))
  ])
]

pub find_in_claims-set_claim_other :
    (j key value : Bytes) (claims : Claims)
    → same key j ≡ false
    → find_in_claims j (set_claim key value claims) ≡ find_in_claims j claims
unfolding find_in_claims set_claim
find_in_claims-set_claim_other j key value [] h = rw h refl
find_in_claims-set_claim_other j key value ((k, v) ∷ rest) h = elim (Bool-cases (same k key)) [
  | inl here ↦
      let e : k ≡ key = (same_iff k key).0 here in
      let miss : same k j ≡ false = rw e h in rw here (rw miss refl)
  | inr other ↦ rw other (elim (Bool-cases (less key k)) [
    | inl before ↦ rw before (rw h refl)
    | inr behind ↦ rw behind (elim (Bool-cases (same k j)) [
      | inl hit ↦ rw hit refl
      | inr miss ↦ rw miss (find_in_claims-set_claim_other j key value rest h)
    ])
  ])
]

-- The stamped claims are the claims with the two times.
pub stamped_exp :
    (timeout mfa_timeout : ℤ) (now : ℕ) (claims : Claims)
    → find_in_claims (bytes "exp") (stamp_claims timeout mfa_timeout now claims)
      ≡ some (to_string (add_seconds now (token_duration timeout mfa_timeout claims)))
unfolding stamp_claims
stamped_exp timeout mfa_timeout now claims = find_in_claims-set_claim (bytes "exp") _ _

pub stamped_other :
    (timeout mfa_timeout : ℤ) (now : ℕ) (claims : Claims) (key : Bytes)
    → same (bytes "exp") key ≡ false
    → same (bytes "iat") key ≡ false
    → find_in_claims key (stamp_claims timeout mfa_timeout now claims) ≡ find_in_claims key claims
unfolding stamp_claims
stamped_other timeout mfa_timeout now claims key h k =
    find_in_claims-set_claim_other key (bytes "exp") _ _ h
    ∙ find_in_claims-set_claim_other key (bytes "iat") _ claims k

-- A time that is not negative and fits 63 bits is read back.
pub leading_number-decimal : (n : ℕ) → n < 2 ^ 63 → leading_number (decimal n) ≡ some (pos n)
unfolding leading_number starts_with
leading_number-decimal n h =
    let (whole, (d, rest, e, is)) = from_chars_size-decimal n (omega arith) in
    let no_sign : (d == b'-') ≡ false = ground arith in
    let plain : starts_with (decimal n) (bytes "-") ≡ false = rw e (rw no_sign refl) in
    let small : ltb n (2 ^ 63) ≡ true = ground arith in rw (plain, whole) (rw small refl)
