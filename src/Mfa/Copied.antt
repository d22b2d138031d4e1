-- ===== src/Mfa/Copied.antt =====
-- Which claims `generate_post_auth_token` of src/mfa.hpp copies.
use apiserver_asymetric_encr.Base.{
  if◌then◌else◌, Bool-cases, Option-cases, ◌≡◌, refl, ap, ◌∙◌, subst, inl, inr, false, ◌||◌, Option,
  none, some, List, [], ◌∷◌, arith,
}
use apiserver_asymetric_encr.Text.{Bytes, same}
use apiserver_asymetric_encr.Text.Search.{same_iff}
use apiserver_asymetric_encr.Jwt.{Claims, find_in_claims}
use apiserver_asymetric_encr.Jwt.Token.{set_claim}
use apiserver_asymetric_encr.Jwt.Token.Stamps.{
  find_in_claims-set_claim, find_in_claims-set_claim_other,
}
use apiserver_asymetric_encr.Server.Authorize.{contains}
use apiserver_asymetric_encr.Mfa.{emplace_claim, copy_claims}

abbrev pub or_else {ℓ} : {A : Type ℓ} → Option A → Option A → Option A
or_else (some a) d = some a
or_else none d = d

find-emplace_claim :
    (j key v : Bytes) (claims : Claims)
    → find_in_claims j (emplace_claim key v claims)
      ≡ or_else (find_in_claims j claims) (if same key j then some v else none)
unfolding emplace_claim
find-emplace_claim j key v claims = elim (Option-cases (find_in_claims key claims)) [
  | inr (old, e) ↦
      rw (e, emplace_claim)
        (elim (Option-cases (find_in_claims j claims)) [
          | inr (o, f) ↦ rw f refl
          | inl f ↦ let other : same key j ≡ false = apart old e f in rw f (rw other refl)
        ])
  | inl e ↦
      rw (e, emplace_claim)
        (elim (Bool-cases (same key j)) [
          | inl here ↦ rw here (at_key e ((same_iff key j).0 here))
          | inr other ↦ rw other (
              find_in_claims-set_claim_other j key v claims other ∙ plain (find_in_claims j claims))
        ])
]
  where
    apart :
        (old : Bytes)
        → find_in_claims key claims ≡ some old
        → find_in_claims j claims ≡ none
        → same key j ≡ false
    apart old e f = elim (Bool-cases (same key j)) [
      | inl here ↦
          absurd (ground (arith, ap (λ k. find_in_claims k claims) ((same_iff key j).0 here)))
      | inr other ↦ other
    ]

    at_key :
        find_in_claims key claims ≡ none
        → key ≡ j
        → find_in_claims j (set_claim key v claims) ≡ or_else (find_in_claims j claims) (some v)
    at_key e k =
        let missing : find_in_claims j claims ≡ none =
          subst (λ k. find_in_claims k claims ≡ none) k e in
        subst (λ k. find_in_claims k (set_claim key v claims) ≡ some v) k
          (find_in_claims-set_claim key v claims)
        ∙ rw missing refl

    plain : (o : Option Bytes) → o ≡ or_else o none
    plain (some a) = refl
    plain none = refl

-- The keys that are listed, and nothing else.
pub find-copy_claims :
    (j : Bytes) (keys : List Bytes) (claims new_claims : Claims)
    → find_in_claims j (copy_claims keys claims new_claims)
      ≡ or_else
          (find_in_claims j new_claims)
          (if contains keys j then find_in_claims j claims else none)
unfolding copy_claims contains
find-copy_claims j [] claims new_claims = ground arith
find-copy_claims j (key ∷ keys) claims new_claims =
    elim (Option-cases (find_in_claims key claims)) [
      | inl e ↦
          rw (e, copy_claims)
            (find-copy_claims j keys claims new_claims
              ∙ ap (or_else (find_in_claims j new_claims)) (skipped e))
      | inr (v, e) ↦
          rw (e, copy_claims)
            (find-copy_claims j keys claims (emplace_claim key v new_claims)
              ∙ rw (find-emplace_claim j key v new_claims)
                  (copied v e (find_in_claims j new_claims)))
    ]
  where
    skipped :
        find_in_claims key claims ≡ none
        → (if contains keys j then find_in_claims j claims else none)
          ≡ (if same key j || contains keys j then find_in_claims j claims else none)
    skipped e = elim (Bool-cases (same key j)) [
      | inl here ↦
          let missing : find_in_claims j claims ≡ none =
            subst (λ k. find_in_claims k claims ≡ none) ((same_iff key j).0 here) e in
          ground arith
      | inr other ↦ rw other refl
    ]

    copied :
        (v : Bytes)
        → find_in_claims key claims ≡ some v
        → (o : Option Bytes)
        → or_else
            (or_else o (if same key j then some v else none))
            (if contains keys j then find_in_claims j claims else none)
          ≡ or_else o (if same key j || contains keys j then find_in_claims j claims else none)
    copied v e o = elim (Bool-cases (same key j)) [
      | inl here ↦
          let found : find_in_claims j claims ≡ some v =
            subst (λ k. find_in_claims k claims ≡ some v) ((same_iff key j).0 here) e in
          ground arith
      | inr other ↦ ground arith
    ]
