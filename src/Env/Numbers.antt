-- ===== src/Env/Numbers.antt =====
-- The numbers that `convert` of src/env.hpp takes.
use apiserver_asymetric_encr.Base.{
  ltb, leb, ◌==◌, if◌then◌else◌, Bool-cases, Option-cases, is_empty, drop, ℤ, pos, negsuc, size_mod,
  ℕ, zero, suc, ◌<◌, ◌≡◌, refl, subst, inl, inr, Bool, true, false, none, some, arith,
}
use apiserver_asymetric_encr.Text.{Bytes, bytes, starts_with, from_chars_size}
use apiserver_asymetric_encr.Text.Numbers.{decimal, negated, to_string, from_chars_size-decimal}
use apiserver_asymetric_encr.Env.{from_chars_signed, convert_signed}

-- The values of a signed type.
abbrev pub in_range : ℕ → ℤ → Bool
in_range limit (pos n) = ltb n limit
in_range limit (negsuc n) = ltb n limit

negated_range : (limit n : ℕ) → 0 < limit → leb n limit ≡ true → in_range limit (negated n) ≡ true
unfolding negated
negated_range limit zero h k = ground arith
negated_range limit (suc n) h k = ground arith

-- What is left of `convert` when the digits have been read.
checked :
    (ok whole : Bool) (w v : ℤ)
    → (if whole then (if ok then some w else none) else none) ≡ some v
    → (ok ≡ true) × (w ≡ v)
checked true true w v h = (refl, cc)
checked true false w v h = cc
checked false true w v h = cc
checked false false w v h = cc

pub convert_signed_bounds :
    (limit : ℕ) (s : Bytes) (v : ℤ)
    → 0 < limit
    → convert_signed limit s ≡ some v
    → in_range limit v ≡ true
unfolding convert_signed from_chars_signed
convert_signed_bounds limit s v h k = elim (Bool-cases (starts_with s (bytes "-"))) [
  | inl minus ↦ elim (Option-cases (from_chars_size (drop 1 s))) [
    | inl e ↦ absurd (ground arith)
    | inr ((n, rest), e) ↦
        let (ok, w) = checked (leb n limit) (is_empty rest) (negated n) v (ground arith) in
        subst (λ x. in_range limit x ≡ true) w (negated_range limit n h ok)
  ]
  | inr plain ↦ elim (Option-cases (from_chars_size s)) [
    | inl e ↦ absurd (ground arith)
    | inr ((n, rest), e) ↦
        let (ok, w) = checked (ltb n limit) (is_empty rest) (pos n) v (ground arith) in
        subst (λ x. in_range limit x ≡ true) w ok
  ]
]

abbrev pub Fits : ℤ → Type 0
Fits (pos n) = n < size_mod
Fits (negsuc n) = suc n < size_mod

-- A setting that is the decimal text of a number below 2 ^ 64 in size is read as that number where
-- the type holds it, and refused where it does not.
pub convert_signed-to_string :
    (limit : ℕ) (v : ℤ)
    → Fits v
    → convert_signed limit (to_string v) ≡ (if in_range limit v then some v else none)
unfolding convert_signed from_chars_signed to_string starts_with negated
convert_signed-to_string limit (pos n) h =
    let (whole, (d, rest, e, is)) = from_chars_size-decimal n h in
    let no_sign : (d == b'-') ≡ false = ground arith in
    let plain : starts_with (decimal n) (bytes "-") ≡ false = rw e (rw no_sign refl) in
    rw (plain, convert_signed, from_chars_signed)
      (rw whole (elim (Bool-cases (ltb n limit)) [ inl e ↦ rw e refl | inr e ↦ rw e refl ]))
convert_signed-to_string limit (negsuc n) h =
    let same_test : leb (suc n) limit ≡ ltb n limit = ground arith in
    rw ((from_chars_size-decimal (suc n) h).0, convert_signed)
      (rw same_test (elim (Bool-cases (ltb n limit)) [ inl e ↦ rw e refl | inr e ↦ rw e refl ]))
