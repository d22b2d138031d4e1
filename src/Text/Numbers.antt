-- ===== src/Text/Numbers.antt =====
-- Numbers in decimal: what `std::format` and `std::to_string` write, and that `std::from_chars` of
-- src/http_request.cpp and src/jwt.cpp reads it back.
use apiserver_asymetric_encr.Base.{
  ltb, if◌then◌else◌, ltb→lt, Bool-cases, All, All-append, ℤ, pos, negsuc, size_mod, ℕ, zero, suc,
  ◌+◌, ◌-◌, ◌*◌, ◌/◌, ◌%◌, ◌≤◌, ◌<◌, ◌≡◌, refl, sym, ap, ◌∙◌, inl, inr, true, some, [], ◌∷◌, ◌++◌,
  arith,
}
use apiserver_asymetric_encr.Text.{Bytes, is_digit, take_digits, from_chars_size}

-- `{}` and `std::to_string` of a number. A number has no more digits than it is large, so `fuel` is enough.
unfoldable pub decimal_from : ℕ → ℕ → Bytes
decimal_from zero n = (b'0' + n % 10) ∷ []
decimal_from (suc fuel) n =
    let front = decimal_from fuel (n / 10) in
    if ltb n 10 then (b'0' + n) ∷ [] else front ++ (b'0' + n % 10) ∷ []

unfoldable pub decimal : ℕ → Bytes
decimal n = decimal_from n n

-- `-n`.
unfoldable pub negated : ℕ → ℤ
negated zero = pos 0
negated (suc n) = negsuc n

-- `std::to_string` of a `long long`.
unfoldable pub to_string : ℤ → Bytes
to_string (pos n) = decimal n
to_string (negsuc n) = b'-' ∷ decimal (suc n)

take_digits-append :
    (acc : ℕ) (s t : Bytes)
    → All (λ c. is_digit c ≡ true) s
    → take_digits acc (s ++ t) ≡ take_digits (take_digits acc s).0 t
unfolding take_digits
take_digits-append acc [] t h = refl
take_digits-append acc (c ∷ s) t h =
    rw (h.0, take_digits) (take_digits-append (acc * 10 + (c - b'0')) s t h.1)

digit_lem : (n : ℕ) → n < 10 → is_digit (b'0' + n) ≡ true
digit_lem n h = ground arith

pub decimal_from-All : (fuel n : ℕ) → All (λ c. is_digit c ≡ true) (decimal_from fuel n)
unfolding decimal_from
decimal_from-All zero n = (digit_lem (n % 10) (omega arith), tt)
decimal_from-All (suc fuel) n = elim (Bool-cases (ltb n 10)) [
  | inl small ↦ rw small (digit_lem n (ltb→lt n 10 small), tt)
  | inr large ↦ rw large (
      All-append (λ c. is_digit c ≡ true) (decimal_from fuel (n / 10)) ((b'0' + n % 10) ∷ [])
        (decimal_from-All fuel (n / 10)) (digit_lem (n % 10) (omega arith), tt))
]

take_one : (acc n : ℕ) → n < 10 → take_digits acc ((b'0' + n) ∷ []) ≡ (acc * 10 + n, [])
unfolding take_digits
take_one acc n h =
    rw (digit_lem n h, take_digits) (ap (λ (v : ℕ). (acc * 10 + v, [])) (omega arith))

take_digits-decimal_from : (fuel n : ℕ) → n ≤ fuel → take_digits 0 (decimal_from fuel n) ≡ (n, [])
unfolding decimal_from
take_digits-decimal_from zero n h =
    take_one 0 (n % 10) (omega arith) ∙ ap (λ (v : ℕ). (v, [])) (omega arith)
take_digits-decimal_from (suc fuel) n h = elim (Bool-cases (ltb n 10)) [
  | inl small ↦ rw small (take_one 0 n (ltb→lt n 10 small) ∙ ap (λ (v : ℕ). (v, [])) (omega arith))
  | inr large ↦ rw large (
      take_digits-append 0 (decimal_from fuel (n / 10)) ((b'0' + n % 10) ∷ [])
        (decimal_from-All fuel (n / 10))
      ∙ rw (take_digits-decimal_from fuel (n / 10) (omega arith))
          (take_one (n / 10) (n % 10) (omega arith) ∙ ap (λ (v : ℕ). (v, [])) (omega arith)))
]

starts_with_digit :
    (fuel n : ℕ) → (d : ℕ) × (rest : Bytes) × (decimal_from fuel n ≡ d ∷ rest) × (is_digit d ≡ true)
unfolding decimal_from
starts_with_digit zero n = (b'0' + n % 10, [], refl, digit_lem (n % 10) (omega arith))
starts_with_digit (suc fuel) n = elim (Bool-cases (ltb n 10)) [
  | inl small ↦ (b'0' + n, [], rw small refl, digit_lem n (ltb→lt n 10 small))
  | inr large ↦
      let (d, rest, e, is) = starts_with_digit fuel (n / 10) in
      (d, rest ++ (b'0' + n % 10) ∷ [], rw large (ap (λ s. s ++ (b'0' + n % 10) ∷ []) e), is)
]

-- The decimal text of a number of 64 bits starts with a digit, and is read back to the number and
-- nothing else.
pub from_chars_size-decimal :
    (n : ℕ)
    → n < size_mod
    → (from_chars_size (decimal n) ≡ some (n, []))
      × ((d : ℕ) × (rest : Bytes) × (decimal n ≡ d ∷ rest) × (is_digit d ≡ true))
unfolding decimal from_chars_size
from_chars_size-decimal n h =
    let (d, rest, e, is) = starts_with_digit n n in
    let whole : take_digits 0 (d ∷ rest) ≡ (n, []) =
      sym (ap (take_digits 0) e) ∙ take_digits-decimal_from n n (omega arith) in
    (
      rw e (rw (whole, is) (let small : ltb n size_mod ≡ true = ground arith in rw small refl)),
      (d, rest, e, is),
    )
