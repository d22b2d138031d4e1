-- ===== src/Sql/Json/Number.antt =====
-- The grammar of a number in JSON, for the reader of what src/sql.tpp builds.
use apiserver_asymetric_encr.Base.{
  ◌==◌, if◌then◌else◌, Bool-cases, Option-cases, All, ℕ, ◌≡◌, inl, inr, Bool, true, false, ◌||◌,
  Option, none, some, [], ◌∷◌, arith,
}
use apiserver_asymetric_encr.Text.{Bytes, is_digit}

-- What has been read of a number.
pub data NumberState : Type 0 where
  at_start behind_minus behind_zero in_integer behind_point : NumberState
  in_fraction behind_e behind_sign in_exponent : NumberState

abbrev exponent_or_end : ℕ → Option NumberState
exponent_or_end c = if c == b'e' || c == b'E' then some behind_e else none

unfoldable pub number_step : NumberState → ℕ → Option NumberState
number_step at_start c =
    if c == b'-'
    then some behind_minus
    else if c == b'0'
    then some behind_zero
    else if is_digit c
    then some in_integer
    else none
number_step behind_minus c =
    if c == b'0' then some behind_zero else if is_digit c then some in_integer else none
number_step behind_zero c = if c == b'.' then some behind_point else exponent_or_end c
number_step in_integer c =
    if is_digit c
    then some in_integer
    else if c == b'.'
    then some behind_point
    else exponent_or_end c
number_step behind_point c = if is_digit c then some in_fraction else none
number_step in_fraction c = if is_digit c then some in_fraction else exponent_or_end c
number_step behind_e c =
    if c == b'+' || c == b'-'
    then some behind_sign
    else if is_digit c
    then some in_exponent
    else none
number_step behind_sign c = if is_digit c then some in_exponent else none
number_step in_exponent c = if is_digit c then some in_exponent else none

abbrev may_end : NumberState → Bool
may_end behind_zero = true
may_end in_integer = true
may_end in_fraction = true
may_end in_exponent = true
may_end _ = false

unfoldable pub is_number_from : NumberState → Bytes → Bool
is_number_from state [] = may_end state
is_number_from state (c ∷ cs) = elim (number_step state c) [
  | none ↦ false
  | some next ↦ is_number_from next cs
]

abbrev pub is_json_number : Bytes → Bool
is_json_number s = is_number_from at_start s

abbrev pub is_number_char : ℕ → Bool
is_number_char c = is_digit c || c == b'-' || c == b'+' || c == b'.' || c == b'e' || c == b'E'

no_step : (state : NumberState) (c : ℕ) → is_number_char c ≡ false → number_step state c ≡ none
unfolding number_step
no_step at_start c h = ground arith
no_step behind_minus c h = ground arith
no_step behind_zero c h = ground arith
no_step in_integer c h = ground arith
no_step behind_point c h = ground arith
no_step in_fraction c h = ground arith
no_step behind_e c h = ground arith
no_step behind_sign c h = ground arith
no_step in_exponent c h = ground arith

-- The characters of a number.
pub number_chars :
    (state : NumberState) (s : Bytes)
    → is_number_from state s ≡ true
    → All (λ c. is_number_char c ≡ true) s
unfolding is_number_from
number_chars state [] h = tt
number_chars state (c ∷ cs) h = elim (Option-cases (number_step state c)) [
  | inl e ↦ absurd (ground arith)
  | inr (next, e) ↦ elim (Bool-cases (is_number_char c)) [
    | inl good ↦ (good, number_chars next cs (ground arith))
    | inr bad ↦ absurd (ground (arith, no_step state c bad))
  ]
]
