-- ===== src/Jwt/Clock.antt =====
-- Times that fit the ticks of the clock in src/jwt.cpp, and times that do not.
use apiserver_asymetric_encr.Base.{
  ltb, ℤ, pos, negsuc, ℕ, ◌+◌, ◌-◌, ◌*◌, ◌/◌, ◌%◌, ◌^◌, ◌≤◌, ◌<◌, ◌≡◌, refl, sym, ap, ◌∙◌, ◌⊎◌,
  Bool-cases, ltb→lt, inl, inr, true, false, arith,
}
use apiserver_asymetric_encr.Jwt.{nanos, bits64, signed64, from_time_t, ticks_passed}
use apiserver_asymetric_encr.Jwt.Token.{to_seconds, add_seconds}

-- The seconds whose nanoseconds do not fit 64 bits with a sign.
abbrev pub IsOverflowing : ℤ → Type 0
IsOverflowing (pos n) = 9223372036 < n
IsOverflowing (negsuc n) = 9223372036 ≤ n

signed64_small : (n : ℕ) → n < 2 ^ 63 → signed64 n ≡ pos n
unfolding signed64
signed64_small n h = let small : ltb n (2 ^ 63) ≡ true = ground arith in rw small refl

pub from_time_t_small : (e : ℕ) → e ≤ 9223372036 → from_time_t (pos e) ≡ pos (e * nanos)
unfolding from_time_t bits64
from_time_t_small e h =
    let exact : e % 2 ^ 64 * nanos % 2 ^ 64 ≡ e * nanos = omega arith in
    ap signed64 exact ∙ signed64_small (e * nanos) (omega arith)

before_epoch : (n : ℕ) → n < 9223372036 → (m : ℕ) × (from_time_t (negsuc n) ≡ negsuc m)
unfolding from_time_t bits64 signed64
before_epoch n h =
    let r = (2 ^ 64 - 1 - n % 2 ^ 64) * nanos % 2 ^ 64 in
    let large : ltb r (2 ^ 63) ≡ false = ground arith in (2 ^ 64 - 1 - r, rw large refl)

pub add_seconds_small :
    (now seconds : ℕ)
    → now + seconds * nanos < 2 ^ 63
    → add_seconds now (pos seconds) ≡ pos (now / nanos + seconds)
unfolding add_seconds bits64 to_seconds
add_seconds_small now seconds h =
    let exact : (now + seconds % 2 ^ 64 * nanos) % 2 ^ 64 ≡ now + seconds * nanos = omega arith in
    let whole : (now + seconds * nanos) / nanos ≡ now / nanos + seconds = omega arith in
    ap (λ t. to_seconds (signed64 t)) exact
    ∙ ap to_seconds (signed64_small (now + seconds * nanos) h)
    ∙ ap pos whole

-- A time that has not passed.
pub not_past :
    (now : ℕ) (t : ℤ) → ticks_passed now t ≡ false → (until : ℕ) × (t ≡ pos until) × (now ≤ until)
not_past now (pos n) h = (n, refl, ground arith)
not_past now (negsuc n) h = cc

pos_inj : {m n : ℕ} → pos m ≡ pos n → m ≡ n
pos_inj e = cc

-- It is the time of its seconds, unless they overflow.
pub time_or_overflow :
    (exp : ℤ) (until : ℕ)
    → from_time_t exp ≡ pos until
    → ((seconds : ℕ) × (exp ≡ pos seconds) × (until ≡ seconds * nanos)) ⊎ IsOverflowing exp
time_or_overflow (pos n) until h = elim (Bool-cases (ltb 9223372036 n)) [
  | inr fits ↦ inl (n, refl, pos_inj (sym h ∙ from_time_t_small n (ground arith)))
  | inl over ↦ inr (ltb→lt 9223372036 n over)
]
time_or_overflow (negsuc n) until h = elim (Bool-cases (ltb n 9223372036)) [
  | inr over ↦ inr (ground arith)
  | inl fits ↦
      let (m, past) = before_epoch n (ltb→lt n 9223372036 fits) in absurd (apart (sym h ∙ past))
]
  where
    apart : {i j : ℕ} → pos i ≡ negsuc j → ⊥
    apart e = cc
