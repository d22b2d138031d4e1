-- ===== src/Otp.antt =====
-- One-time passwords: src/otp.hpp. HMAC-SHA1 is a parameter, `none` where OpenSSL fails; the clock
-- is an argument.
pub mod Window
use apiserver_asymetric_encr.Base.{
  leb, ◌==◌, if◌then◌else◌, is_some, value_or, length, is_empty, get_elem?, last_or, ℕ, zero, suc,
  ◌+◌, ◌-◌, ◌*◌, ◌/◌, ◌%◌, ◌^◌, Bool, not, ◌&&◌, ◌||◌, Option, none, some, [], ◌∷◌, ◌++◌, map,
}
use apiserver_asymetric_encr.Text.{Bytes, same}

-- `std::isspace` in the C locale.
unfoldable pub is_space : ℕ → Bool
is_space c = c == b' ' || (leb 9 c && leb c 13)

-- `base32_lookup`, with the test of `uc >= 128`: `none` is -1.
unfoldable pub base32_lookup : ℕ → Option ℕ
base32_lookup c =
    if leb b'2' c && leb c b'7'
    then some (c - b'2' + 26)
    else if leb b'A' c && leb c b'Z'
    then some (c - b'A')
    else if leb b'a' c && leb c b'z'
    then some (c - b'a')
    else none

-- The loop of `decode_base32`. `buffer` is a 32-bit `int`, whose high bits are lost; `none` where a
-- byte is not of the alphabet.
unfoldable pub decode_base32_from : ℕ → ℕ → Bytes → Option Bytes
decode_base32_from buffer bits_left [] = some []
decode_base32_from buffer bits_left (c ∷ cs) =
    let skipped = decode_base32_from buffer bits_left cs in
    let next : ℕ = elim (base32_lookup c) [ none ↦ 0 | some v ↦ (buffer * 32 + v) % 2 ^ 32 ] in
    let emitted = decode_base32_from next (bits_left - 3) cs in
    let kept = decode_base32_from next (bits_left + 5) cs in
    if c == b'=' || is_space c
    then skipped
    else if not (is_some (base32_lookup c))
    then none
    else if leb 3 bits_left
    then elim emitted [ none ↦ none | some out ↦ some (next / 2 ^ (bits_left - 3) % 256 ∷ out) ]
    else kept

unfoldable pub decode_base32 : Bytes → Option Bytes
decode_base32 input = decode_base32_from 0 0 input

-- The counter's bytes, the highest first.
unfoldable pub counter_be : ℕ → Bytes
counter_be counter =
    map (λ i. counter / 2 ^ ((7 - i) * 8) % 256) (0 ∷ 1 ∷ 2 ∷ 3 ∷ 4 ∷ 5 ∷ 6 ∷ 7 ∷ [])

-- The last `digits` decimal digits, with leading zeros: `std::format("{:0{}}")` of a number below
-- 10 ^ digits.
unfoldable pub format_digits : ℕ → ℕ → Bytes
format_digits zero n = []
format_digits (suc digits) n = format_digits digits (n / 10) ++ (b'0' + n % 10) ∷ []

-- `hash[i]` of an array that is zero behind the digest.
unfoldable pub byte_at : Bytes → ℕ → ℕ
byte_at hash i = value_or (get_elem? hash i) 0

-- The truncation of RFC 4226. The shifted bytes do not overlap.
unfoldable pub truncate : Bytes → ℕ
truncate hash =
    let offset = last_or 0 hash % 16 in
    byte_at hash offset % 128 * 2 ^ 24
    + byte_at hash (offset + 1) * 2 ^ 16
    + byte_at hash (offset + 2) * 2 ^ 8
    + byte_at hash (offset + 3)

unfoldable pub generate_hotp : (Bytes → Bytes → Option Bytes) → Bytes → ℕ → ℕ → Option Bytes
generate_hotp hmac_sha1 key counter digits = elim (hmac_sha1 key (counter_be counter)) [
  | none ↦ none
  | some hash ↦ some (format_digits digits (truncate hash % 10 ^ digits))
]

-- What `is_valid_token` returns: true, or one of its errors.
pub data Validation : Type 0 where
  valid empty_parameter invalid_size base32_failed hmac_failed mismatch : Validation

-- The loop over the steps: `count` of them are left.
unfoldable pub check_steps : (ℕ → Option Bytes) → Bytes → ℕ → ℕ → Validation
check_steps hotp token step zero = mismatch
check_steps hotp token step (suc count) =
    let rest = check_steps hotp token (suc step) count in
    elim (hotp step) [
      | none ↦ hmac_failed
      | some generated ↦ if same generated token then valid else rest
    ]

-- `seconds` and `window` are the values of `Settings`. The steps run from `start_step` to `end_step`;
-- as the clock is a 64-bit number that has been divided by `seconds`, neither wraps.
unfoldable pub is_valid_token :
    (Bytes → Bytes → Option Bytes) → ℕ → ℕ → ℕ → Bytes → Bytes → Validation
is_valid_token hmac_sha1 now seconds window token secretb32 =
    if is_empty token || is_empty secretb32
    then empty_parameter
    else if not (length token == 6) && not (length token == 8)
    then invalid_size
    else elim (decode_base32 secretb32) [
      | none ↦ base32_failed
      | some secret ↦
          let current_step = now / seconds in
          let start_step = if leb window current_step then current_step - window else 0 in
          let end_step = current_step + window in
          check_steps (λ step. generate_hotp hmac_sha1 secret step (length token)) token start_step
            (end_step + 1 - start_step)
    ]
