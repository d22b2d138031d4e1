-- ===== src/Text.antt =====
-- Byte strings, read as src/http_request.cpp and src/http_request.hpp read them through
-- `std::string_view`: searching, cutting, trimming, the letters of a case-insensitive comparison,
-- and the numbers of `std::from_chars`.
pub mod Search
pub mod Split
pub mod Trim
pub mod Numbers
pub mod Marks
use Prim.Native.Char.{code}
use Prim.Native.String.{String}
use apiserver_asymetric_encr.Base.{
  ltb, leb, ◌==◌, if◌then◌else◌, value_or, length, is_empty, take, drop, replicate, size_mod, ℕ,
  zero, suc, ◌+◌, ◌-◌, ◌*◌, ◌%◌, Bool, true, false, not, ◌&&◌, ◌||◌, Option, none, some, List, [],
  ◌∷◌, map,
}
use mathlib.Core.Option

abbrev pub Bytes : Type 0
Bytes = List ℕ

-- The bytes of an ASCII literal.
abbrev pub bytes : String → Bytes
bytes String.[] = []
bytes (String.◌∷◌ c s) = code c ∷ bytes s

abbrev pub zeros : ℕ → Bytes
zeros n = replicate n 0

unfoldable pub same : Bytes → Bytes → Bool
same [] [] = true
same (a ∷ xs) (b ∷ ys) = a == b && same xs ys
same _ _ = false

unfoldable pub starts_with : Bytes → Bytes → Bool
starts_with s [] = true
starts_with [] (p ∷ ps) = false
starts_with (c ∷ cs) (p ∷ ps) = c == p && starts_with cs ps

unfoldable pub ends_with : Bytes → Bytes → Bool
unfolding same
ends_with s pat = leb (length pat) (length s) && same (drop (length s - length pat) s) pat

-- `s.find(pat)`; `none` is `npos`.
unfoldable pub find : Bytes → Bytes → Option ℕ
unfolding starts_with
find [] pat = if is_empty pat then some 0 else none
find (c ∷ cs) pat = if starts_with (c ∷ cs) pat then some 0 else Option.map suc (find cs pat)

-- `s.find(c)`, `s.find_first_of` and `s.find_first_not_of`, by the test on a byte.
unfoldable pub find_if : (ℕ → Bool) → Bytes → Option ℕ
find_if p [] = none
find_if p (c ∷ cs) = if p c then some 0 else Option.map suc (find_if p cs)

-- `s.rfind(c)`, `s.find_last_of` and `s.find_last_not_of`.
unfoldable pub find_last_if : (ℕ → Bool) → Bytes → Option ℕ
find_last_if p [] = none
find_last_if p (c ∷ cs) = elim (find_last_if p cs) [
  | none ↦ if p c then some 0 else none
  | some i ↦ some (suc i)
]

abbrev pub substr : Bytes → ℕ → ℕ → Bytes
substr s start n = take n (drop start s)

-- One step of `std::views::split`: a byte that belongs to the current piece.
unfoldable pub push_front : ℕ → List Bytes → List Bytes
push_front c [] = (c ∷ []) ∷ []
push_front c (piece ∷ rest) = (c ∷ piece) ∷ rest

-- The loop of `std::views::split(pat)` over a non-empty text; `skip` bytes of a delimiter are left.
unfoldable pub split_from : Bytes → ℕ → Bytes → List Bytes
unfolding starts_with push_front
split_from pat skip [] = [] ∷ []
split_from pat (suc k) (c ∷ cs) = split_from pat k cs
split_from pat zero (c ∷ cs) = elim (starts_with (c ∷ cs) pat) [
  | true ↦ [] ∷ split_from pat (length pat - 1) cs
  | false ↦ push_front c (split_from pat 0 cs)
]

-- An empty text has no pieces.
unfoldable pub split : Bytes → Bytes → List Bytes
unfolding split_from
split pat [] = []
split pat (c ∷ cs) = split_from pat 0 (c ∷ cs)

abbrev pub is_blank : ℕ → Bool
is_blank c = c == b' ' || c == b'\t'

-- The first half of `trim_sv`, its `remove_prefix`.
unfoldable pub trim_left : Bytes → Bytes
unfolding find_if
trim_left s = drop (value_or (find_if (λ c. not (is_blank c)) s) (length s)) s

-- The second half of `trim_sv`.
unfoldable pub trim_right : Bytes → Bytes
unfolding find_last_if
trim_right s = elim (find_last_if (λ c. not (is_blank c)) s) [
  | none ↦ s
  | some last ↦ take (suc last) s
]

unfoldable pub trim_sv : Bytes → Bytes
unfolding trim_left trim_right
trim_sv s = trim_right (trim_left s)

abbrev pub is_digit : ℕ → Bool
is_digit c = leb b'0' c && leb c b'9'

abbrev pub is_alpha : ℕ → Bool
is_alpha c = (leb b'a' c && leb c b'z') || (leb b'A' c && leb c b'Z')

-- `std::tolower` in the classic locale.
unfoldable pub tolower : ℕ → ℕ
tolower c = if leb b'A' c && leb c b'Z' then c + 32 else c

-- `sv_ci_equal`.
unfoldable pub sv_ci_equal : Bytes → Bytes → Bool
unfolding tolower
sv_ci_equal [] [] = true
sv_ci_equal (a ∷ xs) (b ∷ ys) = tolower a == tolower b && sv_ci_equal xs ys
sv_ci_equal _ _ = false

-- `sv_ci_hash`, in 64-bit arithmetic.
unfoldable pub sv_ci_hash_from : ℕ → Bytes → ℕ
unfolding tolower
sv_ci_hash_from hash [] = hash
sv_ci_hash_from hash (c ∷ cs) =
    sv_ci_hash_from ((((hash * 32) % size_mod + hash) % size_mod + tolower c) % size_mod) cs

unfoldable pub sv_ci_hash : Bytes → ℕ
unfolding sv_ci_hash_from
sv_ci_hash s = sv_ci_hash_from 5381 s

-- The digits that `std::from_chars` takes, with the value read so far, and the rest.
unfoldable pub take_digits : ℕ → Bytes → ℕ × Bytes
take_digits acc [] = (acc, [])
take_digits acc (c ∷ cs) = elim (is_digit c) [
  | true ↦ take_digits (acc * 10 + (c - b'0')) cs
  | false ↦ (acc, c ∷ cs)
]

-- `std::from_chars` for `size_t`: `none` where `ec` is set, else the value and the unread rest.
unfoldable pub from_chars_size : Bytes → Option (ℕ × Bytes)
unfolding take_digits
from_chars_size [] = none
from_chars_size (c ∷ cs) =
    let (value, rest) = take_digits 0 (c ∷ cs) in
    if is_digit c && ltb value size_mod then some (value, rest) else none
