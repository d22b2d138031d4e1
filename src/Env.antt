-- ===== src/Env.antt =====
-- Settings from the environment: src/env.hpp. `getenv` is the environment at the time of the call and
-- `decrypt` the content of an encrypted file; an exception `env::error` is `none`.
pub mod Numbers
pub mod Cache
use apiserver_asymetric_encr.Base.{
  ltb, leb, if◌then◌else◌, value_or, is_empty, drop, ℤ, pos, ℕ, ◌^◌, Bool, true, false, Option,
  none, some, List, [], ◌∷◌,
}
use apiserver_asymetric_encr.Text.{Bytes, bytes, same, starts_with, ends_with, from_chars_size}
use apiserver_asymetric_encr.Text.Numbers.{negated}

-- `std::from_chars` for a signed type whose least value is `-limit`.
unfoldable pub from_chars_signed : ℕ → Bytes → Option (ℤ × Bytes)
from_chars_signed limit s =
    if starts_with s (bytes "-")
    then elim (from_chars_size (drop 1 s)) [
      | none ↦ none
      | some (n, rest) ↦ if leb n limit then some (negated n, rest) else none
    ]
    else elim (from_chars_size s) [
      | none ↦ none
      | some (n, rest) ↦ if ltb n limit then some (pos n, rest) else none
    ]

-- `convert<int>` and `convert<long>`, by the limit of the type.
unfoldable pub convert_signed : ℕ → Bytes → Option ℤ
convert_signed limit s = elim (from_chars_signed limit s) [
  | none ↦ none
  | some (v, rest) ↦ if is_empty rest then some v else none
]

abbrev pub int_limit : ℕ
int_limit = 2 ^ 31

abbrev pub long_limit : ℕ
long_limit = 2 ^ 63

-- `convert<size_t>`.
unfoldable pub convert_size : Bytes → Option ℕ
convert_size s = elim (from_chars_size s) [
  | none ↦ none
  | some (n, rest) ↦ if is_empty rest then some n else none
]

-- `convert<bool>`.
unfoldable pub convert_bool : Bytes → Option Bool
convert_bool s =
    if same s (bytes "1") then some true else if same s (bytes "0") then some false else none

abbrev pub Settings : Type 0
Settings = List (Bytes × Bytes)

-- `cache.find`, and `cache[key] = value` for a key that is not there.
unfoldable pub find_cached : Bytes → Settings → Option Bytes
find_cached key [] = none
find_cached key ((k, v) ∷ rest) = if same k key then some v else find_cached key rest

module _ (getenv : Bytes → Option Bytes) (decrypt : Bytes → Option Bytes) where
  -- The text of a variable: a value that ends in `.enc` names an encrypted file.
  unfoldable pub resolve : Bytes → Option Bytes
  resolve key = elim (getenv key) [
    | none ↦ none
    | some raw ↦ if ends_with raw (bytes ".enc") then decrypt raw else some raw
  ]

  unfoldable pub fetch_string : Bytes → Settings → Settings × Option Bytes
  fetch_string key cache = elim (find_cached key cache) [
    | some v ↦ (cache, some v)
    | none ↦ elim (resolve key) [ none ↦ (cache, none) | some v ↦ ((key, v) ∷ cache, some v) ]
  ]

  module _ {T : Type 0} (convert : Bytes → Option T) where
    -- `get`, without and with a fallback.
    unfoldable pub get : Bytes → Settings → Settings × Option T
    get key cache =
        let (cache', fetched) = fetch_string key cache in
        (cache', elim fetched [ none ↦ none | some v ↦ convert v ])

    unfoldable pub get_with_fallback : Bytes → T → Settings → Settings × T
    get_with_fallback key fallback cache =
        let (cache', found) = get key cache in (cache', value_or found fallback)
