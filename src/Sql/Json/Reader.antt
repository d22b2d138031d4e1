-- ===== src/Sql/Json/Reader.antt =====
-- A reader of the JSON that src/sql.tpp builds, an array of objects of texts, numbers and nulls.
use apiserver_asymetric_encr.Base.{
  ◌==◌, if◌then◌else◌, ℕ, zero, suc, Bool, true, false, ◌||◌, Option, none, some, List, [], ◌∷◌,
}
use apiserver_asymetric_encr.Text.{Bytes, bytes, same}
use apiserver_asymetric_encr.Sql.Json.Number.{is_json_number}
use apiserver_asymetric_encr.Logger.Json.{between, read_json}

-- A value of an object: a text, a null, or the characters of a number.
pub data JsonValue : Type 0 where
  str : Bytes → JsonValue
  number : Bytes → JsonValue
  null_value : JsonValue

abbrev pub Object : Type 0
Object = List (Bytes × JsonValue)

-- What follows the byte that is expected.
unfoldable pub expect : ℕ → Bytes → Option Bytes
expect d [] = none
expect d (c ∷ cs) = if c == d then some cs else none

abbrev pub ends_word : ℕ → Bool
ends_word c = c == b',' || c == b'}'

unfoldable pub take_word : Bytes → Bytes × Bytes
take_word [] = ([], [])
take_word (c ∷ cs) = elim (ends_word c) [
  | true ↦ ([], c ∷ cs)
  | false ↦ let (word, rest) = take_word cs in (c ∷ word, rest)
]

unfoldable pub read_string : Bytes → Option (Bytes × Bytes)
read_string s = elim (expect 34 s) [ none ↦ none | some cs ↦ read_json between cs ]

unfoldable pub read_value : Bytes → Option (JsonValue × Bytes)
read_value s = elim (expect 34 s) [
  | some cs ↦ elim (read_json between cs) [ none ↦ none | some (t, rest) ↦ some (str t, rest) ]
  | none ↦
      let (word, rest) = take_word s in
      if same word (bytes "null")
      then some (null_value, rest)
      else if is_json_number word
      then some (number word, rest)
      else none
]

-- A name, a colon and a value.
unfoldable pub read_member : Bytes → Option ((Bytes × JsonValue) × Bytes)
read_member s = elim (read_string s) [
  | none ↦ none
  | some (name, behind_name) ↦ elim (expect b':' behind_name) [
    | none ↦ none
    | some at_value ↦ elim (read_value at_value) [
      | none ↦ none
      | some (v, rest) ↦ some ((name, v), rest)
    ]
  ]
]

-- The members up to the closing brace; the fuel bounds their number.
unfoldable pub read_members : ℕ → Bytes → Option (Object × Bytes)
read_members zero s = none
read_members (suc fuel) s = elim (read_member s) [
  | none ↦ none
  | some (m, rest) ↦ elim (expect b',' rest) [
    | some behind ↦ elim (read_members fuel behind) [
      | none ↦ none
      | some (ms, end) ↦ some (m ∷ ms, end)
    ]
    | none ↦ elim (expect b'}' rest) [ none ↦ none | some end ↦ some (m ∷ [], end) ]
  ]
]

unfoldable pub read_object : ℕ → Bytes → Option (Object × Bytes)
read_object columns s = elim (expect b'{' s) [ none ↦ none | some cs ↦ read_members columns cs ]

-- The objects up to the closing bracket, of an array that is not empty.
unfoldable pub read_objects : ℕ → ℕ → Bytes → Option (List Object × Bytes)
read_objects columns zero s = none
read_objects columns (suc fuel) s = elim (read_object columns s) [
  | none ↦ none
  | some (o, rest) ↦ elim (expect b',' rest) [
    | some behind ↦ elim (read_objects columns fuel behind) [
      | none ↦ none
      | some (os, end) ↦ some (o ∷ os, end)
    ]
    | none ↦ elim (expect b']' rest) [ none ↦ none | some end ↦ some (o ∷ [], end) ]
  ]
]

unfoldable pub read_array : ℕ → ℕ → Bytes → Option (List Object × Bytes)
read_array columns rows s = elim (expect b'[' s) [
  | none ↦ none
  | some cs ↦ elim (expect b']' cs) [
    | some end ↦ some ([], end)
    | none ↦ read_objects columns rows cs
  ]
]
