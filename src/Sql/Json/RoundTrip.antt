-- ===== src/Sql/Json/RoundTrip.antt =====
-- The JSON of a result set, of src/sql.tpp, says what the rows hold.
use mathlib.Core.List.{append_assoc}
use apiserver_asymetric_encr.Base.{
  ◌==◌, if◌then◌else◌, Bool-cases, length, All, ℕ, zero, suc, ◌≤◌, ◌<◌, ◌≡◌, refl, ap, ◌∙◌, inl,
  inr, true, false, none, some, List, [], ◌∷◌, ◌++◌, map, arith,
}
use apiserver_asymetric_encr.Text.{Bytes, bytes, same}
use apiserver_asymetric_encr.Logger.{json_escape}
use apiserver_asymetric_encr.Logger.Json.{read_json-json_escape}
use apiserver_asymetric_encr.Sql.Rows.{Cell, text, null}
use apiserver_asymetric_encr.Sql.Json.{is_numeric, ColumnMeta}
use apiserver_asymetric_encr.Sql.Json.Number.{
  at_start, is_json_number, is_number_char, number_chars,
}
use apiserver_asymetric_encr.Sql.Json.Plain.{quoted, value_text, columns_text}
use apiserver_asymetric_encr.Sql.Json.Reader.{
  JsonValue, str, number, null_value, expect, ends_word, take_word, read_string, read_value,
  read_member, read_members,
}

-- The characters of a number.
abbrev IsNumber : Bytes → Type 0
IsNumber s = All (λ c. is_number_char c ≡ true) s

-- A cell of a numeric column holds a number, or is null.
abbrev pub IsFitting : ColumnMeta × Cell → Type 0
IsFitting (meta, null) = Unit
IsFitting (meta, text s) = is_numeric meta.type_ ≡ true → is_json_number s ≡ true

abbrev pub member_of : ColumnMeta × Cell → Bytes × JsonValue
member_of (meta, null) = (meta.name, null_value)
member_of (meta, text s) = (meta.name, if is_numeric meta.type_ then number s else str s)

number_char :
    (c : ℕ)
    → is_number_char c ≡ true
    → (ends_word c ≡ false) × ((c == 34) ≡ false) × ((c == b'n') ≡ false)
number_char c h = ground arith

take_word-append :
    (s rest : Bytes) (d : ℕ)
    → All (λ c. ends_word c ≡ false) s
    → ends_word d ≡ true
    → take_word (s ++ (d ∷ rest)) ≡ (s, d ∷ rest)
unfolding take_word
take_word-append [] rest d h k = rw (k, take_word) refl
take_word-append (c ∷ s) rest d h k =
    rw (h.0, take_word) (rw (take_word-append s rest d h.1 k) refl)

word_of_number : (s : Bytes) → IsNumber s → All (λ c. ends_word c ≡ false) s
word_of_number [] h = tt
word_of_number (c ∷ s) h = ((number_char c h.0).0, word_of_number s h.1)

not_null : (s : Bytes) → IsNumber s → same s (bytes "null") ≡ false
unfolding same
not_null [] h = refl
not_null (c ∷ s) h = rw ((number_char c h.0).2) refl

not_quote :
    (s rest : Bytes) (d : ℕ) → IsNumber s → ends_word d ≡ true → expect 34 (s ++ (d ∷ rest)) ≡ none
unfolding expect
not_quote [] rest d h k = let other : (d == 34) ≡ false = ground arith in rw other refl
not_quote (c ∷ s) rest d h k = rw ((number_char c h.0).1) refl

quoted-append : (s rest : Bytes) → quoted s ++ rest ≡ 34 ∷ (json_escape s ++ (34 ∷ rest))
quoted-append s rest = ap (◌∷◌ 34) (append_assoc (json_escape s) (34 ∷ []) rest)

read_value-value_text :
    (meta : ColumnMeta) (cell : Cell) (rest : Bytes) (d : ℕ)
    → IsFitting (meta, cell)
    → ends_word d ≡ true
    → read_value (value_text meta.type_ cell ++ (d ∷ rest))
      ≡ some ((member_of (meta, cell)).1, d ∷ rest)
unfolding read_value value_text expect same
read_value-value_text meta null rest d h k =
    rw (take_word-append (bytes "null") rest d (refl, (refl, (refl, (refl, tt)))) k) refl
read_value-value_text meta (text s) rest d h k = elim (Bool-cases (is_numeric meta.type_)) [
  | inl numeric ↦
      let chars = number_chars at_start s (h numeric) in
      rw numeric (
        rw (not_quote s rest d chars k, read_value)
          (rw (take_word-append s rest d (word_of_number s chars) k)
            (rw (not_null s chars) (rw (h numeric) refl))))
  | inr other ↦
      rw other
        (rw (quoted-append s (d ∷ rest)) (rw (read_json-json_escape s (d ∷ rest), read_value) refl))
]

named :
    (meta : ColumnMeta) (cell : Cell)
    → Path (Bytes × JsonValue) (meta.name, (member_of (meta, cell)).1) (member_of (meta, cell))
named meta null = refl
named meta (text s) = refl

read_member-member :
    (meta : ColumnMeta) (cell : Cell) (rest : Bytes) (d : ℕ)
    → IsFitting (meta, cell)
    → ends_word d ≡ true
    → read_member (quoted meta.name ++ (b':' ∷ (value_text meta.type_ cell ++ (d ∷ rest))))
      ≡ some (member_of (meta, cell), d ∷ rest)
unfolding read_member read_string expect
read_member-member meta cell rest d h k =
    rw (quoted-append meta.name (b':' ∷ (value_text meta.type_ cell ++ (d ∷ rest)))) (
      rw
        (
          read_json-json_escape meta.name (b':' ∷ (value_text meta.type_ cell ++ (d ∷ rest))),
          read_member,
          read_string,
        )
        (rw (read_value-value_text meta cell rest d h k)
          (ap (λ m. some (m, d ∷ rest)) (named meta cell))))

regroup :
    (name value tail rest : Bytes)
    → (name ++ (b':' ∷ (value ++ tail))) ++ rest ≡ name ++ (b':' ∷ (value ++ (tail ++ rest)))
regroup name value tail rest =
    append_assoc name (b':' ∷ (value ++ tail)) rest
    ∙ ap (λ t. name ++ (b':' ∷ t)) (append_assoc value tail rest)

pub read_members-columns_text :
    (fuel : ℕ) (columns : List (ColumnMeta × Cell)) (rest : Bytes)
    → 0 < length columns
    → length columns ≤ fuel
    → All IsFitting columns
    → read_members fuel (columns_text columns ++ (b'}' ∷ rest)) ≡ some (map member_of columns, rest)
unfolding read_members columns_text expect
read_members-columns_text fuel [] rest h k fit = absurd (omega arith)
read_members-columns_text zero (m ∷ columns) rest h k fit = absurd (omega arith)
read_members-columns_text (suc fuel) ((meta, cell) ∷ []) rest h k fit =
    rw (regroup (quoted meta.name) (value_text meta.type_ cell) [] (b'}' ∷ rest))
      (rw (read_member-member meta cell rest b'}' fit.0 refl, read_members) refl)
read_members-columns_text (suc fuel) ((meta, cell) ∷ next ∷ columns) rest h k fit =
    let later = columns_text (next ∷ columns) in
    rw (regroup (quoted meta.name) (value_text meta.type_ cell) (b',' ∷ later) (b'}' ∷ rest)) (
      rw (read_member-member meta cell (later ++ (b'}' ∷ rest)) b',' fit.0 refl, read_members)
        (rw (read_members-columns_text fuel (next ∷ columns) rest (omega arith) (omega arith) fit.1)
          refl))
