-- ===== src/Sql/Json/Plain.antt =====
-- The text that the builders of src/sql.tpp append, without the builder.
use mathlib.Core.List.{append-nil, append_assoc}
use apiserver_asymetric_encr.Base.{
  ltb, leb, if◌then◌else◌, Bool-cases, is_empty, ℕ, ◌≡◌, refl, sym, ap, ◌∙◌, inl, inr, Bool, ◌&&◌,
  false, List, [], ◌∷◌, ◌++◌, arith,
}
use apiserver_asymetric_encr.Text.{Bytes, bytes}
use apiserver_asymetric_encr.Logger.{escape_byte, json_escape}
use apiserver_asymetric_encr.Sql.Rows.{Cell, text, null}
use apiserver_asymetric_encr.Sql.Json.{
  escape_sql_byte, append_escaped, append_escaped_json_string, ColumnType, is_numeric, ColumnMeta,
  append_json_value,
}

escape_sql_byte_lem : (c : ℕ) → escape_sql_byte c ≡ escape_byte c
unfolding escape_sql_byte escape_byte
escape_sql_byte_lem c =
    let control : (ltb c 128 && leb c 31) ≡ ltb c 32 = ground arith in rw control refl

append_escaped_lem : (builder s : Bytes) → append_escaped builder s ≡ builder ++ json_escape s
unfolding append_escaped json_escape
append_escaped_lem builder [] = sym (append-nil builder)
append_escaped_lem builder (c ∷ s) =
    append_escaped_lem (builder ++ escape_sql_byte c) s
    ∙ append_assoc builder (escape_sql_byte c) (json_escape s)
    ∙ ap (λ e. builder ++ (e ++ json_escape s)) (escape_sql_byte_lem c)

abbrev pub quoted : Bytes → Bytes
quoted s = 34 ∷ (json_escape s ++ 34 ∷ [])

pub append_escaped_json_string_lem :
    (builder s : Bytes) → append_escaped_json_string builder s ≡ builder ++ quoted s
unfolding append_escaped_json_string
append_escaped_json_string_lem builder s =
    ap (λ b. b ++ 34 ∷ []) (append_escaped_lem (builder ++ 34 ∷ []) s)
    ∙ append_assoc (builder ++ 34 ∷ []) (json_escape s) (34 ∷ [])
    ∙ append_assoc builder (34 ∷ []) (json_escape s ++ 34 ∷ [])

unfoldable pub value_text : ColumnType → Cell → Bytes
value_text col_type null = bytes "null"
value_text col_type (text s) = if is_numeric col_type then s else quoted s

append_json_value_lem :
    (builder : Bytes) (col_type : ColumnType) (cell : Cell)
    → append_json_value builder col_type cell ≡ builder ++ value_text col_type cell
unfolding append_json_value value_text
append_json_value_lem builder col_type null = refl
append_json_value_lem builder col_type (text s) = elim (Bool-cases (is_numeric col_type)) [
  | inl number ↦ rw number refl
  | inr other ↦ rw other (append_escaped_json_string_lem builder s)
]

unfoldable pub columns_text : List (ColumnMeta × Cell) → Bytes
columns_text [] = []
columns_text ((meta, cell) ∷ rest) =
    let mark : Bytes = if is_empty rest then [] else b',' ∷ [] in
    quoted meta.name ++ (b':' ∷ (value_text meta.type_ cell ++ (mark ++ columns_text rest)))

pub member_lem :
    (builder : Bytes) (meta : ColumnMeta) (cell : Cell)
    → append_json_value (append_escaped_json_string builder meta.name ++ b':' ∷ []) meta.type_ cell
      ≡ builder ++ (quoted meta.name ++ (b':' ∷ value_text meta.type_ cell))
member_lem builder meta cell =
    let v = value_text meta.type_ cell in
    append_json_value_lem (append_escaped_json_string builder meta.name ++ b':' ∷ []) meta.type_
      cell
    ∙ ap (λ b. (b ++ b':' ∷ []) ++ v) (append_escaped_json_string_lem builder meta.name)
    ∙ append_assoc (builder ++ quoted meta.name) (b':' ∷ []) v
    ∙ append_assoc builder (quoted meta.name) (b':' ∷ v)

unfoldable pub row_text : List (ColumnMeta × Cell) → Bytes
row_text columns = b'{' ∷ (columns_text columns ++ b'}' ∷ [])

abbrev pub zip_columns : List ColumnMeta → List Cell → List (ColumnMeta × Cell)
zip_columns (m ∷ ms) (c ∷ cs) = (m, c) ∷ zip_columns ms cs
zip_columns [] cs = []
zip_columns (m ∷ ms) [] = []

unfoldable pub rows_text : List ColumnMeta → Bool → List (List Cell) → Bytes
rows_text meta first_row [] = []
rows_text meta first_row (cells ∷ rest) =
    let mark : Bytes = if first_row then [] else b',' ∷ [] in
    mark ++ (row_text (zip_columns meta cells) ++ rows_text meta false rest)
