-- ===== src/Sql/Json.antt =====
-- The JSON text of a result set: the names and the values, from `append_escaped_json_string` to
-- `append_json_value` of src/sql.tpp. A builder is the text so far.
pub mod Plain
pub mod Build
pub mod Built
pub mod Number
pub mod Reader
pub mod RoundTrip
pub mod Table
use apiserver_asymetric_encr.Base.{
  ltb, leb, ◌==◌, if◌then◌else◌, ℕ, Bool, true, false, ◌&&◌, [], ◌∷◌, ◌++◌,
}
use apiserver_asymetric_encr.Text.{Bytes, bytes}
use apiserver_asymetric_encr.Logger.{unicode_escape}
use apiserver_asymetric_encr.Sql.Rows.{Cell, text, null}

-- The `switch` on one byte. A `char` is signed, so a byte from 128 on is below '\x00'.
unfoldable pub escape_sql_byte : ℕ → Bytes
escape_sql_byte c =
    if c == 34
    then 92 ∷ 34 ∷ []
    else if c == 92
    then 92 ∷ 92 ∷ []
    else if c == 8
    then 92 ∷ 98 ∷ []
    else if c == 12
    then 92 ∷ 102 ∷ []
    else if c == 10
    then 92 ∷ 110 ∷ []
    else if c == 13
    then 92 ∷ 114 ∷ []
    else if c == 9
    then 92 ∷ 116 ∷ []
    else if ltb c 128 && leb c 31
    then unicode_escape c
    else c ∷ []

unfoldable pub append_escaped : Bytes → Bytes → Bytes
append_escaped builder [] = builder
append_escaped builder (c ∷ cs) = append_escaped (builder ++ escape_sql_byte c) cs

unfoldable pub append_escaped_json_string : Bytes → Bytes → Bytes
append_escaped_json_string builder sv = append_escaped (builder ++ 34 ∷ []) sv ++ 34 ∷ []

pub data ColumnType : Type 0 where
  sql_bit sql_tinyint sql_smallint sql_integer sql_bigint : ColumnType
  sql_real sql_float sql_double sql_decimal sql_numeric : ColumnType
  other_type : ColumnType

-- The types whose values are not quoted.
unfoldable pub is_numeric : ColumnType → Bool
is_numeric other_type = false
is_numeric sql_bit = true
is_numeric sql_tinyint = true
is_numeric sql_smallint = true
is_numeric sql_integer = true
is_numeric sql_bigint = true
is_numeric sql_real = true
is_numeric sql_float = true
is_numeric sql_double = true
is_numeric sql_decimal = true
is_numeric sql_numeric = true

pub record ColumnMeta : Type 0 where
  pub name : Bytes
  pub type_ : ColumnType

-- A cell is null where the indicator is SQL_NULL_DATA.
unfoldable pub append_json_value : Bytes → ColumnType → Cell → Bytes
append_json_value builder col_type null = builder ++ bytes "null"
append_json_value builder col_type (text value_sv) =
    if is_numeric col_type then builder ++ value_sv else append_escaped_json_string builder value_sv
