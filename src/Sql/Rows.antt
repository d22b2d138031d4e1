-- ===== src/Sql/Rows.antt =====
-- The rows of a result set: `row` and `resultset` of src/sql.hpp, and `get_value` of src/sql.cpp.
use apiserver_asymetric_encr.Base.{if◌then◌else◌, Option, none, some, List, [], ◌∷◌}
use apiserver_asymetric_encr.Text.{Bytes, same}

-- What a cell holds, a `std::any`: a text, or nothing where the column is null.
pub data Cell : Type 0 where
  text : Bytes → Cell
  null : Cell

abbrev pub Row : Type 0
Row = List (Bytes × Cell)

unfoldable pub find_cell : Bytes → Row → Option Cell
find_cell col_name [] = none
find_cell col_name ((name, cell) ∷ rest) =
    if same name col_name then some cell else find_cell col_name rest

-- `get_value<T>`: `cast` is `std::any_cast<T>`; `none` is the exception `sql::error`, of a column
-- that is not there or holds another type.
unfoldable pub get_value : {T : Type 0} → (Cell → Option T) → Bytes → Row → Option T
get_value cast col_name r = elim (find_cell col_name r) [ none ↦ none | some cell ↦ cast cell ]

-- `std::any_cast<std::string>`.
unfoldable pub cast_string : Cell → Option Bytes
cast_string (text s) = some s
cast_string null = none

-- `std::any_cast` to `int`, `long`, `double` or `bool`: no cell holds such a value.
unfoldable pub cast_number : {T : Type 0} → Cell → Option T
cast_number (text s) = none
cast_number null = none
