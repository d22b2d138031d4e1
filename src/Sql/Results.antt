-- ===== src/Sql/Results.antt =====
-- What a query returns: `fetch_single_row`, `fetch_all` and `check_odbc_error` of src/sql.cpp, and
-- `fetch_json_result` of src/sql.tpp. What SQLFetch and SQLGetData return is an argument.
pub mod Whole
use apiserver_asymetric_encr.Base.{
  ◌==◌, if◌then◌else◌, value_or, ℤ, pos, negsuc, ℕ, Bool, true, false, Option, none, some, List, [],
  ◌∷◌,
}
use apiserver_asymetric_encr.Text.{Bytes}
use apiserver_asymetric_encr.Sql.Rows.{Cell, text, null, Row}
use apiserver_asymetric_encr.Sql.Fetch.{
  ReturnCode, sql_success, sql_success_with_info, sql_no_data, sql_failure, is_success, is_no_data,
  GetData, Fetched, complete, thrown, past_buffer, unfinished, fetch_chunks,
}
use apiserver_asymetric_encr.Sql.Calls.{Error, sql_error}

-- `diagnosis` is the SQLSTATE of the first diagnostic record, if there is one; `none` where the
-- function returns.
unfoldable pub check_odbc_error : ReturnCode → Option Bytes → Option Error
check_odbc_error sql_success diagnosis = none
check_odbc_error sql_success_with_info diagnosis = none
check_odbc_error sql_no_data diagnosis = none
check_odbc_error sql_failure diagnosis = some (sql_error (value_or diagnosis []))

-- What is fetched, or the way in which a column's loop did not end well.
pub data Read (A : Type 0) : Type 0 where
  read_all : A → Read A
  raised : Error → Read A
  stuck : Fetched → Read A

-- SQL_NULL_DATA is -1.
abbrev pub is_null_data : ℤ → Bool
is_null_data (pos n) = false
is_null_data (negsuc n) = n == 0

unfoldable pub cell_of : Bytes → ℤ → Cell
cell_of cell_data indicator = if is_null_data indicator then null else text cell_data

-- `fetch_single_row`: the columns by name, each with what SQLGetData returns for it.
unfoldable pub fetch_single_row : List (Bytes × List GetData) → Read Row
fetch_single_row [] = read_all []
fetch_single_row ((name, calls) ∷ rest) = elim (fetch_chunks false 4096 [] calls) [
  | complete cell_data indicator ↦ elim (fetch_single_row rest) [
    | read_all row ↦ read_all ((name, cell_of cell_data indicator) ∷ row)
    | raised e ↦ raised e
    | stuck f ↦ stuck f
  ]
  | thrown ↦ stuck thrown
  | past_buffer ↦ stuck past_buffer
  | unfinished ↦ stuck unfinished
]

-- The loop of `fetch_all`, on what SQLFetch returns and the calls of its row.
unfoldable pub fetch_rows : List (ReturnCode × List (Bytes × List GetData)) → Read (List Row)
fetch_rows [] = stuck unfinished
fetch_rows ((code, columns) ∷ later) = elim (is_success code) [
  | false ↦ read_all []
  | true ↦ elim (fetch_single_row columns) [
    | raised e ↦ raised e
    | stuck f ↦ stuck f
    | read_all row ↦ elim (fetch_rows later) [
      | read_all rows ↦ read_all (row ∷ rows)
      | raised e ↦ raised e
      | stuck f ↦ stuck f
    ]
  ]
]

-- `fetch_all`: `num_cols` is what SQLNumResultCols gives.
unfoldable pub fetch_all : ℕ → List (ReturnCode × List (Bytes × List GetData)) → Read (List Row)
fetch_all num_cols fetched = if num_cols == 0 then read_all [] else fetch_rows fetched

-- The loop of `fetch_json_result`, from the text so far.
unfoldable pub fetch_json_rows :
    Bool → Bytes → List ((ReturnCode × Option Bytes) × List GetData) → Read (Option Bytes)
fetch_json_rows has_data result_string [] = stuck unfinished
fetch_json_rows has_data result_string (((code, diagnosis), calls) ∷ later) =
    elim (is_no_data code) [
      | true ↦ read_all (if has_data then some result_string else none)
      | false ↦ elim (check_odbc_error code diagnosis) [
        | some e ↦ raised e
        | none ↦ elim (fetch_chunks true 8192 result_string calls) [
          | complete longer indicator ↦ fetch_json_rows true longer later
          | thrown ↦ stuck thrown
          | past_buffer ↦ stuck past_buffer
          | unfinished ↦ stuck unfinished
        ]
      ]
    ]

unfoldable pub fetch_json_result :
    List ((ReturnCode × Option Bytes) × List GetData) → Read (Option Bytes)
fetch_json_result fetched = fetch_json_rows false [] fetched
