-- ===== src/Sql/Json/Build.antt =====
-- The loops over the columns and the rows of a JSON result: `append_json_row` and
-- `fetch_and_build_json` of src/sql.tpp. What the calls of ODBC return is an argument.
use apiserver_asymetric_encr.Base.{
  if◌then◌else◌, is_empty, Bool, true, false, Option, none, some, List, [], ◌∷◌, ◌++◌,
}
use apiserver_asymetric_encr.Text.{Bytes, bytes}
use apiserver_asymetric_encr.Sql.Fetch.{
  ReturnCode, is_success, GetData, complete, thrown, past_buffer, unfinished, fetch_chunks,
}
use apiserver_asymetric_encr.Sql.Results.{check_odbc_error, Read, read_all, raised, stuck, cell_of}
use apiserver_asymetric_encr.Sql.Json.{ColumnMeta, append_escaped_json_string, append_json_value}
use apiserver_asymetric_encr.Sql.Describe.{Describe, get_result_metadata}

-- The loop over the columns, each with what SQLGetData returns for it.
unfoldable pub append_columns : Bytes → List (ColumnMeta × List GetData) → Read Bytes
append_columns builder [] = read_all builder
append_columns builder ((meta, calls) ∷ rest) = elim (fetch_chunks false 8192 [] calls) [
  | complete cell_data indicator ↦
      let value_end =
        append_json_value (append_escaped_json_string builder meta.name ++ b':' ∷ []) meta.type_
          (cell_of cell_data indicator) in
      append_columns (if is_empty rest then value_end else value_end ++ b',' ∷ []) rest
  | thrown ↦ stuck thrown
  | past_buffer ↦ stuck past_buffer
  | unfinished ↦ stuck unfinished
]

unfoldable pub append_json_row : Bytes → List (ColumnMeta × List GetData) → Read Bytes
append_json_row builder columns = elim (append_columns (builder ++ b'{' ∷ []) columns) [
  | raised e ↦ raised e
  | stuck f ↦ stuck f
  | read_all longer ↦ read_all (longer ++ b'}' ∷ [])
]

-- The calls for each column; a column without has none at hand.
abbrev pub with_calls : List ColumnMeta → List (List GetData) → List (ColumnMeta × List GetData)
with_calls [] calls = []
with_calls (m ∷ ms) [] = (m, []) ∷ with_calls ms []
with_calls (m ∷ ms) (c ∷ cs) = (m, c) ∷ with_calls ms cs

-- The loop over the rows: it goes on while SQLFetch returns SQL_SUCCESS.
unfoldable pub append_rows :
    List ColumnMeta → Bool → Bytes → List (ReturnCode × List (List GetData)) → Read Bytes
append_rows meta first_row builder [] = stuck unfinished
append_rows meta first_row builder ((code, calls) ∷ later) = elim (is_success code) [
  | false ↦ read_all builder
  | true ↦
      elim (append_json_row (if first_row then builder else builder ++ b',' ∷ [])
        (with_calls meta calls)) [
          | raised e ↦ raised e
          | stuck f ↦ stuck f
          | read_all longer ↦ append_rows meta false longer later
        ]
]

-- `code` and `diagnosis` are what SQLNumResultCols returns and its diagnostic record; there is a
-- call of SQLDescribeCol for each of the columns that it counts.
unfoldable pub fetch_and_build_json :
    ReturnCode × Option Bytes
    → List Describe
    → List (ReturnCode × List (List GetData))
    → Read (Option Bytes)
fetch_and_build_json (code, diagnosis) columns fetched = elim (check_odbc_error code diagnosis) [
  | some e ↦ raised e
  | none ↦ elim (is_empty columns) [
    | true ↦ read_all (some (bytes "[]"))
    | false ↦ elim (get_result_metadata columns) [
      | raised e ↦ raised e
      | stuck f ↦ stuck f
      | read_all meta ↦ elim (append_rows meta true (b'[' ∷ []) fetched) [
        | raised e ↦ raised e
        | stuck f ↦ stuck f
        | read_all longer ↦ read_all (some (longer ++ b']' ∷ []))
      ]
    ]
  ]
]
