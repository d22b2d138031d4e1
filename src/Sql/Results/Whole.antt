-- ===== src/Sql/Results/Whole.antt =====
-- A result set whose texts fit in the buffer of src/sql.cpp and src/sql.tpp is read whole.
use mathlib.Core.List.{append_assoc, append-nil}
use apiserver_asymetric_encr.Base.{
  if◌then◌else◌, length, is_empty, All, negsuc, ℕ, ◌<◌, ◌≡◌, refl, sym, ap, ◌∙◌, true, Option, none,
  some, List, [], ◌∷◌, ◌++◌, map,
}
use apiserver_asymetric_encr.Text.{Bytes}
use apiserver_asymetric_encr.Sql.Rows.{Cell, text, null, Row}
use apiserver_asymetric_encr.Sql.Fetch.{ReturnCode, sql_success, sql_no_data, GetData}
use apiserver_asymetric_encr.Sql.Fetch.Chunks.{driver_calls, fetch_short}
use apiserver_asymetric_encr.Sql.Results.{
  check_odbc_error, read_all, fetch_json_rows, fetch_json_result,
}
use apiserver_asymetric_encr.Reads.Stream.{concat}

-- A text that fits with its terminator, or a null.
abbrev pub IsShort : ℕ → Bytes × Cell → Type 0
IsShort size (name, text v) = length v < size
IsShort size (name, null) = Unit

-- What SQLGetData returns for a cell.
abbrev pub cell_calls : ℕ → Cell → List GetData
cell_calls size (text v) = driver_calls 2 size v
cell_calls size null = record { code = sql_success; indicator = negsuc 0; buffer = [] } ∷ []

abbrev pub column_calls : Bytes × Cell → Bytes × List GetData
column_calls (name, cell) = (name, cell_calls 4096 cell)

-- The answer of SQLFetch to a row, and the row.
abbrev pub row_calls : Row → ReturnCode × List (Bytes × List GetData)
row_calls r = (sql_success, map column_calls r)

-- The answer of SQLFetch to a row of one column, and its text.
abbrev text_calls : Bytes → (ReturnCode × Option Bytes) × List GetData
text_calls v = ((sql_success, none), driver_calls 2 8192 v)

abbrev end_of_data : (ReturnCode × Option Bytes) × List GetData
end_of_data = ((sql_no_data, none), [])

-- With such a driver and such texts, `get` gives the texts of the rows' first column one behind the
-- other, and no value where there is no row.
fetch_json_result-texts :
    (texts : List Bytes) (later : List ((ReturnCode × Option Bytes) × List GetData))
    → All (λ v. length v < 8192) texts
    → fetch_json_result (map text_calls texts ++ (end_of_data ∷ later))
      ≡ read_all (if is_empty texts then none else some (concat texts))
unfolding fetch_json_result fetch_json_rows check_odbc_error
fetch_json_result-texts [] later h = refl
fetch_json_result-texts (v ∷ texts) later h =
    rw (fetch_short true 8192 0 [] v h.0, fetch_json_rows) (all_texts v texts h.1)
  where
    all_texts :
        (builder : Bytes) (texts : List Bytes)
        → All (λ v. length v < 8192) texts
        → fetch_json_rows true builder (map text_calls texts ++ (end_of_data ∷ later))
          ≡ read_all (some (builder ++ concat texts))
    all_texts builder [] h = ap (λ s. read_all (some s)) (sym (append-nil builder))
    all_texts builder (v ∷ texts) h =
        rw (fetch_short true 8192 0 builder v h.0, fetch_json_rows)
          (all_texts (builder ++ v) texts h.1
            ∙ ap (λ s. read_all (some s)) (append_assoc builder v (concat texts)))
