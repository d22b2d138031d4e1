-- ===== src/Sql/Json/Built.antt =====
-- What the loops of `fetch_and_build_json` of src/sql.tpp build with a driver that does what the ODBC
-- reference says.
use mathlib.Core.List.{append-nil, append_assoc}
use apiserver_asymetric_encr.Base.{
  if◌then◌else◌, is_empty, length, All, ◌<◌, ◌≡◌, refl, sym, ap, ◌∙◌, Bool, true, false, none, some,
  List, [], ◌∷◌, ◌++◌, map, arith,
}
use apiserver_asymetric_encr.Text.{Bytes}
use apiserver_asymetric_encr.Sql.Rows.{Cell, text, null}
use apiserver_asymetric_encr.Sql.Fetch.{
  ReturnCode, sql_success, is_success, GetData, store_chunk, fetch_chunks,
}
use apiserver_asymetric_encr.Sql.Fetch.Chunks.{fetch_short}
use apiserver_asymetric_encr.Sql.Results.{check_odbc_error, read_all, cell_of}
use apiserver_asymetric_encr.Sql.Results.Whole.{cell_calls}
use apiserver_asymetric_encr.Sql.Json.{ColumnMeta, append_escaped_json_string, append_json_value}
use apiserver_asymetric_encr.Sql.Json.Plain.{
  quoted, value_text, member_lem, columns_text, row_text, zip_columns, rows_text,
}
use apiserver_asymetric_encr.Sql.Json.Build.{
  append_columns, append_json_row, with_calls, append_rows, fetch_and_build_json,
}
use apiserver_asymetric_encr.Sql.Describe.{described, get_result_metadata-described}

-- A text that fits in the buffer with its terminator, or a null.
abbrev pub FitsBuffer : Cell → Type 0
FitsBuffer (text v) = length v < 8192
FitsBuffer null = Unit

-- The answer of SQLFetch to a row, and those of SQLGetData to its cells.
abbrev pub json_row_calls : List Cell → ReturnCode × List (List GetData)
json_row_calls cells = (sql_success, map (cell_calls 8192) cells)

-- One round of the loop over the columns.
append_columns-cell :
    (builder : Bytes) (meta : ColumnMeta) (cell : Cell) (rest : List (ColumnMeta × List GetData))
    → FitsBuffer cell
    → append_columns builder ((meta, cell_calls 8192 cell) ∷ rest) ≡ (
        let value_end =
          append_json_value
            (append_escaped_json_string builder meta.name ++ b':' ∷ [])
            meta.type_
            cell in
        append_columns (if is_empty rest then value_end else value_end ++ b',' ∷ []) rest)
unfolding append_columns fetch_chunks store_chunk cell_of
append_columns-cell builder meta null rest h = refl
append_columns-cell builder meta (text v) rest h =
    rw (fetch_short false 8192 0 [] v h, append_columns) refl

append_columns_lem :
    (builder : Bytes) (meta : List ColumnMeta) (cells : List Cell)
    → length cells ≡ length meta
    → All FitsBuffer cells
    → append_columns builder (with_calls meta (map (cell_calls 8192) cells))
      ≡ read_all (builder ++ columns_text (zip_columns meta cells))
unfolding append_columns columns_text
append_columns_lem builder [] [] e h = ap read_all (sym (append-nil builder))
append_columns_lem builder [] (c ∷ cells) e h = absurd (omega arith)
append_columns_lem builder (m ∷ meta) [] e h = absurd (omega arith)
append_columns_lem builder (m ∷ []) (c ∷ []) e h =
    append_columns-cell builder m c [] h.0
    ∙ ap read_all (
        member_lem builder m c
        ∙ ap (λ v. builder ++ (quoted m.name ++ (b':' ∷ v)))
            (sym (append-nil (value_text m.type_ c))))
append_columns_lem builder (m ∷ []) (c ∷ d ∷ cells) e h = absurd (omega arith)
append_columns_lem builder (m ∷ n ∷ meta) (c ∷ []) e h = absurd (omega arith)
append_columns_lem builder (m ∷ n ∷ meta) (c ∷ d ∷ cells) e (h, hs) =
    let value_end =
      append_json_value (append_escaped_json_string builder m.name ++ b':' ∷ []) m.type_ c in
    let v = value_text m.type_ c in
    let behind = columns_text (zip_columns (n ∷ meta) (d ∷ cells)) in
    append_columns-cell builder m c (with_calls (n ∷ meta) (map (cell_calls 8192) (d ∷ cells))) h
    ∙ append_columns_lem (value_end ++ b',' ∷ []) (n ∷ meta) (d ∷ cells) (omega arith) hs
    ∙ ap read_all (
        append_assoc value_end (b',' ∷ []) behind
        ∙ ap (λ b. b ++ (b',' ∷ behind)) (member_lem builder m c)
        ∙ append_assoc builder (quoted m.name ++ (b':' ∷ v)) (b',' ∷ behind)
        ∙ ap (λ t. builder ++ t) (append_assoc (quoted m.name) (b':' ∷ v) (b',' ∷ behind)))

append_json_row_lem :
    (builder : Bytes) (meta : List ColumnMeta) (cells : List Cell)
    → length cells ≡ length meta
    → All FitsBuffer cells
    → append_json_row builder (with_calls meta (map (cell_calls 8192) cells))
      ≡ read_all (builder ++ row_text (zip_columns meta cells))
unfolding append_json_row row_text
append_json_row_lem builder meta cells e h =
    let columns = columns_text (zip_columns meta cells) in
    rw (append_columns_lem (builder ++ b'{' ∷ []) meta cells e h, append_json_row)
      (ap read_all (
        append_assoc (builder ++ b'{' ∷ []) columns (b'}' ∷ [])
        ∙ append_assoc builder (b'{' ∷ []) (columns ++ b'}' ∷ [])))

append_rows_lem :
    (meta : List ColumnMeta) (first_row : Bool) (builder : Bytes) (rows : List (List Cell))
    (code : ReturnCode) (later : List (ReturnCode × List (List GetData)))
    → All (λ cells. length cells ≡ length meta) rows
    → All (All FitsBuffer) rows
    → is_success code ≡ false
    → append_rows meta first_row builder (map json_row_calls rows ++ ((code, []) ∷ later))
      ≡ read_all (builder ++ rows_text meta first_row rows)
unfolding append_rows rows_text
append_rows_lem meta first_row builder [] code later e h stop =
    rw (stop, append_rows) (ap read_all (sym (append-nil builder)))
append_rows_lem meta true builder (cells ∷ rows) code later e h stop =
    let row = row_text (zip_columns meta cells) in
    rw (append_json_row_lem builder meta cells e.0 h.0, append_rows)
      (append_rows_lem meta false (builder ++ row) rows code later e.1 h.1 stop
        ∙ ap read_all (append_assoc builder row (rows_text meta false rows)))
append_rows_lem meta false builder (cells ∷ rows) code later e h stop =
    let row = row_text (zip_columns meta cells) in
    let behind = rows_text meta false rows in
    rw (append_json_row_lem (builder ++ b',' ∷ []) meta cells e.0 h.0, append_rows)
      (append_rows_lem meta false ((builder ++ b',' ∷ []) ++ row) rows code later e.1 h.1 stop
        ∙ ap read_all (
            append_assoc (builder ++ b',' ∷ []) row behind
            ∙ append_assoc builder (b',' ∷ []) (row ++ behind)))

-- The text of the whole array.
pub fetch_and_build_json_lem :
    (spare : Bytes) (meta : List ColumnMeta) (rows : List (List Cell)) (code : ReturnCode)
    (later : List (ReturnCode × List (List GetData)))
    → 0 < length meta
    → All (λ m. length m.name < 256) meta
    → All (λ cells. length cells ≡ length meta) rows
    → All (All FitsBuffer) rows
    → is_success code ≡ false
    → fetch_and_build_json
        (sql_success, none)
        (map (described spare) meta)
        (map json_row_calls rows ++ ((code, []) ∷ later))
      ≡ read_all (some (b'[' ∷ (rows_text meta true rows ++ b']' ∷ [])))
unfolding fetch_and_build_json check_odbc_error
fetch_and_build_json_lem spare [] rows code later some_columns names e h stop = absurd (omega arith)
fetch_and_build_json_lem spare (m ∷ meta) rows code later some_columns names e h stop =
    rw (get_result_metadata-described spare (m ∷ meta) names, fetch_and_build_json)
      (rw (append_rows_lem (m ∷ meta) true (b'[' ∷ []) rows code later e h stop) refl)
