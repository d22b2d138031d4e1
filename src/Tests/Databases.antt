-- ===== src/Tests/Databases.antt =====
-- Runs of the theorems on the database calls of src/sql.tpp and src/sql.cpp.
use apiserver_asymetric_encr.Base.{
  ltb, if◌then◌else◌, All, pos, ℕ, ◌+◌, ◌≡◌, refl, ◌↔◌, true, none, some, List, [], ◌∷◌, ◌++◌, map,
  arith,
}
use apiserver_asymetric_encr.Text.{Bytes, bytes, same}
use apiserver_asymetric_encr.Sql.Rows.{Cell, text, null, Row}
use apiserver_asymetric_encr.Sql.Fetch.{sql_success, sql_no_data, past_buffer, fetch_chunks}
use apiserver_asymetric_encr.Sql.Fetch.Chunks.{driver_calls, fetch_chunks-driver_calls}
use apiserver_asymetric_encr.Sql.Json.{sql_integer, other_type, is_numeric, ColumnMeta}
use apiserver_asymetric_encr.Sql.Describe.{described}
use apiserver_asymetric_encr.Sql.Json.Build.{fetch_and_build_json}
use apiserver_asymetric_encr.Sql.Json.Built.{json_row_calls}
use apiserver_asymetric_encr.Sql.Json.Number.{is_json_number, is_number_from, number_step}
use apiserver_asymetric_encr.Sql.Json.Table.{IsRow, object_of, read_array-fetch_and_build_json}
use apiserver_asymetric_encr.Sql.Json.Reader.{read_array}
use apiserver_asymetric_encr.Sql.Calls.{
  sql_error, returned, failed, Thread, find_key, erase_key, update_key, Odbc, open_connection,
  get_connection, prepare_statement, get_or_create_statement, run_statement, attempt_once,
  invalidate_connection, catch_error, attempts, call,
}
use apiserver_asymetric_encr.Sql.Calls.Retry.{settled, is_broken, settle, attempts_lem}
use apiserver_asymetric_encr.Sql.Calls.Reuse.{call_reuse}
use apiserver_asymetric_encr.Sql.Results.{read_all}
use apiserver_asymetric_encr.Sql.Params.{
  string_value, int_value, Arg, plain, Driver, make_binding_tuple,
}
use apiserver_asymetric_encr.Sql.Params.Retried.{IsKept, whole, execute-again}

-- A database that counts the calls, and whose first connection is lost when a statement runs.
abbrev lossy : Odbc ℕ ℕ Bytes ℕ
lossy = record {
  setting = λ db_key. some (bytes "DSN=main");
  connect = λ conn_str w. (w + 1, returned w);
  prepare = λ dbc sql_query w. (w + 1, returned w);
  execute = λ stmt w. (w + 1, if ltb w 3 then failed (sql_error (bytes "08S01")) else returned tt);
  fetch = λ stmt w. (w + 1, returned (bytes "row"));
  close = λ stmt w. w + 1;
}

abbrev fresh : Thread ℕ ℕ ℕ
fresh = record { connections = []; world = 0 }

abbrev after_first : Thread ℕ ℕ ℕ
after_first = record {
  connections = (bytes "LOGIN", record { dbc = 3; statements = (bytes "select 1", 4) ∷ [] }) ∷ [];
  world = 8;
}

first_call :
    call lossy (bytes "LOGIN") (bytes "select 1") fresh ≡ (after_first, returned (bytes "row"))
unfolding call attempts catch_error invalidate_connection attempt_once get_connection
    open_connection get_or_create_statement prepare_statement run_statement find_key erase_key
    update_key same
first_call = refl

attempts_lem_example :
    let (t1, first) = attempt_once lossy (bytes "LOGIN") (bytes "select 1") fresh in
    attempts lossy (bytes "LOGIN") (bytes "select 1") 2 1 fresh ≡ (
      if is_broken first
      then settle lossy (bytes "LOGIN") (bytes "select 1") (
          attempt_once lossy
            (bytes "LOGIN")
            (bytes "select 1")
            (invalidate_connection lossy (bytes "LOGIN") (bytes "select 1") t1))
      else (t1, settled first))
attempts_lem_example = attempts_lem lossy (bytes "LOGIN") (bytes "select 1") 0 fresh

call_reuse_example :
    (stmt : ℕ) × (attempt_once lossy (bytes "LOGIN") (bytes "select 1") after_first
      ≡ run_statement lossy (bytes "LOGIN") (bytes "select 1") stmt after_first)
call_reuse_example =
    call_reuse lossy (bytes "LOGIN") (bytes "select 1") fresh after_first (bytes "row") first_call

-- Four bytes a call, for a text of five.
fetch_chunks-driver_calls_example :
    fetch_chunks true 4 [] (driver_calls 2 4 (bytes "12345")) ≡ past_buffer
fetch_chunks-driver_calls_example = fetch_chunks-driver_calls true 4 0 (bytes "12345") (omega arith)

abbrev meta : List ColumnMeta
meta =
    record { name = bytes "id"; type_ = sql_integer }
    ∷ record { name = bytes "name"; type_ = other_type }
    ∷ []

abbrev named : List (List Cell)
named = (text (bytes "7") ∷ text (34 ∷ 10 ∷ []) ∷ []) ∷ (null ∷ null ∷ []) ∷ []

first_number : is_numeric sql_integer ≡ true → is_json_number (bytes "7") ≡ true
unfolding is_number_from number_step
first_number h = refl

second_text : is_numeric other_type ≡ true → is_json_number (34 ∷ 10 ∷ []) ≡ true
unfolding is_numeric
second_text h = absurd (ground arith)

named_fit : All (IsRow meta (omega arith)) named
named_fit = ((refl, (first_number, (second_text, tt))), ((refl, (tt, (tt, tt))), tt))

-- The two rows; then SQLFetch has no data.
read_array-fetch_and_build_json_example :
    (text : Bytes) × (fetch_and_build_json
        (sql_success, none)
        (map (described []) meta)
        (map json_row_calls named ++ ((sql_no_data, []) ∷ []))
      ≡ read_all (some text))
    × (read_array 2 2 text ≡ some (map (object_of meta (omega arith)) named, []))
read_array-fetch_and_build_json_example =
    read_array-fetch_and_build_json meta (omega arith) [] named sql_no_data []
      (omega arith, (omega arith, tt)) named_fit
      ((omega arith, (omega arith, tt)), ((tt, (tt, tt)), tt)) refl

-- Two rows; then SQLFetch has a warning, and the loop ends.
abbrev people : List Row
people =
    ((bytes "id", text (bytes "7")) ∷ (bytes "name", text (bytes "ann")) ∷ [])
    ∷ ((bytes "id", text (bytes "8")) ∷ (bytes "name", null) ∷ [])
    ∷ []

-- A driver that counts the calls and accepts every one.
abbrev patient : Driver ℕ ℕ ℕ
patient = record {
  reset_params = λ stmt w. w + 1;
  bind_parameter = λ stmt b w. (w + 1, sql_success, none);
  sql_execute = λ stmt w. (w + 1, sql_success, none);
}

abbrev date_text : ℕ → Bytes
date_text d = bytes "2024-01-01"

abbrev emptied : Bytes → Bytes
emptied s = []

-- A user's name that came as an rvalue.
abbrev moved_args : List (Arg ℕ ℕ)
moved_args = plain (string_value true (bytes "ann")) ∷ plain (int_value (pos 3)) ∷ []

execute-again_example :
    let ((args', db'), outcome) =
      (whole date_text emptied lossy patient).execute 4 (moved_args, 0) in
    ((make_binding_tuple date_text emptied args').1
      ≡ (make_binding_tuple date_text emptied moved_args).1)
    ↔ All (IsKept date_text emptied) moved_args
execute-again_example = execute-again date_text emptied lossy patient 4 moved_args 0
