-- ===== src/Sql/Fetch.antt =====
-- Reading the text of one column: the loops around SQLGetData in `fetch_column_chunks` and
-- `append_json_row` of src/sql.tpp (8192 bytes a call) and in `fetch_single_row` of src/sql.cpp
-- (4096 bytes). What the calls return is an argument.
pub mod Chunks
use apiserver_asymetric_encr.Base.{
  ltb, ◌==◌, if◌then◌else◌, take, ℤ, pos, negsuc, ℕ, Bool, true, false, ◌&&◌, List, [], ◌∷◌, ◌++◌,
}
use apiserver_asymetric_encr.Text.{Bytes}

pub data ReturnCode : Type 0 where
  sql_success sql_success_with_info sql_no_data sql_failure : ReturnCode

abbrev pub is_success : ReturnCode → Bool
is_success sql_success = true
is_success _ = false

abbrev pub is_no_data : ReturnCode → Bool
is_no_data sql_no_data = true
is_no_data _ = false

abbrev pub is_failure : ReturnCode → Bool
is_failure sql_failure = true
is_failure _ = false

abbrev pub has_info : ReturnCode → Bool
has_info sql_success_with_info = true
has_info _ = false

-- One call of SQLGetData: what it returns, the indicator, and the buffer as it leaves it.
pub record GetData : Type 0 where
  pub code : ReturnCode
  pub indicator : ℤ
  pub buffer : Bytes

pub data Fetched : Type 0 where
  -- The text, with the indicator of the last call.
  complete : Bytes → ℤ → Fetched
  -- `check_odbc_error` throws.
  thrown : Fetched
  -- The size that the callback returns is past the buffer that it was given.
  past_buffer : Fetched
  -- The calls at hand are used up and the loop goes on.
  unfinished : Fetched

-- What the callback makes of a call that returned data or a null.
pub data Stored : Type 0 where
  no_bytes past_end : Stored
  appended : Bytes → Stored

unfoldable pub store_chunk : ℕ → Bytes → GetData → Stored
store_chunk size cell call = elim call.indicator [
  | negsuc n ↦ no_bytes
  | pos n ↦
      if n == 0
      then no_bytes
      else if ltb size n
      then past_end
      else appended (cell ++ take n call.buffer)
]

-- The loop; `checks` is whether `check_odbc_error` is called in it. After SQL_NO_DATA the flag that
-- ends the loop is not set.
unfoldable pub fetch_chunks : Bool → ℕ → Bytes → List GetData → Fetched
unfolding store_chunk
fetch_chunks checks size cell [] = unfinished
fetch_chunks checks size cell (call ∷ calls) =
    let again = fetch_chunks checks size cell calls in
    if is_no_data call.code
    then again
    else if checks && is_failure call.code
    then thrown
    else elim (store_chunk size cell call) [
      | no_bytes ↦ complete cell call.indicator
      | past_end ↦ past_buffer
      | appended longer ↦ elim (has_info call.code) [
        | true ↦ fetch_chunks checks size longer calls
        | false ↦ complete longer call.indicator
      ]
    ]
