-- ===== src/Sql/Params.antt =====
-- The parameters of a database call: `make_binding_tuple` and `bind_all_params` of src/sql.tpp, and
-- the part of the calls `get`, `query`, `exec` and `get_json` from there to SQLExecute. `format_date`
-- is the text of a date, and `moved` what a `std::string` holds that was moved from. `DB` is the
-- database as ODBC shows it.
pub mod Retried
use apiserver_asymetric_encr.Base.{
  ltb, if◌then◌else◌, length, ℤ, pos, ℕ, suc, ◌-◌, ◌^◌, Bool, true, false, Option, none, some, List,
  [], ◌∷◌, map,
}
use apiserver_asymetric_encr.Text.{Bytes}
use apiserver_asymetric_encr.Text.Numbers.{negated}
use apiserver_asymetric_encr.Sql.Fetch.{ReturnCode}
use apiserver_asymetric_encr.Sql.Results.{check_odbc_error}
use apiserver_asymetric_encr.Sql.Calls.{Outcome, returned, failed, Odbc}

-- A value that the caller passes, by its type. A `std::string` shows whether it came as an rvalue.
pub data ParamValue (F Date : Type 0) : Type 0 where
  string_value : Bool → Bytes → ParamValue F Date
  int_value : ℤ → ParamValue F Date
  long_value : ℤ → ParamValue F Date
  size_value : ℕ → ParamValue F Date
  double_value : F → ParamValue F Date
  date_value : Date → ParamValue F Date
  -- A `bool`, or another type.
  other_value : ParamValue F Date

pub data Arg (F Date : Type 0) : Type 0 where
  plain : ParamValue F Date → Arg F Date
  optional : Option (ParamValue F Date) → Arg F Date

-- An element of the tuple that owns the values while the statement runs.
pub data Owned (F : Type 0) : Type 0 where
  owned_string : Bytes → Owned F
  owned_int : ℤ → Owned F
  owned_long : ℤ → Owned F
  owned_double : F → Owned F
  owned_other : Owned F
  owned_none : Owned F

-- `static_cast<long long>` of a `size_t`.
unfoldable pub to_long_long : ℕ → ℤ
to_long_long n = if ltb n (2 ^ 63) then pos n else negated (2 ^ 64 - n)

-- One call of SQLBindParameter, with the number of the parameter: the text with its length as the
-- size of the column, or the number, or a null.
pub data Binding (F : Type 0) : Type 0 where
  bind_string : ℕ → ℕ → Bytes → Binding F
  bind_int : ℕ → ℤ → Binding F
  bind_long : ℕ → ℤ → Binding F
  bind_double : ℕ → F → Binding F
  bind_null : ℕ → Binding F

-- `bind_one`, with `bind_concrete_value`, which has no branch for other types.
unfoldable pub bind_one : {F : Type 0} → ℕ → Owned F → Option (Binding F)
bind_one index (owned_string s) = some (bind_string index (length s) s)
bind_one index (owned_int n) = some (bind_int index n)
bind_one index (owned_long n) = some (bind_long index n)
bind_one index (owned_double x) = some (bind_double index x)
bind_one index owned_other = none
bind_one index owned_none = some (bind_null index)

-- What the binding uses of ODBC: SQLFreeStmt to reset the parameters, SQLBindParameter and
-- SQLExecute, with the diagnosis that `check_odbc_error` asks for.
pub record Driver (F S DB : Type 0) : Type 0 where
  pub reset_params : S → DB → DB
  pub bind_parameter : S → Binding F → DB → DB × ReturnCode × Option Bytes
  pub sql_execute : S → DB → DB × ReturnCode × Option Bytes

-- The outcome of a call that is checked.
unfoldable pub checked_call :
    {DB : Type 0} → DB × ReturnCode × Option Bytes → DB × Outcome (Unit {0})
checked_call (db, code, diagnosis) = elim (check_odbc_error code diagnosis) [
  | some e ↦ (db, failed e)
  | none ↦ (db, returned tt)
]

module _ {F S DB : Type 0} (driver : Driver F S DB) (stmt : S) where
  -- `bind_all_params`, from a parameter on.
  unfoldable pub bind_from : ℕ → List (Owned F) → DB → DB × Outcome (Unit {0})
  unfolding bind_one
  bind_from index [] db = (db, returned tt)
  bind_from index (o ∷ rest) db = elim (bind_one index o) [
    | none ↦ bind_from (suc index) rest db
    | some b ↦
        let (db', outcome) = checked_call (driver.bind_parameter stmt b db) in
        elim outcome [ failed e ↦ (db', failed e) | returned done ↦ bind_from (suc index) rest db' ]
  ]

  unfoldable pub bind_all_params : List (Owned F) → DB → DB × Outcome (Unit {0})
  bind_all_params tuple db = bind_from 1 tuple db

  -- Binding, where there are parameters, and SQLExecute.
  unfoldable pub bind_and_execute : List (Owned F) → DB → DB × Outcome (Unit {0})
  bind_and_execute [] db = checked_call (driver.sql_execute stmt db)
  bind_and_execute (o ∷ rest) db =
      let (db', outcome) = bind_all_params (o ∷ rest) (driver.reset_params stmt db) in
      elim outcome [
        | failed e ↦ (db', failed e)
        | returned done ↦ checked_call (driver.sql_execute stmt db')
      ]

module _ {F Date : Type 0} (format_date : Date → Bytes) (moved : Bytes → Bytes) where
  unfoldable pub convert_base_value : ParamValue F Date → Owned F
  convert_base_value (string_value rvalue s) = owned_string s
  convert_base_value (int_value n) = owned_int n
  convert_base_value (long_value n) = owned_long n
  convert_base_value (size_value n) = owned_long (to_long_long n)
  convert_base_value (double_value x) = owned_double x
  convert_base_value (date_value d) = owned_string (format_date d)
  convert_base_value other_value = owned_other

  unfoldable pub convert_for_binding : Arg F Date → Owned F
  convert_for_binding (plain v) = convert_base_value v
  convert_for_binding (optional none) = owned_none
  convert_for_binding (optional (some v)) = convert_base_value v

  -- The argument behind `std::forward`: a `std::string` that came as an rvalue is moved from; what is
  -- in an optional is copied.
  unfoldable pub forwarded : Arg F Date → Arg F Date
  forwarded (plain (string_value true s)) = plain (string_value true (moved s))
  forwarded (plain (string_value false s)) = plain (string_value false s)
  forwarded (plain (int_value n)) = plain (int_value n)
  forwarded (plain (long_value n)) = plain (long_value n)
  forwarded (plain (size_value n)) = plain (size_value n)
  forwarded (plain (double_value x)) = plain (double_value x)
  forwarded (plain (date_value d)) = plain (date_value d)
  forwarded (plain other_value) = plain other_value
  forwarded (optional v) = optional v

  -- The tuple, and the arguments as it leaves them.
  unfoldable pub make_binding_tuple : List (Arg F Date) → List (Arg F Date) × List (Owned F)
  make_binding_tuple args = (map forwarded args, map convert_for_binding args)

  -- The `try` block from the tuple to SQLExecute.
  unfoldable pub execute_with :
      {S DB : Type 0}
      → Driver F S DB
      → S
      → List (Arg F Date) × DB
      → (List (Arg F Date) × DB) × Outcome (Unit {0})
  execute_with driver stmt (args, db) =
      let (args', tuple) = make_binding_tuple args in
      let (db', outcome) = bind_and_execute driver stmt tuple db in ((args', db'), outcome)

  -- ODBC with the arguments of the call beside the database: they are the caller's, so an attempt
  -- finds them as the one before has left them.
  abbrev pub with_args :
      {D S A DB : Type 0} → Odbc D S A DB → Driver F S DB → Odbc D S A (List (Arg F Date) × DB)
  with_args odbc driver = record {
    setting = odbc.setting;
    connect = λ conn_str (args, db).
        let (db', outcome) = odbc.connect conn_str db in ((args, db'), outcome);
    prepare = λ dbc sql_query (args, db).
        let (db', outcome) = odbc.prepare dbc sql_query db in ((args, db'), outcome);
    execute = execute_with driver;
    fetch = λ stmt (args, db). let (db', outcome) = odbc.fetch stmt db in ((args, db'), outcome);
    close = λ stmt (args, db). (args, odbc.close stmt db);
  }
