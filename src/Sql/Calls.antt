-- ===== src/Sql/Calls.antt =====
-- The calls `get`, `query`, `exec` and `get_json` of src/sql.tpp, which differ in what they fetch, and
-- the thread's caches of connections and statements of src/sql.cpp. The world `W` is the database as
-- ODBC shows it: every call of ODBC may change it.
pub mod Retry
pub mod Keys
pub mod Distinct
pub mod Reuse
use apiserver_asymetric_encr.Base.{
  ◌==◌, if◌then◌else◌, ℕ, zero, suc, Bool, ◌&&◌, ◌||◌, Option, none, some, List, [], ◌∷◌,
}
use apiserver_asymetric_encr.Text.{Bytes, bytes, same}

-- An exception: `sql::error` with its state, or any other.
pub data Error : Type 0 where
  sql_error : Bytes → Error
  other_error : Error

pub data Outcome (A : Type 0) : Type 0 where
  returned : A → Outcome A
  failed : Error → Outcome A

-- A connection: its handle, and the prepared statements by their text.
pub record Connection (D S : Type 0) : Type 0 where
  pub dbc : D
  pub statements : List (Bytes × S)

pub record Thread (D S W : Type 0) : Type 0 where
  pub connections : List (Bytes × Connection D S)
  pub world : W

-- A map by text: `find`, `erase` and `try_emplace`, and a write through a reference.
module _ {V : Type 0} where
  unfoldable pub find_key : Bytes → List (Bytes × V) → Option V
  find_key key [] = none
  find_key key ((k, v) ∷ rest) = if same k key then some v else find_key key rest

  unfoldable pub erase_key : Bytes → List (Bytes × V) → List (Bytes × V)
  erase_key key [] = []
  erase_key key ((k, v) ∷ rest) = if same k key then rest else (k, v) ∷ erase_key key rest

  unfoldable pub update_key : Bytes → V → List (Bytes × V) → List (Bytes × V)
  update_key key v [] = []
  update_key key v ((k, w) ∷ rest) =
      if same k key then (k, v) ∷ rest else (k, w) ∷ update_key key v rest

-- A step on the thread's state, which may throw; what is behind an exception is skipped.
abbrev pub M : Type 0 → Type 0 → Type 0 → Type 0 → Type 0
M D S W A = Thread D S W → Thread D S W × Outcome A

abbrev pub bind_outcome :
    {D S W A B : Type 0} → Thread D S W × Outcome A → (A → M D S W B) → Thread D S W × Outcome B
bind_outcome (t, returned a) f = f a t
bind_outcome (t, failed e) f = (t, failed e)

infixl 5 ◌>>=◌ ◌>>◌
abbrev pub ◌>>=◌ : {D S W A B : Type 0} → M D S W A → (A → M D S W B) → M D S W B
◌>>=◌ m f t = bind_outcome (m t) f

abbrev pub ◌>>◌ : {D S W B : Type 0} → M D S W (Unit {0}) → M D S W B → M D S W B
◌>>◌ m f = m >>= λ done. f

-- A call of ODBC.
abbrev pub lift : {D S W A : Type 0} → (W → W × Outcome A) → M D S W A
lift f t = let (w, outcome) = f t.world in (record t { world = w }, outcome)

-- What of ODBC a call uses: SQLDriverConnect, SQLPrepare, then binding and SQLExecute, the fetch of
-- the rows, and SQLFreeStmt. `setting` is `env::get` of the connection string.
pub record Odbc (D S A W : Type 0) : Type 0 where
  pub setting : Bytes → Option Bytes
  pub connect : Bytes → W → W × Outcome D
  pub prepare : D → Bytes → W → W × Outcome S
  pub execute : S → W → W × Outcome (Unit {0})
  pub fetch : S → W → W × Outcome A
  pub close : S → W → W

abbrev pub retryable : Bytes → Bool
retryable state =
    same state (bytes "HY000") || same state (bytes "01000") || same state (bytes "08S01")

module _ {D S A W : Type 0} (odbc : Odbc D S A W) (db_key sql_query : Bytes) where
  unfoldable pub open_connection : M D S W (Connection D S)
  open_connection t = elim (odbc.setting db_key) [
    | none ↦ (t, failed other_error)
    | some conn_str ↦ bind_outcome (lift (odbc.connect conn_str) t) (λ dbc t1.
        let conn : Connection D S = record { dbc = dbc; statements = [] } in
        (record t1 { connections = (db_key, conn) ∷ t1.connections }, returned conn))
  ]

  -- `ConnectionManager::get_connection`.
  unfoldable pub get_connection : M D S W (Connection D S)
  unfolding open_connection
  get_connection t = elim (find_key db_key t.connections) [
    | some conn ↦ (t, returned conn)
    | none ↦ open_connection t
  ]

  unfoldable pub prepare_statement : Connection D S → M D S W S
  prepare_statement conn t = bind_outcome (lift (odbc.prepare conn.dbc sql_query) t) (λ stmt t1.
      let kept : Connection D S = record conn {
        statements = (sql_query, stmt) ∷ conn.statements;
      } in
      (record t1 { connections = update_key db_key kept t1.connections }, returned stmt))

  -- `Connection::get_or_create_statement`.
  unfoldable pub get_or_create_statement : Connection D S → M D S W S
  unfolding prepare_statement
  get_or_create_statement conn t = elim (find_key sql_query conn.statements) [
    | some stmt ↦ (t, returned stmt)
    | none ↦ prepare_statement conn t
  ]

  -- Binding, executing, fetching, and closing the cursor, which an exception skips.
  unfoldable pub run_statement : S → M D S W A
  run_statement stmt = do
    lift (odbc.execute stmt)
    result ← lift (odbc.fetch stmt)
    λ t. (record t { world = odbc.close stmt t.world }, returned result)

  -- The body of the `try` block.
  unfoldable pub attempt_once : M D S W A
  attempt_once = do conn ← get_connection; stmt ← get_or_create_statement conn; run_statement stmt

  unfoldable pub invalidate_connection : Thread D S W → Thread D S W
  invalidate_connection t = record t { connections = erase_key db_key t.connections }

  -- The `catch` clauses: `again` is the rest of the loop. Any exception that is not an `sql::error`
  -- becomes one without a state.
  unfoldable pub catch_error :
      ℕ
      → (Thread D S W → Thread D S W × Outcome A)
      → Thread D S W × Outcome A
      → Thread D S W × Outcome A
  catch_error attempt again (t, returned a) = (t, returned a)
  catch_error attempt again (t, failed other_error) = (t, failed (sql_error []))
  catch_error attempt again (t, failed (sql_error state)) =
      if attempt == 1 && retryable state then again t else (t, failed (sql_error state))

  -- The loop: `count` attempts are left, and behind it the last `throw`.
  unfoldable pub attempts : ℕ → ℕ → M D S W A
  unfolding catch_error
  attempts zero attempt t = (t, failed (sql_error []))
  attempts (suc count) attempt t =
      catch_error attempt (λ t1. attempts count (suc attempt) (invalidate_connection t1))
        (attempt_once t)

  unfoldable pub call : M D S W A
  call t = attempts 2 1 t
