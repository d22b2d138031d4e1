-- ===== src/Sql/Calls/Distinct.antt =====
-- The cache of connections of src/sql.cpp never holds a key twice.
use apiserver_asymetric_encr.Base.{
  ◌==◌, Bool-cases, Option-cases, ℕ, zero, suc, ◌≡◌, refl, sym, subst, inl, inr, ◌&&◌, none,
}
use apiserver_asymetric_encr.Text.{Bytes}
use apiserver_asymetric_encr.Sql.Calls.{
  sql_error, other_error, Outcome, returned, failed, Connection, Thread, find_key, M, bind_outcome,
  lift, Odbc, retryable, open_connection, get_connection, prepare_statement,
  get_or_create_statement, run_statement, attempt_once, invalidate_connection, catch_error,
  attempts,
}
use apiserver_asymetric_encr.Sql.Calls.Keys.{
  DistinctKeys, DistinctKeys-erase_key, DistinctKeys-update_key,
}

module _ {D S W A B : Type 0} where
  -- What holds between two steps gives what holds behind them, also where the first throws.
  pub bind_rule :
      (P Q : Thread D S W → Type 0) (r : Thread D S W × Outcome A) (f : A → M D S W B)
      → P r.0
      → ((t : Thread D S W) → P t → Q t)
      → ((a : A) (t : Thread D S W) → P t → Q (f a t).0)
      → Q (bind_outcome r f).0
  bind_rule P Q (t1, returned a) f h thrown keeps = keeps a t1 h
  bind_rule P Q (t1, failed e) f h thrown keeps = thrown t1 h

module _ {D S A W : Type 0} (odbc : Odbc D S A W) (db_key sql_query : Bytes) where
  abbrev pub IsDistinct : Thread D S W → Type 0
  IsDistinct t = DistinctKeys t.connections

  open_connection-IsDistinct :
      (t : Thread D S W)
      → find_key db_key t.connections ≡ none
      → IsDistinct t
      → IsDistinct (open_connection odbc db_key sql_query t).0
  unfolding open_connection
  open_connection-IsDistinct t missing h = elim (Option-cases (odbc.setting db_key)) [
    | inl e ↦ rw (e, open_connection) h
    | inr (conn_str, e) ↦
        rw (e, open_connection)
          (bind_rule (λ x. (find_key db_key x.connections ≡ none) × IsDistinct x) IsDistinct
            (lift (odbc.connect conn_str) t) _ (missing, h) (λ x k. k.1) (λ dbc x k. k))
  ]

  get_connection-IsDistinct :
      (t : Thread D S W) → IsDistinct t → IsDistinct (get_connection odbc db_key sql_query t).0
  unfolding get_connection
  get_connection-IsDistinct t h = elim (Option-cases (find_key db_key t.connections)) [
    | inr (conn, e) ↦ rw (e, get_connection) h
    | inl e ↦ rw (e, get_connection) (open_connection-IsDistinct t e h)
  ]

  prepare_statement-IsDistinct :
      (conn : Connection D S) (t : Thread D S W)
      → IsDistinct t
      → IsDistinct (prepare_statement odbc db_key sql_query conn t).0
  unfolding prepare_statement
  prepare_statement-IsDistinct conn t h =
      bind_rule IsDistinct IsDistinct (lift (odbc.prepare conn.dbc sql_query) t) _ h (λ x k. k)
        (λ stmt t1 d. DistinctKeys-update_key db_key _ t1.connections d)

  get_or_create_statement-IsDistinct :
      (conn : Connection D S) (t : Thread D S W)
      → IsDistinct t
      → IsDistinct (get_or_create_statement odbc db_key sql_query conn t).0
  unfolding get_or_create_statement
  get_or_create_statement-IsDistinct conn t h =
      elim (Option-cases (find_key sql_query conn.statements)) [
        | inr (stmt, e) ↦ rw (e, get_or_create_statement) h
        | inl e ↦ rw (e, get_or_create_statement) (prepare_statement-IsDistinct conn t h)
      ]

  pub run_statement-connections :
      (stmt : S) (t : Thread D S W)
      → (run_statement odbc db_key sql_query stmt t).0.connections ≡ t.connections
  unfolding run_statement
  run_statement-connections stmt t =
      let kept = λ (x : Thread D S W). x.connections ≡ t.connections in
      bind_rule kept kept (lift (odbc.execute stmt) t) _ refl (λ x k. k)
        (λ done x k.
          bind_rule kept kept (lift (odbc.fetch stmt) x) _ k (λ y l. l) (λ result y l. l))

  pub attempt_once-IsDistinct :
      (t : Thread D S W) → IsDistinct t → IsDistinct (attempt_once odbc db_key sql_query t).0
  unfolding attempt_once
  attempt_once-IsDistinct t h =
      bind_rule IsDistinct IsDistinct (get_connection odbc db_key sql_query t) _
        (get_connection-IsDistinct t h) (λ x k. k)
        (λ conn x k.
          bind_rule IsDistinct IsDistinct (get_or_create_statement odbc db_key sql_query conn x) _
            (get_or_create_statement-IsDistinct conn x k) (λ y l. l)
            (λ stmt y l. subst DistinctKeys (sym (run_statement-connections stmt y)) l))

  catch_error-IsDistinct :
      (attempt : ℕ) (again : M D S W A) (r : Thread D S W × Outcome A)
      → IsDistinct r.0
      → ((t : Thread D S W) → IsDistinct t → IsDistinct (again t).0)
      → IsDistinct (catch_error odbc db_key sql_query attempt again r).0
  unfolding catch_error
  catch_error-IsDistinct attempt again (t, returned a) h keeps = h
  catch_error-IsDistinct attempt again (t, failed other_error) h keeps = h
  catch_error-IsDistinct attempt again (t, failed (sql_error state)) h keeps =
      elim (Bool-cases (attempt == 1 && retryable state)) [
        | inl retries ↦ rw retries (keeps t h)
        | inr ends ↦ rw ends h
      ]

  pub attempts-IsDistinct :
      (count attempt : ℕ) (t : Thread D S W)
      → IsDistinct t
      → IsDistinct (attempts odbc db_key sql_query count attempt t).0
  unfolding attempts invalidate_connection
  attempts-IsDistinct zero attempt t h = h
  attempts-IsDistinct (suc count) attempt t h =
      catch_error-IsDistinct attempt
        (λ x.
          attempts odbc db_key sql_query count (suc attempt)
            (invalidate_connection odbc db_key sql_query x))
        (attempt_once odbc db_key sql_query t) (attempt_once-IsDistinct t h)
        (λ x k.
          attempts-IsDistinct count (suc attempt) (invalidate_connection odbc db_key sql_query x)
            (DistinctKeys-erase_key db_key x.connections k))
