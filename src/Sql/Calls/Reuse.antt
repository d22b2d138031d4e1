-- ===== src/Sql/Calls/Reuse.antt =====
-- The caches of src/sql.cpp: behind a call that returned, the next one for the same key and query
-- opens no connection and prepares no statement.
use apiserver_asymetric_encr.Base.{
  ◌==◌, Bool-cases, Option-cases, ℕ, zero, suc, ◌≡◌, refl, ap, ◌∙◌, subst, inl, inr, true, ◌&&◌,
  some, ◌∷◌,
}
use apiserver_asymetric_encr.Text.{Bytes, same}
use apiserver_asymetric_encr.Text.Search.{same_iff}
use apiserver_asymetric_encr.Sql.Calls.{
  sql_error, other_error, Outcome, returned, failed, Connection, Thread, find_key, M, bind_outcome,
  lift, Odbc, retryable, open_connection, get_connection, prepare_statement,
  get_or_create_statement, run_statement, attempt_once, invalidate_connection, catch_error,
  attempts, call,
}
use apiserver_asymetric_encr.Sql.Calls.Keys.{find_key-update_key}
use apiserver_asymetric_encr.Sql.Calls.Distinct.{run_statement-connections}

same_refl : (s : Bytes) → same s s ≡ true
same_refl s = (same_iff s s).1 refl

-- What holds of a result and the state behind it, where a step returned.
abbrev Returns :
    {D S W A : Type 0} → (A → Thread D S W → Type 0) → Thread D S W × Outcome A → Type 0
Returns P (t, returned a) = P a t
Returns P (t, failed e) = Unit

bind-Returns :
    {D S W A B : Type 0} (P : A → Thread D S W → Type 0) (Q : B → Thread D S W → Type 0)
    (r : Thread D S W × Outcome A) (f : A → M D S W B)
    → Returns P r
    → ((a : A) (t : Thread D S W) → P a t → Returns Q (f a t))
    → Returns Q (bind_outcome r f)
bind-Returns P Q (t, returned a) f h next = next a t h
bind-Returns P Q (t, failed e) f h next = tt

any_result :
    {D S W A : Type 0} (P : Thread D S W → Type 0) (r : Thread D S W × Outcome A)
    → P r.0
    → Returns (λ a t. P t) r
any_result P (t, returned a) h = h
any_result P (t, failed e) h = tt

module _ {D S A W : Type 0} (odbc : Odbc D S A W) (db_key sql_query : Bytes) where
  -- The cache holds the connection, and it holds the statement.
  abbrev Open : Connection D S → Thread D S W → Type 0
  Open conn t = find_key db_key t.connections ≡ some conn

  abbrev Prepared : S → Thread D S W → Type 0
  Prepared stmt t =
      (conn : Connection D S) × Open conn t × (find_key sql_query conn.statements ≡ some stmt)

  abbrev Reusable : Thread D S W → Type 0
  Reusable t =
      (stmt : S) × (attempt_once odbc db_key sql_query t
        ≡ run_statement odbc db_key sql_query stmt t)

  Prepared-Reusable : (stmt : S) (t : Thread D S W) → Prepared stmt t → Reusable t
  unfolding attempt_once get_connection get_or_create_statement
  Prepared-Reusable stmt t (conn, e, f) =
      (stmt, rw (e, get_connection) (rw (f, get_or_create_statement) refl))

  open_connection-Open : (t : Thread D S W) → Returns Open (open_connection odbc db_key sql_query t)
  unfolding open_connection find_key
  open_connection-Open t = elim (Option-cases (odbc.setting db_key)) [
    | inl e ↦ rw (e, open_connection) tt
    | inr (conn_str, e) ↦
        rw (e, open_connection)
          (bind-Returns (λ dbc x. Unit {0}) Open (lift (odbc.connect conn_str) t) _
            (any_result (λ x. Unit {0}) (lift (odbc.connect conn_str) t) tt)
            (λ dbc x k. rw (same_refl db_key) refl))
  ]

  get_connection-Open : (t : Thread D S W) → Returns Open (get_connection odbc db_key sql_query t)
  unfolding get_connection
  get_connection-Open t = elim (Option-cases (find_key db_key t.connections)) [
    | inr (conn, e) ↦ rw (e, get_connection) e
    | inl e ↦ rw (e, get_connection) (open_connection-Open t)
  ]

  get_or_create_statement-Prepared :
      (conn : Connection D S) (t : Thread D S W)
      → Open conn t
      → Returns Prepared (get_or_create_statement odbc db_key sql_query conn t)
  unfolding get_or_create_statement prepare_statement find_key
  get_or_create_statement-Prepared conn t h =
      elim (Option-cases (find_key sql_query conn.statements)) [
        | inr (stmt, e) ↦ rw (e, get_or_create_statement) (conn, h, e)
        | inl e ↦
            rw (e, get_or_create_statement)
              (bind-Returns (λ stmt. Open conn) Prepared (lift (odbc.prepare conn.dbc sql_query) t)
                _ (any_result (Open conn) (lift (odbc.prepare conn.dbc sql_query) t) h)
                (λ stmt x k. (
                  record conn { statements = (sql_query, stmt) ∷ conn.statements },
                  find_key-update_key db_key conn _ x.connections k,
                  rw (same_refl sql_query) refl,
                )))
      ]

  attempt_once-Reusable :
      (t : Thread D S W) → Returns (λ a. Reusable) (attempt_once odbc db_key sql_query t)
  unfolding attempt_once
  attempt_once-Reusable t =
      bind-Returns Open (λ a. Reusable) (get_connection odbc db_key sql_query t) _
        (get_connection-Open t)
        (λ conn x k.
          bind-Returns Prepared (λ a. Reusable)
            (get_or_create_statement odbc db_key sql_query conn x) _
            (get_or_create_statement-Prepared conn x k)
            (λ stmt y l. any_result Reusable (run_statement odbc db_key sql_query stmt y) (
              Prepared-Reusable stmt (run_statement odbc db_key sql_query stmt y).0 (
                l.0,
                ap (find_key db_key) (run_statement-connections odbc db_key sql_query stmt y) ∙ l.1,
                l.2,
              ))))

  catch_error-Reusable :
      (attempt : ℕ) (again : M D S W A) (r : Thread D S W × Outcome A)
      → Returns (λ a. Reusable) r
      → ((t : Thread D S W) → Returns (λ (a : A). Reusable) (again t))
      → Returns (λ a. Reusable) (catch_error odbc db_key sql_query attempt again r)
  unfolding catch_error
  catch_error-Reusable attempt again (t, returned a) h next = h
  catch_error-Reusable attempt again (t, failed other_error) h next = tt
  catch_error-Reusable attempt again (t, failed (sql_error state)) h next =
      elim (Bool-cases (attempt == 1 && retryable state)) [
        | inl retries ↦ rw retries (next t)
        | inr ends ↦ rw ends tt
      ]

  attempts-Reusable :
      (count attempt : ℕ) (t : Thread D S W)
      → Returns (λ a. Reusable) (attempts odbc db_key sql_query count attempt t)
  unfolding attempts
  attempts-Reusable zero attempt t = tt
  attempts-Reusable (suc count) attempt t =
      catch_error-Reusable attempt
        (λ x.
          attempts odbc db_key sql_query count (suc attempt)
            (invalidate_connection odbc db_key sql_query x))
        (attempt_once odbc db_key sql_query t) (attempt_once-Reusable t)
        (λ x. attempts-Reusable count (suc attempt) (invalidate_connection odbc db_key sql_query x))

  -- Behind a database call that returned, the next attempt for the same key and query opens no
  -- connection and prepares no statement: it goes straight to running the statement that is kept.
  pub call_reuse :
      (t t1 : Thread D S W) (result : A)
      → call odbc db_key sql_query t ≡ (t1, returned result)
      → (stmt : S) × (attempt_once odbc db_key sql_query t1
          ≡ run_statement odbc db_key sql_query stmt t1)
  unfolding call
  call_reuse t t1 result h = subst (Returns (λ a. Reusable)) h (attempts-Reusable 2 1 t)
