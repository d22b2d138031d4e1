-- ===== src/Sql/Calls/Retry.antt =====
-- How often the calls of src/sql.tpp try: at most twice, and twice only behind a connection error.
use apiserver_asymetric_encr.Base.{
  if◌then◌else◌, Bool-cases, ℕ, suc, ◌≡◌, refl, inl, inr, Bool, false, [],
}
use apiserver_asymetric_encr.Text.{Bytes}
use apiserver_asymetric_encr.Sql.Calls.{
  sql_error, other_error, Outcome, returned, failed, Thread, M, Odbc, retryable, attempt_once,
  invalidate_connection, catch_error, attempts,
}

module _ {A : Type 0} where
  -- What the caller sees of an attempt.
  abbrev pub settled : Outcome A → Outcome A
  settled (returned a) = returned a
  settled (failed (sql_error state)) = failed (sql_error state)
  settled (failed other_error) = failed (sql_error [])

  -- A connection error.
  abbrev pub is_broken : Outcome A → Bool
  is_broken (returned a) = false
  is_broken (failed (sql_error state)) = retryable state
  is_broken (failed other_error) = false

module _ {D S A W : Type 0} (odbc : Odbc D S A W) (db_key sql_query : Bytes) where
  abbrev pub settle : Thread D S W × Outcome A → Thread D S W × Outcome A
  settle (t, outcome) = (t, settled outcome)

  last_attempt :
      (count : ℕ) (t : Thread D S W)
      → attempts odbc db_key sql_query (suc count) 2 t
        ≡ settle (attempt_once odbc db_key sql_query t)
  unfolding attempts
  last_attempt count t =
      by_outcome
        (λ t1.
          attempts odbc db_key sql_query count 3 (invalidate_connection odbc db_key sql_query t1))
        (attempt_once odbc db_key sql_query t)
    where
      by_outcome :
          (again : M D S W A) (r : Thread D S W × Outcome A)
          → catch_error odbc db_key sql_query 2 again r ≡ settle r
      by_outcome again (t1, returned a) = refl
      by_outcome again (t1, failed other_error) = refl
      by_outcome again (t1, failed (sql_error state)) = refl

  -- However many attempts the loop of a database call were allowed beyond two, it ends by the
  -- second: it tries again only behind a first attempt that failed with a connection error, on a
  -- cache without that connection, and what it then returns or throws is the second attempt's
  -- result; an exception of another kind comes out as an `sql::error`.
  pub attempts_lem :
      (count : ℕ) (t : Thread D S W)
      → let (t1, first) = attempt_once odbc db_key sql_query t in
        attempts odbc db_key sql_query (suc (suc count)) 1 t ≡ (
          if is_broken first
          then settle
              (attempt_once odbc db_key sql_query (invalidate_connection odbc db_key sql_query t1))
          else (t1, settled first))
  unfolding attempts
  attempts_lem count t = by_outcome (attempt_once odbc db_key sql_query t)
    where
      again : M D S W A
      again t1 =
          attempts odbc db_key sql_query (suc count) 2
            (invalidate_connection odbc db_key sql_query t1)

      by_outcome :
          (r : Thread D S W × Outcome A)
          → catch_error odbc db_key sql_query 1 again r ≡ (
              if is_broken r.1
              then settle (
                  attempt_once odbc db_key sql_query
                    (invalidate_connection odbc db_key sql_query r.0))
              else (r.0, settled r.1))
      by_outcome (t1, returned a) = refl
      by_outcome (t1, failed other_error) = refl
      by_outcome (t1, failed (sql_error state)) = elim (Bool-cases (retryable state)) [
        | inl broken ↦
            rw broken (last_attempt count (invalidate_connection odbc db_key sql_query t1))
        | inr usable ↦ rw usable refl
      ]
