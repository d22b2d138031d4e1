-- ===== src/Server/Handler.antt =====
-- `io_worker::execute_handler` of src/server.cpp. A handler runs on the state `W` of the program
-- outside the request; it may throw, and what it did before stays done.
use apiserver_asymetric_encr.Base.{
  if◌then◌else◌, Bool-cases, Option-cases, ◌≡◌, refl, ◌≢◌, ◌⊎◌, inl, inr, Bool, true, not, ◌&&◌,
  ◌||◌, Option, none, some, ◌++◌, arith,
}
use apiserver_asymetric_encr.Text.{Bytes, bytes}
use apiserver_asymetric_encr.Request.Model.{Method, any_method, same_method}
use apiserver_asymetric_encr.Request.Access.{Request}
use apiserver_asymetric_encr.Router.{ApiEndpoint}
use apiserver_asymetric_encr.Server.{
  Status, bad_request, unauthorized, internal_server_error, Response, is_finalized, set_body,
  set_json,
}

-- The exceptions that have a `catch` of their own.
pub data Exception : Type 0 where
  validation_error : Bytes → Exception
  sql_error parsing_error output_error curl_exception other_exception : Exception

unfoldable pub catch_status : Exception → Status
catch_status (validation_error what) = bad_request
catch_status sql_error = internal_server_error
catch_status parsing_error = bad_request
catch_status output_error = internal_server_error
catch_status curl_exception = internal_server_error
catch_status other_exception = internal_server_error

unfoldable pub catch_text : Exception → Bytes
catch_text (validation_error what) = bytes "{\"error\":\"" ++ what ++ bytes "\"}"
catch_text sql_error = bytes "{\"error\":\"Database operation failed\"}"
catch_text parsing_error = bytes "{\"error\":\"Invalid JSON format in request\"}"
catch_text output_error = bytes "{\"error\":\"Failed to generate JSON response\"}"
catch_text curl_exception = bytes "{\"error\":\"Internal communication failed\"}"
catch_text other_exception = bytes "{\"error\":\"Internal Server Error\"}"

-- The `catch` clauses.
unfoldable pub caught : Exception → Response → Response
caught e r = set_json (catch_status e) (catch_text e) r

abbrev pub Handler : Type 0 → Type 0 → Type 0
Handler J W = Request J → W → Response → W × Response × Option Exception

-- A validator is called before the handler and may throw.
abbrev pub Checker : Type 0 → Type 0
Checker J = Request J → Option Exception

fitting_method :
    (m n : Method)
    → (same_method m any_method || same_method m n) ≡ true
    → (m ≡ any_method) ⊎ (m ≡ n)
unfolding same_method
fitting_method m n h = ground arith

set_json_finalized :
    (s : Status) (text : Bytes) (res : Response) → is_finalized (set_json s text res) ≡ true
unfolding set_body
set_json_finalized s text res = ground arith

caught_finalized : (e : Exception) (res : Response) → is_finalized (caught e res) ≡ true
unfolding caught
caught_finalized e res = set_json_finalized (catch_status e) (catch_text e) res

module _ {J W : Type 0} where
  -- What the handler leaves, after the `catch` clauses.
  unfoldable pub run_handler : Handler J W → Request J → W → Response → W × Response
  run_handler handler req w res =
      let (w', res', thrown) = handler req w res in
      elim thrown [ none ↦ (w', res') | some e ↦ (w', caught e res') ]

  unfoldable pub execute_handler :
      (Request J → Bool)
      → ApiEndpoint (Handler J W) (Checker J)
      → Request J
      → W
      → Response
      → W × Response
  execute_handler token_ok endpoint req w res =
      if not (same_method endpoint.method any_method || same_method endpoint.method req.method)
      then (w, set_json bad_request (bytes "{\"error\":\"Method Not Allowed\"}") res)
      else if endpoint.is_secure && not (token_ok req)
      then (w, set_json unauthorized (bytes "{\"error\":\"Invalid or missing token\"}") res)
      else elim (endpoint.validator req) [
        | some e ↦ (w, caught e res)
        | none ↦ run_handler endpoint.handler req w res
      ]

  -- What must hold for the handler to be called.
  abbrev pub MayRun :
      (Request J → Bool) → ApiEndpoint (Handler J W) (Checker J) → Request J → Type 0
  MayRun token_ok endpoint req =
      ((endpoint.method ≡ any_method) ⊎ (endpoint.method ≡ req.method))
      × (endpoint.is_secure ≡ true → token_ok req ≡ true)
      × (endpoint.validator req ≡ none)

  execute_handler_cases :
      (token_ok : Request J → Bool) (endpoint : ApiEndpoint (Handler J W) (Checker J))
      (req : Request J) (w : W) (res : Response)
      → MayRun token_ok endpoint req
        ⊎ (((execute_handler token_ok endpoint req w res).0 ≡ w)
            × (is_finalized (execute_handler token_ok endpoint req w res).1 ≡ true))
  unfolding execute_handler
  execute_handler_cases token_ok endpoint req w res =
      elim (Bool-cases
        (same_method endpoint.method any_method || same_method endpoint.method req.method)) [
          | inr other ↦ inr (rw other refl, rw other (set_json_finalized _ _ res))
          | inl fits ↦ elim (Bool-cases (endpoint.is_secure && not (token_ok req))) [
            | inl denied ↦
                inr (rw (fits, denied) refl, rw (fits, denied) (set_json_finalized _ _ res))
            | inr allowed ↦ elim (Option-cases (endpoint.validator req)) [
              | inr (e, thrown) ↦ inr (
                rw (fits, allowed, thrown) refl,
                rw (fits, allowed, thrown) (caught_finalized e res),
              )
              | inl passed ↦
                  inl (fitting_method endpoint.method req.method fits, ground arith, passed)
            ]
          ]
        ]

  -- A request that may run on an endpoint is answered by the endpoint's handler and the `catch`
  -- clauses.
  pub execute_handler_runs :
      (token_ok : Request J → Bool) (endpoint : ApiEndpoint (Handler J W) (Checker J))
      (req : Request J) (w : W) (res : Response)
      → MayRun token_ok endpoint req
      → execute_handler token_ok endpoint req w res ≡ run_handler endpoint.handler req w res
  unfolding execute_handler same_method
  execute_handler_runs token_ok endpoint req w res may = ground arith

  -- If the run of an endpoint has changed anything outside the response, then the method fits the
  -- endpoint, the token of a secure endpoint was accepted, and the validator passed.
  pub execute_handler-MayRun :
      (token_ok : Request J → Bool) (endpoint : ApiEndpoint (Handler J W) (Checker J))
      (req : Request J) (w : W) (res : Response)
      → (execute_handler token_ok endpoint req w res).0 ≢ w
      → MayRun token_ok endpoint req
  execute_handler-MayRun token_ok endpoint req w res changed =
      elim (execute_handler_cases token_ok endpoint req w res) [
        | inl may ↦ may
        | inr (kept, answered) ↦ absurd (changed kept)
      ]

  -- A request that may not run on an endpoint changes nothing outside the response, and is
  -- answered.
  pub execute_handler_refused :
      (token_ok : Request J → Bool) (endpoint : ApiEndpoint (Handler J W) (Checker J))
      (req : Request J) (w : W) (res : Response)
      → ¬ MayRun token_ok endpoint req
      → ((execute_handler token_ok endpoint req w res).0 ≡ w)
        × (is_finalized (execute_handler token_ok endpoint req w res).1 ≡ true)
  execute_handler_refused token_ok endpoint req w res not_allowed =
      elim (execute_handler_cases token_ok endpoint req w res) [
        | inl may ↦ absurd (not_allowed may)
        | inr (kept, answered) ↦ (kept, answered)
      ]
