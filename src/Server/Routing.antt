-- ===== src/Server/Routing.antt =====
-- `io_worker::handle_internal_api`, `io_worker::route_parsed_request` and
-- `io_worker::process_request` of src/server.cpp. What a call does to the rest of the server is its
-- result: a response for the response queue, or a task for the thread pool (with the connection
-- marked as processing); `dispatch_to_worker` itself is in Server/Dispatch.
use apiserver_asymetric_encr.Base.{
  if◌then◌else◌, Bool-cases, Option-cases, ◌≡◌, inl, inr, true, false, not, Option, none, some,
  List, arith,
}
use apiserver_asymetric_encr.Text.{Bytes, bytes, same}
use apiserver_asymetric_encr.Request.Model.{options, same_method, Parser}
use apiserver_asymetric_encr.Request.Access.{Request, make_request, get_header_value}
use apiserver_asymetric_encr.Server.{
  ok, bad_request, forbidden, not_found, Response, new_response, set_body, set_options, json_type,
  set_json,
}
use apiserver_asymetric_encr.Server.Authorize.{validate_bearer_token, is_origin_allowed}
use apiserver_asymetric_encr.Request.Finalize.{finalize}
use apiserver_asymetric_encr.Request.Finalize.Result.{
  IsUnparsed, IsSafeRequest, finalize-IsSafeRequest,
}

-- What the server knows besides the request: the settings, and the texts of the metrics.
pub record Settings (E : Type 0) : Type 0 where
  pub api_key : Bytes
  pub mfa_uri : Bytes
  pub allowed_origins : List Bytes
  pub find_endpoint : Bytes → Option E
  pub metrics_json : Bytes
  pub metrics_prometheus : Bytes
  pub version_text : Bytes

-- `close_after_write` is set on the connection, or a response is pushed, or a task is dispatched.
pub data Outcome (J E : Type 0) : Type 0 where
  reject : Response → Outcome J E
  respond : Response → Outcome J E
  dispatch : Request J → E → Outcome J E

abbrev bad_request_text : Bytes
bad_request_text = bytes "{\"error\":\"Bad Request\"}"

module _ {J E : Type 0} where
  -- A response of the server's own, behind the API key.
  unfoldable pub answer_guarded : Settings E → Request J → Bytes → Bytes → Response → Response
  answer_guarded s req content_type text res =
      if not (validate_bearer_token s.api_key req)
      then set_json bad_request bad_request_text res
      else set_body ok content_type text res

  -- `none` where `handle_internal_api` returns false.
  unfoldable pub handle_internal_api : Settings E → Request J → Response → Option Response
  handle_internal_api s req res =
      if same req.path (bytes "/metrics")
      then some (answer_guarded s req json_type s.metrics_json res)
      else if same req.path (bytes "/metricsp")
      then some (answer_guarded s req (bytes "text/plain") s.metrics_prometheus res)
      else if same req.path (bytes "/ping")
      then some (set_json ok (bytes "{\"status\":\"OK\"}") res)
      else if same req.path (bytes "/version")
      then some (answer_guarded s req json_type s.version_text res)
      else none

  -- The last part of `route_parsed_request`.
  unfoldable pub route_endpoint : Settings E → Request J → Response → Outcome J E
  route_endpoint s req res = elim (s.find_endpoint req.path) [
    | none ↦ respond (set_json not_found (bytes "{\"error\":\"Not Found\"}") res)
    | some endpoint ↦ dispatch req endpoint
  ]

  unfoldable pub route_parsed_request : Settings E → Request J → Outcome J E
  route_parsed_request s req =
      let origin = get_header_value req (bytes "Origin") in
      let res = new_response origin in
      if not (is_origin_allowed origin s.allowed_origins)
      then respond
          (set_json forbidden (bytes "{\"error\":\"CORS origin not allowed\"}") (new_response none))
      else if same_method req.method options
      then respond (set_options res)
      else elim (handle_internal_api s req res) [
        | some answered ↦ respond answered
        | none ↦ route_endpoint s req res
      ]

  unfoldable pub process_request : Settings E → (Bytes → Option J) → Parser J → Bytes → Outcome J E
  process_request s parse_json p peer =
      let (q, e) = finalize parse_json p in
      elim e [
        | some err ↦ reject (set_json bad_request bad_request_text (new_response none))
        | none ↦ route_parsed_request s (make_request q peer)
      ]

abbrev pub Routed : {J E : Type 0} → Settings E → Request J → E → Type 0
Routed s r e =
    (is_origin_allowed (get_header_value r (bytes "Origin")) s.allowed_origins ≡ true)
    × (same_method r.method options ≡ false)
    × (handle_internal_api s r (new_response (get_header_value r (bytes "Origin"))) ≡ none)
    × (s.find_endpoint r.path ≡ some e)

route_endpoint_dispatch :
    {J E : Type 0} (s : Settings E) (r req : Request J) (res : Response) (e : E)
    → route_endpoint s r res ≡ dispatch req e
    → (req ≡ r) × (s.find_endpoint r.path ≡ some e)
unfolding route_endpoint
route_endpoint_dispatch s r req res e h = elim (Option-cases (s.find_endpoint r.path)) [
  | inl f ↦ absurd (ground arith)
  | inr (x, f) ↦ ground arith
]

route_parsed_request_dispatch :
    {J E : Type 0} (s : Settings E) (r req : Request J) (e : E)
    → route_parsed_request s r ≡ dispatch req e
    → (req ≡ r) × Routed s r e
unfolding route_parsed_request
route_parsed_request_dispatch s r req e h =
    let origin = get_header_value r (bytes "Origin") in
    elim (Bool-cases (is_origin_allowed origin s.allowed_origins)) [
      | inr no_origin ↦ absurd (ground arith)
      | inl allowed ↦ elim (Bool-cases (same_method r.method options)) [
        | inl preflight ↦ absurd (ground arith)
        | inr other ↦ elim (Option-cases (handle_internal_api s r (new_response origin))) [
          | inr (answered, f) ↦ absurd (ground arith)
          | inl f ↦
              let run : route_endpoint s r (new_response origin) ≡ dispatch req e = ground arith in
              let (same_request, found) =
                route_endpoint_dispatch s r req (new_response origin) e run in
              (same_request, (allowed, other, f, found))
        ]
      ]
    ]

-- When a parser that has parsed nothing yet comes to the dispatch of an endpoint, the parse had no
-- error and everything that the parser checks holds of the request; its origin is allowed, its
-- method is not OPTIONS, no path of the server's own matches, and the router has the endpoint for
-- its path; and the request is the one that was parsed.
pub process_request_dispatch :
    {J E : Type 0} (s : Settings E) (parse_json : Bytes → Option J) (p : Parser J) (peer : Bytes)
    (req : Request J) (e : E)
    → IsUnparsed p
    → process_request s parse_json p peer ≡ dispatch req e
    → IsSafeRequest (finalize parse_json p).0
      × (req ≡ make_request (finalize parse_json p).0 peer)
      × Routed s (make_request (finalize parse_json p).0 peer) e
unfolding process_request
process_request_dispatch {J} s parse_json p peer req e u h =
    elim (Option-cases (finalize parse_json p).1) [
      | inr (err, f) ↦ absurd (ground arith)
      | inl f ↦
          let r : Request J = make_request (finalize parse_json p).0 peer in
          let run : route_parsed_request s r ≡ dispatch req e = ground arith in
          let (same_request, routed) = route_parsed_request_dispatch s r req e run in
          (finalize-IsSafeRequest parse_json p u f, same_request, routed)
    ]
