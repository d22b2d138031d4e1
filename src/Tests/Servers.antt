-- ===== src/Tests/Servers.antt =====
-- The theorems on dispatch, routing and validation, at a small server.
use apiserver_asymetric_encr.Base.{
  length, ℕ, suc, ◌≡◌, refl, ◌≢◌, ◌↔◌, Bool, true, false, Option, none, some, List, [], ◌∷◌, arith,
}
use apiserver_asymetric_encr.Text.{
  Bytes, bytes, same, starts_with, ends_with, find, find_if, find_last_if, push_front, split_from,
  split, trim_left, trim_right, trim_sv, tolower, sv_ci_equal, sv_ci_hash_from, sv_ci_hash,
  take_digits, from_chars_size,
}
use apiserver_asymetric_encr.Request.Model.{
  get, unknown, same_method, Parser, new_parser, lookup_by, emplace_by, find_header, emplace_header,
  find_param, emplace_param,
}
use apiserver_asymetric_encr.Request.Access.{
  Request, make_request, get_header_value, get_bearer_token,
}
use apiserver_asymetric_encr.Request.Buffer.{
  new_buffer, available_size, view, store, resize, update_pos,
}
use apiserver_asymetric_encr.Request.Uri.{
  is_valid_path, parse_uri, parse_request_line_parts, parse_request_line,
}
use apiserver_asymetric_encr.Request.Headers.{
  is_valid_header_key, is_valid_header_value, parse_header_at, parse_header_line,
  parse_header_lines, parse_headers,
}
use apiserver_asymetric_encr.Request.Multipart.{
  sanitize_filename, strip_last_quote, strip_quotes, set_parameter, process_parameter, content_step,
  extract_params_from, extract_params_from_content, part_header_at, part_header_line,
  part_header_lines, parse_part_headers, strip_part, part_headers_end, store_part,
  process_multipart_part, process_parts, parse_multipart_form_data,
}
use apiserver_asymetric_encr.Request.Body.{
  unquote_boundary, find_boundary, parse_body_as, parse_body,
}
use apiserver_asymetric_encr.Request.Eof.{
  receive_bytes, find_and_store_header_end, method_of, store_method, parse_method_within,
  parse_and_store_method, whole_number, scan_content_length, scan_header_part,
  parse_and_store_content_length, eof_of_method, eof,
}
use apiserver_asymetric_encr.Request.Finalize.{
  resolve_content_length, set_content_length, check_content_type, parse_sized_body, finalize_body,
  check_method, headers_view, set_finalized, finalize_lines, finalize,
}
use apiserver_asymetric_encr.Request.Finalize.Result.{IsUnparsed, IsSafeRequest}
use apiserver_asymetric_encr.Router.{ApiEndpoint}
use apiserver_asymetric_encr.Server.{ok, Response, new_response, is_finalized, set_json}
use apiserver_asymetric_encr.Server.Authorize.{
  is_preauth, validate_token, is_origin_allowed, validate_token_iff,
}
use apiserver_asymetric_encr.Server.Handler.{
  Handler, Checker, run_handler, execute_handler, MayRun, execute_handler-MayRun,
  execute_handler_refused,
}
use apiserver_asymetric_encr.Server.Routing.{
  Settings, dispatch, handle_internal_api, route_endpoint, route_parsed_request, process_request,
  Routed, process_request_dispatch,
}

abbrev pub plain_request : Request ℕ
plain_request = record {
  json_payload = none;
  method = get;
  headers = (bytes "Authorization", bytes "Bearer t") ∷ [];
  params = (bytes "name", bytes "ann") ∷ [];
  body = none;
  file_parts = [];
  path = bytes "/a";
  remote_ip = bytes "10.0.0.1";
}

-- A handler that counts its calls.
abbrev counting : Handler ℕ ℕ
counting req w res = (suc w, set_json ok (bytes "{}") res, none)

abbrev no_rules : Checker ℕ
no_rules req = none

abbrev secure_endpoint : ApiEndpoint (Handler ℕ ℕ) (Checker ℕ)
secure_endpoint = record {
  method = get;
  validator = no_rules;
  handler = counting;
  is_secure = true;
  path_regex = none;
}

abbrev every_token : Request ℕ → Bool
every_token req = true

abbrev no_token : Request ℕ → Bool
no_token req = false

abbrev blank : Response
blank = record { origin = none; status = none; content = none }

counted : (execute_handler every_token secure_endpoint plain_request 0 blank).0 ≢ 0
unfolding execute_handler run_handler same_method
counted h = omega (arith, h)

execute_handler-MayRun_example : MayRun every_token secure_endpoint plain_request
execute_handler-MayRun_example =
    execute_handler-MayRun every_token secure_endpoint plain_request 0 blank counted

refused : ¬ MayRun no_token secure_endpoint plain_request
refused may = ground (arith, may.1 refl)

execute_handler_refused_example :
    ((execute_handler no_token secure_endpoint plain_request 0 blank).0 ≡ 0)
    × (is_finalized (execute_handler no_token secure_endpoint plain_request 0 blank).1 ≡ true)
execute_handler_refused_example =
    execute_handler_refused no_token secure_endpoint plain_request 0 blank refused

abbrev known_token : Bytes → Option (List (Bytes × Bytes))
known_token token = some ((bytes "preauth", bytes "true") ∷ [])

validate_token_iff_example : (validate_token known_token (bytes "/mfa") plain_request ≡ true) ↔ (
    (token : Bytes) × (claims : List (Bytes × Bytes)) × (get_bearer_token plain_request
      ≡ some token)
    × (known_token token ≡ some claims)
    × (is_preauth claims ≡ same plain_request.path (bytes "/mfa")))
validate_token_iff_example = validate_token_iff known_token (bytes "/mfa") plain_request

abbrev pub text : Bytes
text = bytes "GET /a HTTP/1.1\r\nHost: x\r\n\r\n"

abbrev pub read_request : Parser ℕ
read_request = record {
  buffer = record { buffer = text; filled = length text };
  json_payload = none;
  parsed_method = unknown;
  identified_method = none;
  identified_content_length = none;
  identified_header_size = none;
  headers = [];
  params = [];
  body = none;
  file_parts = [];
  path = [];
  content_length = 0;
  header_size = 0;
  is_finalized = false;
}

abbrev pub any_json : Bytes → Option ℕ
any_json text = some (length text)

read_request-IsUnparsed : IsUnparsed read_request
unfolding view
read_request-IsUnparsed = record {
  fresh = record { no_method = refl; no_header = refl };
  no_headers = refl;
  no_files = refl;
  no_length = refl;
  open_state = refl;
  small = omega arith;
}

abbrev pub settings : Settings ℕ
settings = record {
  api_key = [];
  mfa_uri = bytes "/mfa";
  allowed_origins = [];
  find_endpoint = λ path. some 7;
  metrics_json = [];
  metrics_prometheus = [];
  version_text = [];
}

abbrev pub made_request : Request ℕ
made_request = record {
  json_payload = none;
  method = get;
  headers = (bytes "Host", bytes "x") ∷ [];
  params = [];
  body = none;
  file_parts = [];
  path = bytes "/a";
  remote_ip = bytes "10.0.0.1";
}

read_request-dispatch :
    process_request settings any_json read_request (bytes "10.0.0.1") ≡ dispatch made_request 7
unfolding process_request route_parsed_request route_endpoint handle_internal_api new_response
    is_origin_allowed get_header_value make_request same starts_with ends_with find find_if
    find_last_if push_front split_from split trim_left trim_right trim_sv tolower sv_ci_equal
    sv_ci_hash_from sv_ci_hash take_digits from_chars_size new_buffer available_size view store
    resize update_pos same_method new_parser lookup_by emplace_by find_header emplace_header
    find_param emplace_param is_valid_path parse_uri parse_request_line_parts parse_request_line
    is_valid_header_key is_valid_header_value parse_header_at parse_header_line parse_header_lines
    parse_headers sanitize_filename strip_last_quote strip_quotes set_parameter process_parameter
    content_step extract_params_from extract_params_from_content part_header_at part_header_line
    part_header_lines parse_part_headers strip_part part_headers_end store_part
    process_multipart_part process_parts parse_multipart_form_data unquote_boundary find_boundary
    parse_body_as parse_body receive_bytes find_and_store_header_end method_of store_method
    parse_method_within parse_and_store_method whole_number scan_content_length scan_header_part
    parse_and_store_content_length eof_of_method eof resolve_content_length set_content_length
    check_content_type parse_sized_body finalize_body check_method headers_view set_finalized
    finalize_lines finalize
read_request-dispatch = refl

process_request_dispatch_example :
    IsSafeRequest (finalize any_json read_request).0
    × (made_request ≡ make_request (finalize any_json read_request).0 (bytes "10.0.0.1"))
    × Routed settings (make_request (finalize any_json read_request).0 (bytes "10.0.0.1")) 7
process_request_dispatch_example =
    process_request_dispatch settings any_json read_request (bytes "10.0.0.1") made_request 7
      read_request-IsUnparsed read_request-dispatch
