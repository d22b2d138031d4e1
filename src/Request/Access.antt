-- ===== src/Request/Access.antt =====
-- `http::request`, the finalized request that a handler gets (src/http_request.hpp and
-- src/http_request.cpp). The values of json-c are parameters: `has_key` and `get_string`.
use apiserver_asymetric_encr.Base.{
  ◌==◌, if◌then◌else◌, value_or, is_empty, take, drop, Bool, ◌||◌, Option, none, some, List, [],
  ◌∷◌,
}
use apiserver_asymetric_encr.Text.{Bytes, bytes, same, starts_with, find_if, trim_sv}
use apiserver_asymetric_encr.Request.Model.{Method, MultipartItem, Parser, find_header, find_param}
use apiserver_asymetric_encr.Jwt.{Result, success, failure, Claims, find_in_claims, get_claims}

pub record Request (J : Type 0) : Type 0 where
  pub json_payload : Option J
  pub method : Method
  pub headers : List (Bytes × Bytes)
  pub params : List (Bytes × Bytes)
  pub body : Option Bytes
  pub file_parts : List MultipartItem
  pub path : Bytes
  pub remote_ip : Bytes

-- The first address of an X-Forwarded-For value.
unfoldable pub first_forwarded : Bytes → Bytes
first_forwarded forwarded = elim (find_if (λ c. c == b',') forwarded) [
  | some comma ↦ trim_sv (take comma forwarded)
  | none ↦ trim_sv forwarded
]

-- The constructor: the parser's parts are moved out of it.
unfoldable pub make_request : {J : Type 0} → Parser J → Bytes → Request J
make_request p peer = record {
  json_payload = p.json_payload;
  method = p.parsed_method;
  headers = p.headers;
  params = p.params;
  body = p.body;
  file_parts = p.file_parts;
  path = p.path;
  remote_ip = elim (find_header (bytes "X-Forwarded-For") p.headers) [
    | none ↦ peer
    | some forwarded ↦ first_forwarded forwarded
  ];
}

unfoldable pub get_header_value : {J : Type 0} → Request J → Bytes → Option Bytes
get_header_value req key = find_header key req.headers

unfoldable pub bearer_of : Bytes → Option Bytes
bearer_of v =
    if starts_with v (bytes "Bearer ") || starts_with v (bytes "bearer ")
    then some (drop 7 v)
    else none

unfoldable pub get_bearer_token : {J : Type 0} → Request J → Option Bytes
get_bearer_token req = elim (find_header (bytes "Authorization") req.headers) [
  | none ↦ none
  | some v ↦ bearer_of v
]

-- A claim of the request's token, of which `get_claims` looks at no signature.
unfoldable pub claim_of : {J : Type 0} → (Bytes → Result Claims) → Bytes → Request J → Bytes
claim_of get_claims key req = elim (get_claims (value_or (get_bearer_token req) [])) [
  | failure e ↦ bytes "not available"
  | success claims ↦ value_or (find_in_claims key claims) (bytes "not available")
]

unfoldable pub get_user : {J : Type 0} → (Bytes → Result Claims) → Request J → Bytes
get_user get_claims req = claim_of get_claims (bytes "user") req

unfoldable pub get_session_id : {J : Type 0} → (Bytes → Result Claims) → Request J → Bytes
get_session_id get_claims req = claim_of get_claims (bytes "sessionId") req

unfoldable pub find_upload : Bytes → List MultipartItem → Option MultipartItem
find_upload field [] = none
find_upload field (item ∷ rest) =
    if same item.field_name field then some item else find_upload field rest

unfoldable pub get_file_upload : {J : Type 0} → Request J → Bytes → Option MultipartItem
get_file_upload req field = find_upload field req.file_parts

-- What `get_required_param` returns, or the exception that it throws.
pub data ParamResult (T : Type 0) : Type 0 where
  returned : T → ParamResult T
  bad_expected_access : Bytes → ParamResult T
  bad_optional_access : ParamResult T

-- What `get_value` returns: a value, no value, or the text that has the wrong format.
pub data Value (T : Type 0) : Type 0 where
  value : T → Value T
  no_value : Value T
  param_error : Bytes → Value T

module _ {J : Type 0} (has_key : J → Bytes → Bool) (get_string : J → Bytes → Bytes) where
  -- The text of a parameter: of the form, or else of the JSON payload.
  unfoldable pub find_text : Request J → Bytes → Option Bytes
  find_text req name = elim (find_param name req.params) [
    | some sv ↦ some sv
    | none ↦ elim req.json_payload [
      | none ↦ none
      | some j ↦ if has_key j name then some (get_string j name) else none
    ]
  ]

  -- `get_value` at the two string types.
  unfoldable pub get_text : Request J → Bytes → Value Bytes
  get_text req name = elim (find_text req name) [ none ↦ no_value | some sv ↦ value sv ]

  -- `get_value` at the other types: `parse` is `parse_chrono_type`, or `std::from_chars` with its
  -- test that the whole text is read.
  unfoldable pub get_parsed : {T : Type 0} → (Bytes → Option T) → Request J → Bytes → Value T
  get_parsed parse req name = elim (find_text req name) [
    | none ↦ no_value
    | some sv ↦
        if is_empty sv
        then no_value
        else elim (parse sv) [ some t ↦ value t | none ↦ param_error sv ]
  ]

-- `.value().value()`.
unfoldable pub unwrap : {T : Type 0} → Value T → ParamResult T
unwrap (value v) = returned v
unwrap no_value = bad_optional_access
unwrap (param_error original) = bad_expected_access original

-- The accessors on top of `get_value`, which is `read`.
module _ {J T : Type 0} (read : Request J → Bytes → Value T) where
  unfoldable pub get_required_param : Request J → Bytes → ParamResult T
  get_required_param req name = unwrap (read req name)

  unfoldable pub get_optional_param : Request J → Bytes → Option T
  get_optional_param req name = elim (read req name) [
    | param_error original ↦ none
    | no_value ↦ none
    | value v ↦ some v
  ]
