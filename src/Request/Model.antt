-- ===== src/Request/Model.antt =====
-- The state of `http::request_parser` (src/http_request.hpp), its errors, and the two maps that it
-- fills. A `std::string_view` into the socket buffer is modelled by its bytes: the buffer is not
-- written again once the views are taken. What json-c makes of a body is a parameter: the type `J`
-- of its values, and the function `parse_json` where it is called.
pub mod Maps
pub mod Chain
use apiserver_asymetric_encr.Base.{
  if◌then◌else◌, ℕ, Bool, true, false, Option, none, some, List, [], ◌∷◌,
}
use apiserver_asymetric_encr.Text.{Bytes, same, sv_ci_equal}
use apiserver_asymetric_encr.Request.Buffer.{SocketBuffer, new_buffer}

pub data Method : Type 0 where
  get post put options patch unknown any_method : Method

pub Method-discrete : Discrete Method
Method-discrete = hlevel

unfoldable pub same_method : Method → Method → Bool
same_method get get = true
same_method post post = true
same_method put put = true
same_method options options = true
same_method patch patch = true
same_method unknown unknown = true
same_method any_method any_method = true
same_method _ _ = false

pub record MultipartItem : Type 0 where
  pub filename : Bytes
  pub content : Bytes
  pub content_type : Bytes
  pub field_name : Bytes

-- `multipart_part_headers`.
pub record PartHeaders : Type 0 where
  pub field_name : Option Bytes
  pub filename : Option Bytes
  pub content_type : Option Bytes

-- `request_parse_error`, one constructor for each message that the parser makes.
pub data ParseError : Type 0 where
  not_at_eof no_request_line empty_request_line missing_uri : ParseError
  query_not_allowed uri_too_long invalid_path : Bytes → ParseError
  method_not_allowed too_many_headers transfer_encoding : ParseError
  invalid_key invalid_value malformed_line : Bytes → ParseError
  duplicate_host duplicate_content_length : ParseError
  missing_content_length missing_content_type : ParseError
  unsupported_content_type : Bytes → ParseError
  json_error missing_boundary : ParseError

pub record Parser (J : Type 0) : Type 0 where
  pub buffer : SocketBuffer
  pub json_payload : Option J
  pub parsed_method : Method
  pub identified_method : Option Method
  pub identified_content_length : Option ℕ
  pub identified_header_size : Option ℕ
  pub headers : List (Bytes × Bytes)
  pub params : List (Bytes × Bytes)
  pub body : Option Bytes
  pub file_parts : List MultipartItem
  pub path : Bytes
  pub content_length : ℕ
  pub header_size : ℕ
  pub is_finalized : Bool

-- A default-constructed `request_parser`.
unfoldable pub new_parser : {J : Type 0} → Parser J
unfolding new_buffer
new_parser = record {
  buffer = new_buffer;
  json_payload = none;
  parsed_method = unknown;
  identified_method = none;
  identified_content_length = none;
  identified_header_size = none;
  headers = [];
  params = [];
  body = none;
  file_parts = [];
  path = [];
  content_length = 0;
  header_size = 0;
  is_finalized = false;
}

-- `find` in a map whose keys are compared by `eq`.
unfoldable pub lookup_by : (Bytes → Bytes → Bool) → Bytes → List (Bytes × Bytes) → Option Bytes
lookup_by eq key [] = none
lookup_by eq key ((k, v) ∷ m) = if eq k key then some v else lookup_by eq key m

-- `try_emplace`: an entry that is there stays as it is.
unfoldable pub emplace_by :
    (Bytes → Bytes → Bool) → Bytes → Bytes → List (Bytes × Bytes) → List (Bytes × Bytes)
emplace_by eq key value [] = (key, value) ∷ []
emplace_by eq key value ((k, v) ∷ m) =
    if eq k key then (k, v) ∷ m else (k, v) ∷ emplace_by eq key value m

-- `header_map` compares keys without regard to case, `param_map` as they are.
unfoldable pub find_header : Bytes → List (Bytes × Bytes) → Option Bytes
unfolding lookup_by sv_ci_equal
find_header = lookup_by sv_ci_equal

unfoldable pub emplace_header : Bytes → Bytes → List (Bytes × Bytes) → List (Bytes × Bytes)
unfolding emplace_by sv_ci_equal
emplace_header = emplace_by sv_ci_equal

unfoldable pub find_param : Bytes → List (Bytes × Bytes) → Option Bytes
unfolding lookup_by same
find_param = lookup_by same

unfoldable pub emplace_param : Bytes → Bytes → List (Bytes × Bytes) → List (Bytes × Bytes)
unfolding emplace_by same
emplace_param = emplace_by same

-- A parsing function changes the parser and may return an error; an error keeps the changes that
-- were made before it.
abbrev pub Parse : Type 0 → Type 0
Parse J = Parser J → Parser J × Option ParseError

infixl 5 ◌>>◌
abbrev pub ◌>>◌ : {J : Type 0} → Parse J → Parse J → Parse J
◌>>◌ first second p = let (q, e) = first p in elim e [ none ↦ second q | some err ↦ (q, some err) ]

abbrev pub fail : {J : Type 0} → ParseError → Parse J
fail e p = (p, some e)

abbrev pub done : {J : Type 0} → Parse J
done p = (p, none)
