-- ===== src/Request/Uri.antt =====
-- The request line and the path: `is_valid_path`, `request_parser::parse_request_line` and
-- `request_parser::parse_uri` of src/http_request.cpp.
pub mod Safe
use apiserver_asymetric_encr.Base.{
  ltb, ◌==◌, if◌then◌else◌, is_some, length, ℕ, Bool, true, false, not, ◌||◌, none, some, List, [],
  ◌∷◌,
}
use apiserver_asymetric_encr.Text.{Bytes, bytes, find, find_if, split}
use apiserver_asymetric_encr.Request.Model.{
  empty_request_line, missing_uri, query_not_allowed, uri_too_long, invalid_path, Parse,
}

abbrev pub max_path_length : ℕ
max_path_length = 2048

-- `invalid_chars`: percent, NUL, CR, LF and the backslash.
abbrev pub is_invalid_char : ℕ → Bool
is_invalid_char c = c == b'%' || c == 0 || c == b'\r' || c == b'\n' || c == b'\\'

unfoldable pub is_valid_path : Bytes → Bool
is_valid_path [] = false
is_valid_path (c ∷ cs) =
    if not (c == b'/')
    then false
    else if is_some (find_if is_invalid_char (c ∷ cs))
    then false
    else if is_some (find (c ∷ cs) (bytes ".."))
    then false
    else true

unfoldable pub parse_uri : {J : Type 0} → Bytes → Parse J
parse_uri uri p =
    if is_some (find_if (λ c. c == b'?') uri)
    then (p, some (query_not_allowed uri))
    else if ltb max_path_length (length uri)
    then (p, some (uri_too_long uri))
    else (
      record p { path = uri },
      (if not (is_valid_path uri) then some (invalid_path uri) else none),
    )

-- The pieces of the request line between blanks; the second is the URI.
unfoldable pub parse_request_line_parts : {J : Type 0} → List Bytes → Parse J
parse_request_line_parts [] p = (p, some empty_request_line)
parse_request_line_parts (m ∷ []) p = (p, some missing_uri)
parse_request_line_parts (m ∷ uri ∷ rest) p = parse_uri uri p

unfoldable pub parse_request_line : {J : Type 0} → Bytes → Parse J
parse_request_line line p = parse_request_line_parts (split (bytes " ") line) p
