-- ===== src/Request/Headers.antt =====
-- The header block: `is_valid_header_key`, `is_valid_header_value` and
-- `request_parser::parse_headers` of src/http_request.cpp.
pub mod Accepted
pub mod Block
use apiserver_asymetric_encr.Base.{
  leb, ◌==◌, if◌then◌else◌, is_some, length, is_empty, take, drop, any, ℕ, ◌+◌, Bool, false, not,
  ◌&&◌, ◌||◌, none, some, List, [], ◌∷◌,
}
use apiserver_asymetric_encr.Text.{
  Bytes, bytes, find_if, split, trim_sv, is_digit, is_alpha, sv_ci_equal,
}
use apiserver_asymetric_encr.Request.Model.{
  too_many_headers, transfer_encoding, invalid_key, invalid_value, malformed_line, duplicate_host,
  duplicate_content_length, find_header, emplace_header, Parse, ◌>>◌, done,
}

-- The bytes of an RFC 7230 token, `valid_tchars`.
abbrev pub is_tchar : ℕ → Bool
is_tchar c = is_digit c || is_alpha c || any (λ v. v == c) (bytes "!#$%&'*+-.^_`|~")

unfoldable pub is_valid_header_key : Bytes → Bool
is_valid_header_key key =
    if is_empty key then false else not (is_some (find_if (λ c. not (is_tchar c)) key))

abbrev pub is_line_break : ℕ → Bool
is_line_break c = c == b'\r' || c == b'\n'

unfoldable pub is_valid_header_value : Bytes → Bool
is_valid_header_value value = not (is_some (find_if is_line_break value))

abbrev pub max_headers : ℕ
max_headers = 50

-- A line with its colon at `pos`, below the limit on the number of headers.
unfoldable pub parse_header_at : {J : Type 0} → Bytes → ℕ → Parse J
parse_header_at line colon p =
    let key = take colon line in
    let value = trim_sv (drop (colon + 1) line) in
    if not (is_valid_header_key key)
    then (p, some (invalid_key key))
    else if not (is_valid_header_value value)
    then (p, some (invalid_value key))
    else if sv_ci_equal key (bytes "Transfer-Encoding")
    then (p, some transfer_encoding)
    else if sv_ci_equal key (bytes "Host") && is_some (find_header (bytes "Host") p.headers)
    then (p, some duplicate_host)
    else if sv_ci_equal key (bytes "Content-Length")
        && is_some (find_header (bytes "Content-Length") p.headers)
    then (p, some duplicate_content_length)
    else (record p { headers = emplace_header key value p.headers }, none)

-- One round of the loop, on a line that is not empty.
unfoldable pub parse_header_line : {J : Type 0} → Bytes → Parse J
parse_header_line line p =
    if leb max_headers (length p.headers)
    then (p, some too_many_headers)
    else elim (find_if (λ c. c == b':') line) [
      | none ↦ (p, some (malformed_line line))
      | some colon ↦ parse_header_at line colon p
    ]

unfoldable pub parse_header_lines : {J : Type 0} → List Bytes → Parse J
parse_header_lines [] p = (p, none)
parse_header_lines (line ∷ rest) p =
    ((if is_empty line then done else parse_header_line line) >> parse_header_lines rest) p

unfoldable pub parse_headers : {J : Type 0} → Bytes → Parse J
parse_headers headers_sv = parse_header_lines (split (bytes "\r\n") headers_sv)
