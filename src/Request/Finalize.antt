-- ===== src/Request/Finalize.antt =====
-- `request_parser::finalize` of src/http_request.cpp. The log lines are left out.
pub mod Frame
pub mod Result
pub mod Length
use apiserver_asymetric_encr.Base.{
  ltb, if◌then◌else◌, value_or, take, sub_size, ℕ, ◌+◌, Bool, true, not, ◌&&◌, ◌||◌, Option, none,
  some,
}
use apiserver_asymetric_encr.Text.{Bytes, bytes, starts_with, find, substr}
use apiserver_asymetric_encr.Request.Model.{
  Method, post, put, patch, unknown, same_method, not_at_eof, no_request_line, method_not_allowed,
  missing_content_length, missing_content_type, unsupported_content_type, Parser, find_header,
  Parse, ◌>>◌,
}
use apiserver_asymetric_encr.Request.Buffer.{view}
use apiserver_asymetric_encr.Request.Uri.{parse_request_line}
use apiserver_asymetric_encr.Request.Headers.{parse_headers}
use apiserver_asymetric_encr.Request.Body.{parse_body}
use apiserver_asymetric_encr.Request.Eof.{whole_number, eof}

-- The fallback that reads the length from the header map.
unfoldable pub resolve_content_length : {J : Type 0} → Parser J → Parser J
resolve_content_length p = elim p.identified_content_length [
  | some n ↦ p
  | none ↦ elim (find_header (bytes "Content-Length") p.headers) [
    | none ↦ p
    | some sv ↦ elim (whole_number sv) [
      | none ↦ p
      | some n ↦ record p { identified_content_length = some n }
    ]
  ]
]

unfoldable pub set_content_length : {J : Type 0} → Parse J
set_content_length p = elim p.identified_content_length [
  | some n ↦ (record p { content_length = n }, none)
  | none ↦
      if same_method p.parsed_method post
      then (p, some missing_content_length)
      else (record p { content_length = 0 }, none)
]

unfoldable pub check_content_type : {J : Type 0} → Parse J
check_content_type p = elim (find_header (bytes "content-type") p.headers) [
  | none ↦ (p, some missing_content_type)
  | some content_type ↦
      if not (starts_with content_type (bytes "application/json"))
        && not (starts_with content_type (bytes "multipart/form-data"))
      then (p, some (unsupported_content_type content_type))
      else (p, none)
]

unfoldable pub parse_sized_body : {J : Type 0} → (Bytes → Option J) → Parse J
parse_sized_body parse_json p =
    if ltb 0 p.content_length then (check_content_type >> parse_body parse_json) p else (p, none)

abbrev pub has_body : Method → Bool
has_body m = same_method m post || same_method m put || same_method m patch

-- From `m_headerSize = …` to the end of the branch on methods with a body.
unfoldable pub finalize_body : {J : Type 0} → (Bytes → Option J) → Parse J
finalize_body parse_json p =
    let q : Parser _ = record p { header_size = value_or p.identified_header_size 0 } in
    if has_body q.parsed_method
    then (set_content_length >> parse_sized_body parse_json) (resolve_content_length q)
    else (q, none)

unfoldable pub check_method : {J : Type 0} → Parse J
check_method p =
    let m = value_or p.identified_method unknown in
    let q : Parser _ = record p { parsed_method = m } in
    if same_method m unknown then (q, some method_not_allowed) else (q, none)

-- The text between the request line and the blank line.
unfoldable pub headers_view : {J : Type 0} → ℕ → Parser J → Bytes
headers_view first_line_end p =
    let marker = sub_size (value_or p.identified_header_size 0) 4 in
    substr (view p.buffer) (first_line_end + 2) (sub_size marker (first_line_end + 2))

unfoldable pub set_finalized : {J : Type 0} → Parse J
set_finalized p = (record p { is_finalized = true }, none)

unfoldable pub finalize_lines : {J : Type 0} → (Bytes → Option J) → ℕ → Parse J
finalize_lines parse_json first_line_end p =
    (parse_request_line (take first_line_end (view p.buffer))
        >> check_method
        >> parse_headers (headers_view first_line_end p)
        >> finalize_body parse_json
        >> set_finalized)
      p

unfoldable pub finalize : {J : Type 0} → (Bytes → Option J) → Parse J
finalize parse_json p =
    if p.is_finalized
    then (p, none)
    else (let (complete, q) = eof p in
        if not complete then (q, some not_at_eof) else elim (find (view q.buffer) (bytes "\r\n")) [
          | none ↦ (q, some no_request_line)
          | some first_line_end ↦ finalize_lines parse_json first_line_end q
        ])
