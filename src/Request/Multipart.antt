-- ===== src/Request/Multipart.antt =====
-- Multipart bodies: `sanitize_filename`, `process_parameter`, `parse_part_headers`,
-- `process_multipart_part` and `parse_multipart_form_data` of src/http_request.cpp.
pub mod Filenames
use apiserver_asymetric_encr.Base.{
  leb, ◌==◌, if◌then◌else◌, value_or, length, is_empty, take, drop, last_or, ℕ, ◌+◌, ◌-◌, Bool,
  false, not, ◌&&◌, ◌||◌, Option, none, some, List, [], ◌∷◌, ◌++◌,
}
use apiserver_asymetric_encr.Text.{
  Bytes, bytes, same, starts_with, ends_with, find, find_if, find_last_if, substr, split, trim_sv,
  sv_ci_equal,
}
use apiserver_asymetric_encr.Request.Model.{PartHeaders, Parser, emplace_param, Parse}
use apiserver_asymetric_encr.Request.Buffer.{view}

abbrev pub is_separator : ℕ → Bool
is_separator c = c == b'/' || c == b'\\'

unfoldable pub sanitize_filename : Bytes → Bytes
sanitize_filename filename = elim (find_last_if is_separator filename) [
  | none ↦ filename
  | some last_sep ↦ drop (last_sep + 1) filename
]

abbrev quote : ℕ
quote = 34

-- `remove_suffix(1)` where the last byte is a quote; the text is not empty.
unfoldable pub strip_last_quote : Bytes → Bytes
strip_last_quote s = if last_or 0 s == quote then take (length s - 1) s else s

unfoldable pub strip_quotes : Bytes → Bytes
strip_quotes [] = []
strip_quotes (c ∷ cs) =
    if leb 2 (length (c ∷ cs)) && c == quote then strip_last_quote cs else c ∷ cs

-- What `process_parameter` does with a key and a value.
unfoldable pub set_parameter : Bytes → Bytes → PartHeaders → PartHeaders
set_parameter key value headers =
    if same key (bytes "name")
    then record headers { field_name = some value }
    else if same key (bytes "filename")
    then record headers { filename = some (sanitize_filename value) }
    else headers

unfoldable pub process_parameter : Bytes → PartHeaders → PartHeaders
process_parameter param headers =
    let trimmed = trim_sv param in
    if is_empty trimmed then headers else elim (find_if (λ c. c == b'=') trimmed) [
      | none ↦ headers
      | some eq_pos ↦
          set_parameter (take eq_pos trimmed) (strip_quotes (drop (eq_pos + 1) trimmed)) headers
    ]

-- One round of the loop of `extract_params_from_content`: the quote flag, the token read since the
-- last split, and the headers.
unfoldable pub content_step : ℕ → Bool × Bytes × PartHeaders → Bool × Bytes × PartHeaders
content_step c (in_quotes, token, headers) =
    if c == quote
    then (not in_quotes, token ++ c ∷ [], headers)
    else if c == b';' && not in_quotes
    then (in_quotes, [], process_parameter token headers)
    else (in_quotes, token ++ c ∷ [], headers)

unfoldable pub extract_params_from : Bool × Bytes × PartHeaders → Bytes → PartHeaders
extract_params_from (in_quotes, token, headers) [] = process_parameter token headers
extract_params_from state (c ∷ cs) = extract_params_from (content_step c state) cs

unfoldable pub extract_params_from_content : Bytes → PartHeaders → PartHeaders
extract_params_from_content content headers = extract_params_from (false, [], headers) content

-- A line of a part's header block with its colon at `colon`.
unfoldable pub part_header_at : Bytes → ℕ → PartHeaders → PartHeaders
part_header_at line colon headers =
    if sv_ci_equal (take colon line) (bytes "Content-Disposition")
    then extract_params_from_content (drop (colon + 1) line) headers
    else if sv_ci_equal (take colon line) (bytes "Content-Type")
    then record headers { content_type = some (trim_sv (drop (colon + 1) line)) }
    else headers

unfoldable pub part_header_line : Bytes → PartHeaders → PartHeaders
part_header_line line headers = elim (find_if (λ c. c == b':') line) [
  | none ↦ headers
  | some colon ↦ part_header_at line colon headers
]

unfoldable pub part_header_lines : List Bytes → PartHeaders → PartHeaders
part_header_lines [] headers = headers
part_header_lines (line ∷ rest) headers =
    part_header_lines rest (if is_empty line then headers else part_header_line line headers)

unfoldable pub parse_part_headers : Bytes → PartHeaders
parse_part_headers part_headers_sv =
    part_header_lines (split (bytes "\r\n") part_headers_sv)
      (record { field_name = none; filename = none; content_type = none })

-- The part without the line breaks that belong to the boundary lines.
unfoldable pub strip_part : Bytes → Bytes
strip_part part =
    let after = if starts_with part (bytes "\r\n") then drop 2 part else part in
    if ends_with after (bytes "\r\n") then take (length after - 2) after else after

-- Where the header block of a part ends, and how long its delimiter is.
unfoldable pub part_headers_end : Bytes → Option (ℕ × ℕ)
part_headers_end part = elim (find part (bytes "\r\n\r\n")) [
  | some end_pos ↦ some (end_pos, 4)
  | none ↦ elim (find part (bytes "\n\n")) [ some end_pos ↦ some (end_pos, 2) | none ↦ none ]
]

-- A part with its headers: a file if it has a file name, else a parameter.
unfoldable pub store_part : {J : Type 0} → PartHeaders → Bytes → Parser J → Parser J
store_part headers content p = elim headers.field_name [
  | none ↦ p
  | some field ↦ elim headers.filename [
    | some filename ↦ record p {
      file_parts =
          p.file_parts
          ++ record {
            filename = filename;
            content = content;
            content_type = value_or headers.content_type [];
            field_name = field;
          }
            ∷ [];
    }
    | none ↦ record p { params = emplace_param field content p.params }
  ]
]

unfoldable pub process_multipart_part : {J : Type 0} → Bytes → Parser J → Parser J
process_multipart_part part p =
    let stripped = strip_part part in
    elim (part_headers_end stripped) [
      | none ↦ p
      | some (end_pos, delimiter_len) ↦
          store_part (parse_part_headers (take end_pos stripped))
            (drop (end_pos + delimiter_len) stripped) p
    ]

unfoldable pub process_parts : {J : Type 0} → List Bytes → Parser J → Parser J
process_parts [] p = p
process_parts (part ∷ rest) p = process_parts rest (process_multipart_part part p)

-- `m_buffer->view().substr(m_headerSize, m_contentLength)`.
abbrev pub body_view : {J : Type 0} → Parser J → Bytes
body_view p = substr (view p.buffer) p.header_size p.content_length

-- The first piece, before the first boundary, is dropped.
unfoldable pub parse_multipart_form_data : {J : Type 0} → Bytes → Parse J
parse_multipart_form_data boundary p =
    (process_parts (drop 1 (split (bytes "--" ++ boundary) (body_view p))) p, none)
