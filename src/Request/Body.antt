-- ===== src/Request/Body.antt =====
-- `request_parser::parse_body` of src/http_request.cpp. json-c is the parameter `parse_json`: it
-- gives the value of a text, or `none` where `json::parsing_error` is thrown.
use apiserver_asymetric_encr.Base.{if◌then◌else◌, length, take, drop, ◌+◌, ◌-◌, Option, none, some}
use apiserver_asymetric_encr.Text.{Bytes, bytes, starts_with, ends_with, find}
use apiserver_asymetric_encr.Request.Model.{json_error, missing_boundary, find_header, Parse}
use apiserver_asymetric_encr.Request.Multipart.{body_view, parse_multipart_form_data}

-- `boundary` with a quote taken off at either end.
unfoldable pub unquote_boundary : Bytes → Bytes
unquote_boundary boundary =
    let front = if starts_with boundary (bytes "\"") then drop 1 boundary else boundary in
    if ends_with front (bytes "\"") then take (length front - 1) front else front

-- The text that follows "boundary=" in the content type.
unfoldable pub find_boundary : Bytes → Option Bytes
find_boundary content_type = elim (find content_type (bytes "boundary=")) [
  | none ↦ none
  | some at_prefix ↦
      some (unquote_boundary (drop (at_prefix + length (bytes "boundary=")) content_type))
]

unfoldable pub parse_body_as : {J : Type 0} → (Bytes → Option J) → Bytes → Parse J
parse_body_as parse_json content_type p =
    if starts_with content_type (bytes "application/json")
    then elim (parse_json (body_view p)) [
      | none ↦ (p, some json_error)
      | some payload ↦ (record p { json_payload = some payload; body = some (body_view p) }, none)
    ]
    else if starts_with content_type (bytes "multipart/form-data")
    then elim (find_boundary content_type) [
      | none ↦ (p, some missing_boundary)
      | some boundary ↦ parse_multipart_form_data boundary p
    ]
    else (record p { body = some (body_view p) }, none)

unfoldable pub parse_body : {J : Type 0} → (Bytes → Option J) → Parse J
parse_body parse_json p = elim (find_header (bytes "content-type") p.headers) [
  | none ↦ (record p { body = some (body_view p) }, none)
  | some content_type ↦ parse_body_as parse_json content_type p
]
