-- ===== src/Tests/Requests.antt =====
-- The theorems on request parsing, at requests that are written out.
use apiserver_asymetric_encr.Base.{
  length, ℕ, ◌≡◌, refl, ◌↔◌, true, false, Option, none, some, [], arith,
}
use apiserver_asymetric_encr.Text.{
  Bytes, bytes, same, starts_with, ends_with, find, find_if, find_last_if, push_front, split_from,
  split, trim_left, trim_right, trim_sv, tolower, sv_ci_equal, sv_ci_hash_from, sv_ci_hash,
  take_digits, from_chars_size,
}
use apiserver_asymetric_encr.Request.Model.{
  post, unknown, same_method, Parser, new_parser, lookup_by, emplace_by, find_header,
  emplace_header, find_param, emplace_param,
}
use apiserver_asymetric_encr.Request.Buffer.{
  new_buffer, available_size, view, store, resize, update_pos,
}
use apiserver_asymetric_encr.Request.Finalize.{
  resolve_content_length, set_content_length, check_content_type, parse_sized_body, finalize_body,
  check_method, headers_view, set_finalized, finalize_lines, finalize,
}
use apiserver_asymetric_encr.Request.Finalize.Result.{
  IsUnparsed, IsSafeRequest, finalize-IsSafeRequest, finalize-eof,
}
use apiserver_asymetric_encr.Request.Eof.{
  receive_bytes, find_and_store_header_end, method_of, store_method, parse_method_within,
  parse_and_store_method, whole_number, scan_content_length, scan_header_part,
  parse_and_store_content_length, eof_of_method, eof,
}
use apiserver_asymetric_encr.Request.Uri.{
  is_valid_path, parse_uri, parse_request_line_parts, parse_request_line,
}
use apiserver_asymetric_encr.Request.Headers.{
  is_valid_header_key, is_valid_header_value, parse_header_at, parse_header_line,
  parse_header_lines, parse_headers,
}
use apiserver_asymetric_encr.Request.Multipart.{
  sanitize_filename, strip_last_quote, strip_quotes, set_parameter, process_parameter, content_step,
  extract_params_from, extract_params_from_content, part_header_at, part_header_line,
  part_header_lines, parse_part_headers, strip_part, part_headers_end, store_part,
  process_multipart_part, process_parts, parse_multipart_form_data,
}
use apiserver_asymetric_encr.Request.Body.{
  unquote_boundary, find_boundary, parse_body_as, parse_body,
}
use apiserver_asymetric_encr.Request.Eof.Complete.{HasHeader, eof_iff}
use apiserver_asymetric_encr.Request.Finalize.Length.{finalize_post}

abbrev pub parser_of : Bytes → Parser ℕ
parser_of text = record {
  buffer = record { buffer = text; filled = length text };
  json_payload = none;
  parsed_method = unknown;
  identified_method = none;
  identified_content_length = none;
  identified_header_size = none;
  headers = [];
  params = [];
  body = none;
  file_parts = [];
  path = [];
  content_length = 0;
  header_size = 0;
  is_finalized = false;
}

-- A JSON reader that takes every text.
abbrev any_json : Bytes → Option ℕ
any_json text = some (length text)

abbrev pub posted : Bytes
posted = bytes "POST /a HTTP/1.1\r\nContent-Type: application/json\r\nContent-Length: 2\r\n\r\n{}"

posted-IsUnparsed : IsUnparsed (parser_of posted)
unfolding view
posted-IsUnparsed = record {
  fresh = record { no_method = refl; no_header = refl };
  no_headers = refl;
  no_files = refl;
  no_length = refl;
  open_state = refl;
  small = omega arith;
}

posted-finalize : (finalize any_json (parser_of posted)).1 ≡ none
unfolding same starts_with ends_with find find_if find_last_if push_front split_from split trim_left
    trim_right trim_sv tolower sv_ci_equal sv_ci_hash_from sv_ci_hash take_digits from_chars_size
    new_buffer available_size view store resize update_pos same_method new_parser lookup_by
    emplace_by find_header emplace_header find_param emplace_param is_valid_path parse_uri
    parse_request_line_parts parse_request_line is_valid_header_key is_valid_header_value
    parse_header_at parse_header_line parse_header_lines parse_headers sanitize_filename
    strip_last_quote strip_quotes set_parameter process_parameter content_step extract_params_from
    extract_params_from_content part_header_at part_header_line part_header_lines parse_part_headers
    strip_part part_headers_end store_part process_multipart_part process_parts
    parse_multipart_form_data unquote_boundary find_boundary parse_body_as parse_body receive_bytes
    find_and_store_header_end method_of store_method parse_method_within parse_and_store_method
    whole_number scan_content_length scan_header_part parse_and_store_content_length eof_of_method
    eof resolve_content_length set_content_length check_content_type parse_sized_body finalize_body
    check_method headers_view set_finalized finalize_lines finalize
posted-finalize = refl

finalize-IsSafeRequest_example : IsSafeRequest (finalize any_json (parser_of posted)).0
finalize-IsSafeRequest_example =
    finalize-IsSafeRequest any_json (parser_of posted) posted-IsUnparsed posted-finalize

eof_iff_example : ((eof (parser_of posted)).0 ≡ true) ↔ HasHeader (view (parser_of posted).buffer)
eof_iff_example = eof_iff (parser_of posted) posted-IsUnparsed.fresh posted-IsUnparsed.small

posted-eof : (eof (parser_of posted)).0 ≡ true
unfolding same starts_with ends_with find find_if find_last_if push_front split_from split trim_left
    trim_right trim_sv tolower sv_ci_equal sv_ci_hash_from sv_ci_hash take_digits from_chars_size
    new_buffer available_size view store resize update_pos same_method new_parser lookup_by
    emplace_by find_header emplace_header find_param emplace_param is_valid_path parse_uri
    parse_request_line_parts parse_request_line is_valid_header_key is_valid_header_value
    parse_header_at parse_header_line parse_header_lines parse_headers sanitize_filename
    strip_last_quote strip_quotes set_parameter process_parameter content_step extract_params_from
    extract_params_from_content part_header_at part_header_line part_header_lines parse_part_headers
    strip_part part_headers_end store_part process_multipart_part process_parts
    parse_multipart_form_data unquote_boundary find_boundary parse_body_as parse_body receive_bytes
    find_and_store_header_end method_of store_method parse_method_within parse_and_store_method
    whole_number scan_content_length scan_header_part parse_and_store_content_length eof_of_method
    eof resolve_content_length set_content_length check_content_type parse_sized_body finalize_body
    check_method headers_view set_finalized finalize_lines finalize
posted-eof = refl

finalize-eof_example :
    finalize any_json (eof (parser_of posted)).1 ≡ finalize any_json (parser_of posted)
finalize-eof_example = finalize-eof any_json (parser_of posted) posted-IsUnparsed posted-eof

posted-method : same_method (finalize any_json (parser_of posted)).0.parsed_method post ≡ true
unfolding same starts_with ends_with find find_if find_last_if push_front split_from split trim_left
    trim_right trim_sv tolower sv_ci_equal sv_ci_hash_from sv_ci_hash take_digits from_chars_size
    new_buffer available_size view store resize update_pos same_method new_parser lookup_by
    emplace_by find_header emplace_header find_param emplace_param is_valid_path parse_uri
    parse_request_line_parts parse_request_line is_valid_header_key is_valid_header_value
    parse_header_at parse_header_line parse_header_lines parse_headers sanitize_filename
    strip_last_quote strip_quotes set_parameter process_parameter content_step extract_params_from
    extract_params_from_content part_header_at part_header_line part_header_lines parse_part_headers
    strip_part part_headers_end store_part process_multipart_part process_parts
    parse_multipart_form_data unquote_boundary find_boundary parse_body_as parse_body receive_bytes
    find_and_store_header_end method_of store_method parse_method_within parse_and_store_method
    whole_number scan_content_length scan_header_part parse_and_store_content_length eof_of_method
    eof resolve_content_length set_content_length check_content_type parse_sized_body finalize_body
    check_method headers_view set_finalized finalize_lines finalize
posted-method = refl

finalize_post_example :
    (sv : Bytes) × (find_header
        (bytes "Content-Length")
        (finalize any_json (parser_of posted)).0.headers
      ≡ some sv)
    × (whole_number sv ≡ some (finalize any_json (parser_of posted)).0.content_length)
finalize_post_example =
    finalize_post any_json (parser_of posted) posted-IsUnparsed posted-finalize posted-method
