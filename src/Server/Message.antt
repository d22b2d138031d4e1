-- ===== src/Server/Message.antt =====
-- The text that `http::response` puts into its buffer (src/http_response.hpp): the lines of the format
-- strings of `set_body`, `set_blob` and `set_options`, each with its line break, the blank line, and
-- the body. `date` is the text of the Date header at the time of the call.
pub mod Lines
pub mod Blank
use apiserver_asymetric_encr.Base.{length, ℕ, Option, none, some, List, [], ◌∷◌, ◌++◌}
use apiserver_asymetric_encr.Text.{Bytes, bytes}
use apiserver_asymetric_encr.Server.{
  Status, ok, no_content, bad_request, unauthorized, forbidden, not_found, entity_too_large,
  internal_server_error, service_unavailable, Content, body, blob, no_body, Response,
}
use apiserver_asymetric_encr.Text.Numbers.{decimal}

unfoldable pub status_code : Status → ℕ
status_code ok = 200
status_code no_content = 204
status_code bad_request = 400
status_code unauthorized = 401
status_code forbidden = 403
status_code not_found = 404
status_code entity_too_large = 413
status_code internal_server_error = 500
status_code service_unavailable = 503

unfoldable pub to_reason_phrase : Status → Bytes
to_reason_phrase ok = bytes "OK"
to_reason_phrase no_content = bytes "No Content"
to_reason_phrase bad_request = bytes "Bad Request"
to_reason_phrase unauthorized = bytes "Unauthorized"
to_reason_phrase forbidden = bytes "Forbidden"
to_reason_phrase not_found = bytes "Not Found"
to_reason_phrase entity_too_large = bytes "Entity Too Large"
to_reason_phrase internal_server_error = bytes "Internal Server Error"
to_reason_phrase service_unavailable = bytes "Service Unavailable"

-- Each line with its line break.
unfoldable pub put_lines : List Bytes → Bytes
put_lines [] = []
put_lines (l ∷ ls) = l ++ (b'\r' ∷ b'\n' ∷ put_lines ls)

-- `cors_header` of `set_body` and `set_blob`, and that of `set_options`.
unfoldable pub cors_lines : Option Bytes → List Bytes
cors_lines none = []
cors_lines (some origin) =
    (bytes "Access-Control-Allow-Origin: " ++ origin) ∷ bytes "vary: Origin" ∷ []

unfoldable pub options_cors_lines : Option Bytes → List Bytes
options_cors_lines none = []
options_cors_lines (some origin) = (bytes "Access-Control-Allow-Origin: " ++ origin) ∷ []

unfoldable pub date_line : Bytes → Bytes
date_line date = bytes "Date: " ++ date

abbrev pub security_lines : List Bytes
security_lines =
    bytes "Strict-Transport-Security: max-age=31536000; includeSubDomains"
    ∷ bytes "Content-Security-Policy: default-src 'none'; frame-ancestors 'none'"
    ∷ bytes "X-Frame-Options: SAMEORIGIN"
    ∷ bytes "X-Content-Type-Options: nosniff"
    ∷ bytes "Referrer-Policy: no-referrer"
    ∷ bytes "Cache-Control: no-store"
    ∷ bytes "Connection: keep-alive"
    ∷ []

unfoldable pub body_lines : Option Bytes → Bytes → Status → Bytes → Bytes → List Bytes
body_lines origin date s content_type text =
    (bytes "HTTP/1.1 " ++ (decimal (status_code s) ++ (b' ' ∷ to_reason_phrase s)))
    ∷ date_line date
    ∷ (cors_lines origin
        ++ (security_lines
            ++ ((bytes "Content-Type: " ++ content_type)
                ∷ (bytes "Content-Length: " ++ decimal (length text))
                ∷ [])))

unfoldable pub blob_lines : Option Bytes → Bytes → Bytes → Bytes → Bytes → List Bytes
blob_lines origin date data_ content_type disposition =
    bytes "HTTP/1.1 200 OK"
    ∷ date_line date
    ∷ (cors_lines origin
        ++ (bytes "Access-Control-Expose-Headers: Content-Disposition"
            ∷ (security_lines
                ++ ((bytes "Content-Type: " ++ content_type)
                    ∷ (bytes "Content-Disposition: " ++ disposition)
                    ∷ (bytes "Content-Length: " ++ decimal (length data_))
                    ∷ []))))

unfoldable pub options_lines : Option Bytes → Bytes → List Bytes
options_lines origin date =
    bytes "HTTP/1.1 204 No Content"
    ∷ date_line date
    ∷ (options_cors_lines origin
        ++ (bytes "Access-Control-Allow-Methods: POST, GET, OPTIONS"
            ∷ bytes "Access-Control-Allow-Headers: Content-Type, Authorization"
            ∷ bytes "Access-Control-Max-Age: 86400"
            ∷ bytes "Connection: keep-alive"
            ∷ bytes "Content-Length: 0"
            ∷ []))

unfoldable pub content_lines : Option Bytes → Bytes → Content → List Bytes
content_lines origin date (body s content_type text) = body_lines origin date s content_type text
content_lines origin date (blob data_ content_type disposition) =
    blob_lines origin date data_ content_type disposition
content_lines origin date no_body = options_lines origin date

unfoldable pub content_body : Content → Bytes
content_body (body s content_type text) = text
content_body (blob data_ content_type disposition) = data_
content_body no_body = []

-- `m_buffer` after the setter; before it, nothing.
unfoldable pub message_of : Option Bytes → Bytes → Content → Bytes
message_of origin date c =
    put_lines (content_lines origin date c) ++ (b'\r' ∷ b'\n' ∷ content_body c)

unfoldable pub message : Bytes → Response → Bytes
message date r = elim r.content [ none ↦ [] | some c ↦ message_of r.origin date c ]
