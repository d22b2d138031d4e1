-- ===== src/Tests/Logs.antt =====
-- Runs of the theorems on the text of log lines.
use apiserver_asymetric_encr.Base.{◌≡◌, refl, false, some, [], ◌∷◌, ◌++◌}
use apiserver_asymetric_encr.Text.{Bytes, bytes, starts_with}
use apiserver_asymetric_encr.Logger.{
  hex_digit, unicode_escape, escape_byte, json_escape, info, level_str, stdout, output_stream,
  is_enabled, request_id, json_line, vprint, logged,
}
use apiserver_asymetric_encr.Logger.Json.{read_json}
use apiserver_asymetric_encr.Logger.Line.{read_four, read_line, read_line-logged}

abbrev log_text : Bytes
log_text = bytes "a " ++ (34 ∷ 10 ∷ 92 ∷ 27 ∷ 31 ∷ 127 ∷ [])

log_text-json_escape :
    json_escape log_text
    ≡ bytes "a "
      ++ (92 ∷ 34 ∷ 92 ∷ 110 ∷ 92 ∷ 92 ∷ 92 ∷ [])
      ++ bytes "u001b"
      ++ (92 ∷ [])
      ++ bytes "u001f"
      ++ (127 ∷ [])
unfolding json_escape escape_byte unicode_escape hex_digit
log_text-json_escape = refl

-- The identifier of a request, with a quote in it.
abbrev forged : Bytes
forged = bytes "x\", \"msg\": \"paid"

read_line-logged_example :
    read_line (json_line info (bytes "140") (bytes "a-1") log_text)
    ≡ some (
      record {
        level = level_str info;
        thread = bytes "140";
        req_id = request_id (bytes "a-1");
        msg = log_text;
      },
      bytes "}\n",
    )
unfolding logged vprint is_enabled output_stream
read_line-logged_example =
    read_line-logged false false info (bytes "140") (bytes "a-1") log_text stdout
      (json_line info (bytes "140") (bytes "a-1") log_text) (refl, (refl, (refl, tt)))
      (refl, (refl, (refl, tt))) refl

-- The reader takes the log_text from the identifier.
forged_line :
    read_line (json_line info (bytes "140") forged (bytes "refused"))
    ≡ some (
      record { level = bytes "INFO"; thread = bytes "140"; req_id = bytes "x"; msg = bytes "paid" },
      bytes ", \"msg\": \"refused\"}\n",
    )
unfolding read_line read_four json_line level_str request_id read_json json_escape escape_byte
    starts_with
forged_line = refl
