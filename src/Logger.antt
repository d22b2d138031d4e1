-- ===== src/Logger.antt =====
-- The log lines of src/logger.hpp: `json_escape`, and `vprint` with the functions that call it. The
-- thread's number and the formatted message are arguments.
pub mod Json
pub mod Line
use apiserver_asymetric_encr.Base.{
  ltb, ◌==◌, if◌then◌else◌, length, is_empty, replicate, ℕ, ◌+◌, ◌-◌, ◌/◌, ◌%◌, Bool, true, Option,
  none, some, [], ◌∷◌, ◌++◌,
}
use apiserver_asymetric_encr.Text.{Bytes, bytes}

-- A digit of `std::format` with `x`.
unfoldable pub hex_digit : ℕ → ℕ
hex_digit n = if ltb n 10 then 48 + n else 87 + n

-- The byte of the format with `u` and four hexadecimal digits.
unfoldable pub unicode_escape : ℕ → Bytes
unicode_escape c = 92 ∷ 117 ∷ 48 ∷ 48 ∷ hex_digit (c / 16) ∷ hex_digit (c % 16) ∷ []

-- The `switch` on one byte.
unfoldable pub escape_byte : ℕ → Bytes
escape_byte c =
    if c == 34
    then 92 ∷ 34 ∷ []
    else if c == 92
    then 92 ∷ 92 ∷ []
    else if c == 8
    then 92 ∷ 98 ∷ []
    else if c == 12
    then 92 ∷ 102 ∷ []
    else if c == 10
    then 92 ∷ 110 ∷ []
    else if c == 13
    then 92 ∷ 114 ∷ []
    else if c == 9
    then 92 ∷ 116 ∷ []
    else if ltb c 32
    then unicode_escape c
    else c ∷ []

unfoldable pub json_escape : Bytes → Bytes
json_escape [] = []
json_escape (c ∷ cs) = escape_byte c ++ json_escape cs

pub data Level : Type 0 where
  debug info warning error critical perf : Level

unfoldable pub level_str : Level → Bytes
level_str debug = bytes "DEBUG"
level_str info = bytes "INFO"
level_str warning = bytes "WARN"
level_str error = bytes "ERROR"
level_str critical = bytes "CRITICAL"
level_str perf = bytes "PERF"

pub data Stream : Type 0 where
  stdout stderr : Stream

unfoldable pub output_stream : Level → Stream
output_stream info = stdout
output_stream debug = stderr
output_stream warning = stderr
output_stream error = stderr
output_stream critical = stderr
output_stream perf = stderr

-- Which levels the build has.
unfoldable pub is_enabled : Bool → Bool → Level → Bool
is_enabled debug_logging_enabled perf_logging_enabled debug = debug_logging_enabled
is_enabled debug_logging_enabled perf_logging_enabled perf = perf_logging_enabled
is_enabled debug_logging_enabled perf_logging_enabled info = true
is_enabled debug_logging_enabled perf_logging_enabled warning = true
is_enabled debug_logging_enabled perf_logging_enabled error = true
is_enabled debug_logging_enabled perf_logging_enabled critical = true

unfoldable pub request_id : Bytes → Bytes
request_id g_request_id = if is_empty g_request_id then bytes "--------" else g_request_id

unfoldable pub json_line : Level → Bytes → Bytes → Bytes → Bytes
json_line level thread g_request_id message =
    bytes "{\"level\": \""
    ++ (level_str level
        ++ (bytes "\", \"thread\": \""
            ++ (thread
                ++ (bytes "\", \"req_id\": \""
                    ++ (request_id g_request_id
                        ++ (bytes "\", \"msg\": \"" ++ (json_escape message ++ bytes "\"}\n")))))))

-- `{:^8}`: the text in the middle of eight places.
unfoldable pub centered : Bytes → Bytes
centered s =
    let left = (8 - length s) / 2 in
    replicate left b' ' ++ (s ++ replicate (8 - length s - left) b' ')

unfoldable pub plain_line : Level → Bytes → Bytes → Bytes → Bytes
plain_line level thread g_request_id message =
    bytes "["
    ++ (centered (level_str level)
        ++ (bytes "] [Thread: "
            ++ (thread
                ++ (bytes "] ["
                    ++ (request_id g_request_id ++ (bytes "] " ++ (message ++ bytes "\n")))))))

-- `vprint`, without the stack trace that a build may ask for.
unfoldable pub vprint : Bool → Level → Bytes → Bytes → Bytes → Stream × Bytes
vprint use_json_format level thread g_request_id message = (
  output_stream level,
  if use_json_format
      then json_line level thread g_request_id message
      else plain_line level thread g_request_id message,
)

-- `debug`, `perf`, `info`, `warn`, `error` and `critical`.
unfoldable pub logged : Bool → Bool → Bool → Level → Bytes → Bytes → Bytes → Option (Stream × Bytes)
logged use_json_format debug_logging_enabled perf_logging_enabled level thread g_request_id
      message =
    if is_enabled debug_logging_enabled perf_logging_enabled level
    then some (vprint use_json_format level thread g_request_id message)
    else none
