-- ===== src/Logger/Line.antt =====
-- What a JSON reader makes of a log line of src/logger.hpp.
use apiserver_asymetric_encr.Base.{
  ap, none, Bool, sym, ◌∙◌, Bool-cases, inl, inr, ◌>>=◌, leb, ◌==◌, if◌then◌else◌, length, drop,
  All, drop-length_append, ℕ, ◌≡◌, refl, true, not, ◌&&◌, Option, some, [], ◌∷◌, ◌++◌, arith,
}
use apiserver_asymetric_encr.Text.{Bytes, bytes, starts_with}
use apiserver_asymetric_encr.Logger.{
  Stream, is_enabled, logged, vprint, debug, info, warning, error, critical, perf, escape_byte,
  json_escape, Level, level_str, request_id, json_line,
}
use apiserver_asymetric_encr.Logger.Json.{between, read_json, read_json-json_escape}

-- A byte that a JSON string holds as it is.
abbrev pub is_plain : ℕ → Bool
is_plain c = leb 32 c && not (c == 34) && not (c == 92)

-- A string, behind a text that stands before it.
abbrev pub read_string : Bytes → Bytes → Option (Bytes × Bytes)
read_string before s =
    if starts_with s before then read_json between (drop (length before) s) else none

pub record LogLine : Type 0 where
  pub level : Bytes
  pub thread : Bytes
  pub req_id : Bytes
  pub msg : Bytes

-- Four strings, each behind a text, and what is left.
unfoldable pub read_four : Bytes → Bytes → Bytes → Bytes → Bytes → Option (LogLine × Bytes)
read_four p1 p2 p3 p4 s = do
  (level, s1) ← read_string p1 s
  (thread, s2) ← read_string p2 s1
  (req_id, s3) ← read_string p3 s2
  (msg, s4) ← read_string p4 s3
  some (record { level = level; thread = thread; req_id = req_id; msg = msg }, s4)

-- The object with the four members that a log line is; the end of the line is left.
unfoldable pub read_line : Bytes → Option (LogLine × Bytes)
read_line s =
    read_four (bytes "{\"level\": \"") (bytes ", \"thread\": \"") (bytes ", \"req_id\": \"")
      (bytes ", \"msg\": \"") s

plain_byte : (c : ℕ) → is_plain c ≡ true → escape_byte c ≡ c ∷ []
unfolding escape_byte
plain_byte c h = ground arith

plain_text : (s : Bytes) → All (λ c. is_plain c ≡ true) s → json_escape s ≡ s
unfolding json_escape
plain_text [] h = refl
plain_text (c ∷ s) (h, hs) = rw (plain_byte c h, json_escape) (ap (◌∷◌ c) (plain_text s hs))

starts_with_front : (s t : Bytes) → starts_with (s ++ t) s ≡ true
unfolding starts_with
starts_with_front [] t = refl
starts_with_front (c ∷ s) t = ground (arith, starts_with_front s t)

read_string-escaped :
    (before s rest : Bytes)
    → read_string before (before ++ (json_escape s ++ (34 ∷ rest))) ≡ some (s, rest)
read_string-escaped before s rest =
    rw (starts_with_front before (json_escape s ++ (34 ∷ rest)), drop-length_append)
      (read_json-json_escape s rest)

read_string-plain :
    (before s rest : Bytes)
    → All (λ c. is_plain c ≡ true) s
    → read_string before (before ++ (s ++ (34 ∷ rest))) ≡ some (s, rest)
read_string-plain before s rest h =
    ap (λ t. read_string before (before ++ (t ++ (34 ∷ rest)))) (sym (plain_text s h))
    ∙ read_string-escaped before s rest

read_four_lem :
    (p1 p2 p3 p4 level thread req_id msg rest : Bytes)
    → All (λ c. is_plain c ≡ true) level
    → All (λ c. is_plain c ≡ true) thread
    → All (λ c. is_plain c ≡ true) req_id
    → read_four p1 p2 p3 p4 (
        p1
        ++ (level
            ++ (34
                ∷ (p2
                    ++ (thread
                        ++ (34
                            ∷ (p3
                                ++ (req_id
                                    ++ (34 ∷ (p4 ++ (json_escape msg ++ (34 ∷ rest))))))))))))
      ≡ some (record { level = level; thread = thread; req_id = req_id; msg = msg }, rest)
unfolding read_four
read_four_lem p1 p2 p3 p4 level thread req_id msg rest h1 h2 h3 =
    rw (read_string-plain p1 level _ h1) (
      rw (read_string-plain p2 thread _ h2)
        (rw (read_string-plain p3 req_id _ h3) (rw (read_string-escaped p4 msg rest) refl)))

level_plain : (level : Level) → All (λ c. is_plain c ≡ true) (level_str level)
unfolding level_str
level_plain debug = (refl, (refl, (refl, (refl, (refl, tt)))))
level_plain info = (refl, (refl, (refl, (refl, tt))))
level_plain warning = (refl, (refl, (refl, (refl, tt))))
level_plain error = (refl, (refl, (refl, (refl, (refl, tt)))))
level_plain critical = (refl, (refl, (refl, (refl, (refl, (refl, (refl, (refl, tt))))))))
level_plain perf = (refl, (refl, (refl, (refl, tt))))

request_id_plain :
    (g : Bytes) → All (λ c. is_plain c ≡ true) g → All (λ c. is_plain c ≡ true) (request_id g)
unfolding request_id
request_id_plain [] h = (refl, (refl, (refl, (refl, (refl, (refl, (refl, (refl, tt))))))))
request_id_plain (c ∷ g) h = h

read_line-json_line :
    (level : Level) (thread g_request_id message : Bytes)
    → All (λ c. is_plain c ≡ true) thread
    → All (λ c. is_plain c ≡ true) g_request_id
    → read_line (json_line level thread g_request_id message)
      ≡ some (
        record {
          level = level_str level;
          thread = thread;
          req_id = request_id g_request_id;
          msg = message;
        },
        bytes "}\n",
      )
unfolding read_line json_line
read_line-json_line level thread g_request_id message ht hg =
    read_four_lem (bytes "{\"level\": \"") (bytes ", \"thread\": \"") (bytes ", \"req_id\": \"")
      (bytes ", \"msg\": \"") (level_str level) thread (request_id g_request_id) message
      (bytes "}\n") (level_plain level) ht (request_id_plain g_request_id hg)

logged_line :
    (debug_enabled perf_enabled : Bool) (level : Level) (thread g_request_id message : Bytes)
    (stream : Stream) (line : Bytes)
    → logged true debug_enabled perf_enabled level thread g_request_id message ≡ some (stream, line)
    → json_line level thread g_request_id message ≡ line
unfolding logged vprint
logged_line debug_enabled perf_enabled level thread g_request_id message stream line h =
    elim (Bool-cases (is_enabled debug_enabled perf_enabled level)) [
      | inl enabled ↦ ap (λ r. r.1) (some_inj (rw (enabled, logged) at h))
      | inr silent ↦ absurd (none_some (rw (silent, logged) at h))
    ]
  where
    some_inj : {A : Type 0} {a b : A} → some a ≡ some b → a ≡ b
    some_inj e = cc

    none_some : {A : Type 0} {a : A} → none ≡ some a → ⊥
    none_some e = cc

-- In a build that logs JSON, when the thread's number and the request id hold no quote, backslash
-- or control character: a reader that follows the JSON grammar makes of any line that is logged an
-- object with the level, the thread, the request id, or dashes where there is none, and the message
-- as it was, whatever the message holds.
pub read_line-logged :
    (debug_enabled perf_enabled : Bool) (level : Level) (thread g_request_id message : Bytes)
    (stream : Stream) (line : Bytes)
    → All (λ c. is_plain c ≡ true) thread
    → All (λ c. is_plain c ≡ true) g_request_id
    → logged true debug_enabled perf_enabled level thread g_request_id message ≡ some (stream, line)
    → read_line line
      ≡ some (
        record {
          level = level_str level;
          thread = thread;
          req_id = request_id g_request_id;
          msg = message;
        },
        bytes "}\n",
      )
read_line-logged debug_enabled perf_enabled level thread g_request_id message stream line ht hg h =
    ap read_line
      (sym (logged_line debug_enabled perf_enabled level thread g_request_id message stream line h))
    ∙ read_line-json_line level thread g_request_id message ht hg
