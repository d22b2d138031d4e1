-- ===== src/Server/Message/Blank.antt =====
-- No text in a response can end its header block early.
use apiserver_asymetric_encr.Base.{
  ltb, Bool-cases, value_or, length, drop, last_or, all, drop-drop, drop-length_append, ℕ, zero,
  suc, ◌+◌, ◌/◌, ◌%◌, ◌≡◌, refl, ap, ◌∙◌, inl, inr, true, Option, none, some, List, [], ◌∷◌, ◌++◌,
  arith,
}
use apiserver_asymetric_encr.Text.{Bytes, bytes, find}
use apiserver_asymetric_encr.Server.{
  Status, ok, no_content, bad_request, unauthorized, forbidden, not_found, entity_too_large,
  internal_server_error, service_unavailable, Content, body, blob, no_body,
}
use apiserver_asymetric_encr.Server.Message.{
  status_code, to_reason_phrase, put_lines, cors_lines, options_cors_lines, date_line, body_lines,
  blob_lines, options_lines, content_lines, content_body, message_of,
}
use apiserver_asymetric_encr.Server.Message.Lines.{
  not_cr, is_line, all-append, is_line-append, blank, line_bytes, find-put_lines,
}
use apiserver_asymetric_encr.Text.Numbers.{decimal_from, decimal}

decimal_from-is_line : (fuel n : ℕ) → is_line (decimal_from fuel n) ≡ true
unfolding decimal_from
decimal_from-is_line zero n = ground arith
decimal_from-is_line (suc fuel) n = elim (Bool-cases (ltb n 10)) [
  | inl e ↦ rw e (ground arith)
  | inr e ↦ rw e (
      is_line-append (decimal_from fuel (n / 10)) ((b'0' + n % 10) ∷ [])
        (decimal_from-is_line fuel (n / 10)) (ground arith))
]

decimal-is_line : (n : ℕ) → is_line (decimal n) ≡ true
unfolding decimal
decimal-is_line n = decimal_from-is_line n n

decimal-not_cr : (n : ℕ) → all not_cr (decimal n) ≡ true
decimal-not_cr n = line_bytes (decimal n) (decimal-is_line n)

status_line-is_line :
    (s : Status)
    → is_line (bytes "HTTP/1.1 " ++ (decimal (status_code s) ++ (b' ' ∷ to_reason_phrase s))) ≡ true
unfolding decimal decimal_from status_code to_reason_phrase
status_line-is_line ok = refl
status_line-is_line no_content = refl
status_line-is_line bad_request = refl
status_line-is_line unauthorized = refl
status_line-is_line forbidden = refl
status_line-is_line not_found = refl
status_line-is_line entity_too_large = refl
status_line-is_line internal_server_error = refl
status_line-is_line service_unavailable = refl

-- The texts of a response that come from outside hold no carriage return.
abbrev pub HasCleanTexts : Option Bytes → Bytes → Content → Type 0
HasCleanTexts origin date (body s content_type text) =
    (all not_cr (value_or origin []) ≡ true)
    × (all not_cr date ≡ true)
    × (all not_cr content_type ≡ true)
HasCleanTexts origin date (blob data_ content_type disposition) =
    (all not_cr (value_or origin []) ≡ true)
    × (all not_cr date ≡ true)
    × (all not_cr content_type ≡ true)
    × (all not_cr disposition ≡ true)
HasCleanTexts origin date no_body =
    (all not_cr (value_or origin []) ≡ true) × (all not_cr date ≡ true)

labelled :
    (label text : Bytes)
    → is_line label ≡ true
    → all not_cr text ≡ true
    → is_line (label ++ text) ≡ true
labelled label text h k = is_line-append label text h k

cors_lines-is_line :
    (origin : Option Bytes)
    → all not_cr (value_or origin []) ≡ true
    → all is_line (cors_lines origin) ≡ true
unfolding cors_lines
cors_lines-is_line none h = refl
cors_lines-is_line (some o) h = rw (labelled (bytes "Access-Control-Allow-Origin: ") o refl h) refl

options_cors_lines-is_line :
    (origin : Option Bytes)
    → all not_cr (value_or origin []) ≡ true
    → all is_line (options_cors_lines origin) ≡ true
unfolding options_cors_lines
options_cors_lines-is_line none h = refl
options_cors_lines-is_line (some o) h =
    rw (labelled (bytes "Access-Control-Allow-Origin: ") o refl h) refl

content_lines-is_line :
    (origin : Option Bytes) (date : Bytes) (c : Content)
    → HasCleanTexts origin date c
    → (l : Bytes) × (ls : List Bytes) × (content_lines origin date c ≡ l ∷ ls)
      × (is_line l ≡ true)
      × (all is_line ls ≡ true)
unfolding content_lines body_lines blob_lines options_lines date_line
content_lines-is_line origin date (body s content_type text) h = (
  _,
  _,
  refl,
  status_line-is_line s,
  rw h.1 (
      all-append is_line (cors_lines origin) _ (cors_lines-is_line origin h.0)
        (rw (h.2, decimal-not_cr (length text)) refl)),
)
content_lines-is_line origin date (blob data_ content_type disposition) h = (
  _,
  _,
  refl,
  refl,
  rw h.1 (
      all-append is_line (cors_lines origin) _ (cors_lines-is_line origin h.0)
        (rw (h.2, h.3, decimal-not_cr (length data_)) refl)),
)
content_lines-is_line origin date no_body h = (
  _,
  _,
  refl,
  refl,
  rw h.1 (
      all-append is_line (options_cors_lines origin) _ (options_cors_lines-is_line origin h.0)
        refl),
)

last_or-append : {A : Type 0} (d y : A) (xs ys : List A) → last_or d (xs ++ (y ∷ ys)) ≡ last_or y ys
last_or-append d y [] ys = refl
last_or-append d y (x ∷ xs) ys = last_or-append x y xs ys

-- The last line is the Content-Length of the body.
last_line :
    (origin : Option Bytes) (date : Bytes) (c : Content)
    → last_or [] (content_lines origin date c)
      ≡ bytes "Content-Length: " ++ decimal (length (content_body c))
unfolding content_lines content_body body_lines blob_lines options_lines decimal decimal_from
last_line origin date (body s content_type text) = last_or-append _ _ (cors_lines origin) _
last_line origin date (blob data_ content_type disposition) =
    last_or-append _ _ (cors_lines origin) _
last_line origin date no_body = last_or-append _ _ (options_cors_lines origin) _

drop_lines :
    (s rest : Bytes) (k : ℕ) → k + 2 ≡ length s → drop (k + 4) (s ++ (b'\r' ∷ b'\n' ∷ rest)) ≡ rest
drop_lines s rest k e =
    let at : k + 4 ≡ length s + 2 = omega (arith, e) in
    rw at (
      drop-drop (length s) 2 (s ++ (b'\r' ∷ b'\n' ∷ rest))
      ∙ ap (drop 2) (drop-length_append s (b'\r' ∷ b'\n' ∷ rest)))

-- When the origin, the date, the content type and the disposition hold no carriage return, the
-- first blank line of a response's text is the one before its body, and the last header line is the
-- body's Content-Length: no text that is put into the header splits the response.
pub message_of-content_body :
    (origin : Option Bytes) (date : Bytes) (c : Content)
    → HasCleanTexts origin date c
    → (k : ℕ) × (find (message_of origin date c) (bytes "\r\n\r\n") ≡ some k)
      × (drop (k + 4) (message_of origin date c) ≡ content_body c)
      × (last_or [] (content_lines origin date c)
          ≡ bytes "Content-Length: " ++ decimal (length (content_body c)))
unfolding message_of
message_of-content_body origin date c h =
    let (l, ls, e, first, others) = content_lines-is_line origin date c h in
    let (k, found, len) = find-put_lines l ls (content_body c) first others in
    let text : Path Bytes
        (put_lines (content_lines origin date c) ++ (b'\r' ∷ b'\n' ∷ content_body c))
        (put_lines (l ∷ ls) ++ (b'\r' ∷ b'\n' ∷ content_body c)) =
      ap (λ (x : List Bytes). put_lines x ++ (b'\r' ∷ b'\n' ∷ content_body c)) e in
    (
      k,
      ap (λ t. find t blank) text ∙ found,
      ap (drop (k + 4)) text ∙ drop_lines (put_lines (l ∷ ls)) (content_body c) k len,
      last_line origin date c,
    )
