-- ===== src/Request/Eof.antt =====
-- When a request counts as complete: `find_and_store_header_end`, `parse_and_store_method`,
-- `parse_and_store_content_length`, `eof` and `update_pos` of `request_parser` in
-- src/http_request.cpp.
pub mod Complete
use apiserver_asymetric_encr.Base.{
  ltb, leb, ◌==◌, if◌then◌else◌, is_some, value_or, length, is_empty, take, drop, pos, add_size,
  sub_size, ℕ, ◌+◌, Bool, true, false, not, ◌||◌, Option, none, some, List, [], ◌∷◌,
}
use apiserver_asymetric_encr.Text.{
  Bytes, bytes, same, find, find_if, substr, split, trim_sv, sv_ci_equal, from_chars_size,
}
use apiserver_asymetric_encr.Request.Model.{
  Method, get, post, put, options, patch, unknown, same_method, Parser,
}
use apiserver_asymetric_encr.Request.Buffer.{size, view, store, BufferError, update_pos}

-- A question that may store what it finds out in the parser.
abbrev pub Ask : Type 0 → Type 0
Ask J = Parser J → Bool × Parser J

-- `request_parser::update_pos`, on the bytes that a read has put behind the view.
unfoldable pub receive_bytes : {J : Type 0} → ℕ → Bytes → Parser J → Parser J × Option BufferError
receive_bytes max_size chunk p =
    if p.is_finalized
    then (p, none)
    else let (b, e) = update_pos max_size (pos (length chunk)) (store p.buffer chunk) in
      (record p { buffer = b }, e)

unfoldable pub find_and_store_header_end : {J : Type 0} → Ask J
find_and_store_header_end p = elim p.identified_header_size [
  | some n ↦ (true, p)
  | none ↦ elim (find (view p.buffer) (bytes "\r\n\r\n")) [
    | some headers_end ↦ (true, record p { identified_header_size = some (headers_end + 4) })
    | none ↦ (false, p)
  ]
]

-- The method of a token; any other token is `unknown`.
unfoldable pub method_of : Bytes → Method
method_of token =
    if same token (bytes "GET")
    then get
    else if same token (bytes "POST")
    then post
    else if same token (bytes "PUT")
    then put
    else if same token (bytes "PATCH")
    then patch
    else if same token (bytes "OPTIONS")
    then options
    else unknown

-- The request line: without a blank the method is stored as unknown and the answer is no.
unfoldable pub store_method : {J : Type 0} → Bytes → Ask J
store_method request_line p = elim (find_if (λ c. c == b' ') request_line) [
  | none ↦ (false, record p { identified_method = some unknown })
  | some space ↦ (true, record p { identified_method = some (method_of (take space request_line)) })
]

-- The buffer with a header of `header_size` bytes.
unfoldable pub parse_method_within : {J : Type 0} → ℕ → Ask J
parse_method_within header_size p =
    let v = view p.buffer in
    if is_empty v || ltb (length v) header_size then (false, p) else elim (find v (bytes "\r\n")) [
      | none ↦ (false, p)
      | some line_end ↦
          if line_end == 0 || leb (sub_size header_size 4) line_end
          then (false, p)
          else store_method (take line_end v) p
    ]

unfoldable pub parse_and_store_method : {J : Type 0} → Ask J
parse_and_store_method p = elim p.identified_method [
  | some m ↦ (true, p)
  | none ↦ elim p.identified_header_size [
    | none ↦ (false, p)
    | some header_size ↦ parse_method_within header_size p
  ]
]

abbrev pub is_method : Option Method → Method → Bool
is_method none m = false
is_method (some x) m = same_method x m

-- A Content-Length value: digits to the end of the text.
unfoldable pub whole_number : Bytes → Option ℕ
whole_number s = elim (from_chars_size s) [
  | none ↦ none
  | some (value, rest) ↦ if is_empty rest then some value else none
]

-- The loop over the header lines, up to the first line that names Content-Length.
unfoldable pub scan_content_length : List Bytes → Option ℕ
scan_content_length [] = none
scan_content_length (line ∷ rest) =
    let skip = scan_content_length rest in
    elim (find_if (λ c. c == b':') line) [
      | none ↦ skip
      | some colon ↦
          if not (sv_ci_equal (take colon line) (bytes "Content-Length"))
          then skip
          else whole_number (trim_sv (drop (colon + 1) line))
    ]

unfoldable pub scan_header_part : {J : Type 0} → ℕ → ℕ → Ask J
scan_header_part header_size line_end p =
    let start = add_size line_end 2 in
    let part_length = sub_size (sub_size header_size 4) start in
    let v = view p.buffer in
    if leb header_size start || ltb (length v) (add_size start part_length)
    then (false, p)
    else elim (scan_content_length (split (bytes "\r\n") (substr v start part_length))) [
      | none ↦ (true, p)
      | some n ↦ (true, record p { identified_content_length = some n })
    ]

unfoldable pub parse_and_store_content_length : {J : Type 0} → Ask J
parse_and_store_content_length p =
    if not (is_method p.identified_method post)
    then (true, p)
    else if is_some p.identified_content_length
    then (true, p)
    else elim p.identified_header_size [
      | none ↦ (false, p)
      | some header_size ↦ elim (find (view p.buffer) (bytes "\r\n")) [
        | none ↦ (false, p)
        | some line_end ↦ scan_header_part header_size line_end p
      ]
    ]

-- The end of `eof`, once the method is known.
unfoldable pub eof_of_method : {J : Type 0} → Ask J
eof_of_method p =
    if is_method p.identified_method unknown
    then (true, p)
    else if is_method p.identified_method post
        || is_method p.identified_method put
        || is_method p.identified_method patch
        || is_method p.identified_method get
        || is_method p.identified_method options
    then (true, p)
    else if is_method p.identified_method post
    then (let q = (parse_and_store_content_length p).1 in
        elim q.identified_content_length [
          | none ↦ (true, q)
          | some n ↦ (leb (add_size (value_or q.identified_header_size 0) n) (size q.buffer), q)
        ])
    else (false, p)

unfoldable pub eof : {J : Type 0} → Ask J
eof p =
    let (found, q) = find_and_store_header_end p in
    if not found
    then (false, q)
    else (let (known, r) = parse_and_store_method q in
        if not known then (false, r) else eof_of_method r)
