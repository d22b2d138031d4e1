-- ===== src/Request/Uri/Safe.antt =====
-- What an accepted path looks like.
use apiserver_asymetric_encr.Base.{
  ◌==◌, is_some, length, All, ◌≤◌, ◌≡◌, refl, true, false, Option, none, some, List, [], ◌∷◌, arith,
}
use apiserver_asymetric_encr.Text.{Bytes, bytes, starts_with, find, find_if, split}
use apiserver_asymetric_encr.Request.Model.{Parser}
use apiserver_asymetric_encr.Request.Uri.{
  max_path_length, is_invalid_char, is_valid_path, parse_uri, parse_request_line_parts,
  parse_request_line,
}
use apiserver_asymetric_encr.Text.Search.{find_if-none}

-- An absolute path with no "..", no percent escape, no backslash, no NUL, CR or LF, no query, and
-- at most 2048 bytes.
pub record IsSafePath (path : Bytes) : Type 0 where
  pub absolute : starts_with path (bytes "/") ≡ true
  pub clean : All (λ c. is_invalid_char c ≡ false) path
  pub no_query : All (λ c. (c == b'?') ≡ false) path
  pub no_parent : find path (bytes "..") ≡ none
  pub short : length path ≤ max_path_length

pub none_of_is_some {ℓ} : {A : Type ℓ} (o : Option A) → is_some o ≡ false → o ≡ none
none_of_is_some none h = refl
none_of_is_some (some a) h = cc

is_valid_path_cases :
    (path : Bytes)
    → is_valid_path path ≡ true
    → (starts_with path (bytes "/") ≡ true)
      × (find_if is_invalid_char path ≡ none)
      × (find path (bytes "..") ≡ none)
unfolding is_valid_path starts_with
is_valid_path_cases [] h = cc
is_valid_path_cases (c ∷ cs) h = (
  ground arith,
  none_of_is_some (find_if is_invalid_char (c ∷ cs)) (ground arith),
  none_of_is_some (find (c ∷ cs) (bytes "..")) (ground arith),
)

-- A URI is accepted only if it is a safe path, and it is then the parser's path.
pub parse_uri-IsSafePath :
    {J : Type 0} (uri : Bytes) (p : Parser J)
    → (parse_uri uri p).1 ≡ none
    → IsSafePath uri × ((parse_uri uri p).0 ≡ record p { path = uri })
unfolding parse_uri
parse_uri-IsSafePath uri p h =
    let no_query : find_if (λ c. c == b'?') uri ≡ none = none_of_is_some _ (ground arith) in
    let valid : is_valid_path uri ≡ true = ground arith in
    let (slash, clean, no_parent) = is_valid_path_cases uri valid in
    (
      record {
        absolute = slash;
        clean = find_if-none is_invalid_char uri clean;
        no_query = find_if-none (λ c. c == b'?') uri no_query;
        no_parent = no_parent;
        short = ground arith;
      },
      ground arith,
    )

parse_request_line_parts-IsSafePath :
    {J : Type 0} (parts : List Bytes) (p : Parser J)
    → (parse_request_line_parts parts p).1 ≡ none
    → (uri : Bytes) × IsSafePath uri
      × ((parse_request_line_parts parts p).0 ≡ record p { path = uri })
unfolding parse_request_line_parts
parse_request_line_parts-IsSafePath [] p h = cc
parse_request_line_parts-IsSafePath (m ∷ []) p h = cc
parse_request_line_parts-IsSafePath (m ∷ uri ∷ rest) p h =
    let (safe, e) = parse_uri-IsSafePath uri p h in (uri, safe, e)

-- A request line that is accepted stores, and changes nothing else, a path that starts with a
-- slash, is at most 2048 bytes long and holds no question mark, percent, backslash, NUL, line break
-- or two dots in a row.
pub parse_request_line-IsSafePath :
    {J : Type 0} (line : Bytes) (p : Parser J)
    → (parse_request_line line p).1 ≡ none
    → (uri : Bytes) × IsSafePath uri × ((parse_request_line line p).0 ≡ record p { path = uri })
unfolding parse_request_line
parse_request_line-IsSafePath line p h =
    parse_request_line_parts-IsSafePath (split (bytes " ") line) p h
