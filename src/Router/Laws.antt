-- ===== src/Router/Laws.antt =====
-- Looking up what has been registered.
use apiserver_asymetric_encr.Base.{
  ltb, ◌==◌, if◌then◌else◌, &&-true, Bool-cases, Option-cases, length, all, ℕ, ◌≤◌, ◌≡◌, refl, inl,
  inr, Bool, true, false, none, some, List, [], ◌∷◌, ◌++◌, arith,
}
use apiserver_asymetric_encr.Text.{Bytes, bytes, same, starts_with, find, find_if}
use apiserver_asymetric_encr.Text.Search.{same_iff}
use apiserver_asymetric_encr.Router.{
  ApiEndpoint, ApiRouter, is_path_char, webapi_path, assign_route, register_api, register_api_regex,
  find_route, find_regex, find_handler,
}
use apiserver_asymetric_encr.Request.Model.{Method, Parser}
use apiserver_asymetric_encr.Request.Uri.{
  max_path_length, is_invalid_char, is_valid_path, parse_uri,
}

module _ {H V : Type 0} where
  find_route-assign_route :
      (path key : Bytes) (e : ApiEndpoint H V) (routes : List (Bytes × ApiEndpoint H V))
      → find_route key (assign_route path e routes)
        ≡ (if same path key then some e else find_route key routes)
  unfolding find_route assign_route
  find_route-assign_route path key e [] = refl
  find_route-assign_route path key e ((k, old) ∷ rest) = elim (Bool-cases (same k path)) [
    | inl found ↦ rw found (rw ((same_iff k path).0 found) (ground arith))
    | inr other ↦ rw other (elim (Bool-cases (same k key)) [
      | inl here ↦ elim (Bool-cases (same path key)) [
        | inl again ↦ absurd (ground (arith, same_iff k path, same_iff k key, same_iff path key))
        | inr apart ↦ rw (here, apart) refl
      ]
      | inr further ↦ rw further (find_route-assign_route path key e rest)
    ])
  ]

  -- An endpoint that is registered under a path is the one found under it, and what is found under
  -- every other path stays.
  pub find_handler-register_api :
      (path key : Bytes) (m : Method) (v : V) (h : H) (secure : Bool) (r : ApiRouter H V)
      → find_handler (register_api path m v h secure r) key ≡ (
          if same path key
          then some (record {
            method = m;
            validator = v;
            handler = h;
            is_secure = secure;
            path_regex = none;
          })
          else find_handler r key)
  unfolding find_handler register_api
  find_handler-register_api path key m v h secure r =
      let e : ApiEndpoint H V = record {
        method = m;
        validator = v;
        handler = h;
        is_secure = secure;
        path_regex = none;
      } in
      elim (Bool-cases (same path key)) [
        | inl here ↦ ground (arith, find_route-assign_route path key e r.routes)
        | inr further ↦ ground (arith, find_route-assign_route path key e r.routes)
      ]

  find_regex-append :
      (key : Bytes) (first second : List ((Bytes → Bool) × ApiEndpoint H V))
      → find_regex key (first ++ second)
        ≡ elim (find_regex key first) [ some e ↦ some e | none ↦ find_regex key second ]
  unfolding find_regex
  find_regex-append key [] second = refl
  find_regex-append key ((re, e) ∷ first) second = elim (Bool-cases (re key)) [
    | inl here ↦ rw here refl
    | inr further ↦ rw further (find_regex-append key first second)
  ]

  -- A pattern that is registered later never changes which endpoint a path finds that already has
  -- one; any other path that it matches finds its endpoint.
  pub find_handler-register_api_regex :
      (key : Bytes) (no_rules : V) (pattern : Bytes → Bool) (m : Method) (h : H) (secure : Bool)
      (r : ApiRouter H V)
      → find_handler (register_api_regex no_rules pattern m h secure r) key
        ≡ elim (find_handler r key) [
          | some e ↦ some e
          | none ↦
              if pattern key
              then some (record {
                method = m;
                validator = no_rules;
                handler = h;
                is_secure = secure;
                path_regex = some pattern;
              })
              else none
        ]
  unfolding find_handler register_api_regex find_regex
  find_handler-register_api_regex key no_rules pattern m h secure r =
      elim (Option-cases (find_route key r.routes)) [
        | inl e ↦ rw (e, find_handler) (find_regex-append key r.regex_routes _)
        | inr (x, e) ↦ rw (e, find_handler) refl
      ]

no_dot : (c : ℕ) → is_path_char c ≡ true → (c == b'.') ≡ false
unfolding is_path_char
no_dot c h = ground arith

no_query : (c : ℕ) → is_path_char c ≡ true → (c == b'?') ≡ false
unfolding is_path_char
no_query c h = ground arith

no_invalid : (c : ℕ) → is_path_char c ≡ true → is_invalid_char c ≡ false
unfolding is_path_char
no_invalid c h = ground arith

find_if-none-all :
    (p : ℕ → Bool) (s : Bytes)
    → ((c : ℕ) → is_path_char c ≡ true → p c ≡ false)
    → all is_path_char s ≡ true
    → find_if p s ≡ none
unfolding find_if
find_if-none-all p [] f h = refl
find_if-none-all p (c ∷ s) f h =
    let (here, there) = &&-true (is_path_char c) (all is_path_char s) h in
    rw (f c here, find_if-none-all p s f there) refl

no_dots : (s : Bytes) → all is_path_char s ≡ true → find s (bytes "..") ≡ none
unfolding find starts_with
no_dots [] h = refl
no_dots (c ∷ s) h =
    let (here, there) = &&-true (is_path_char c) (all is_path_char s) h in
    let other : (c == b'.') ≡ false = no_dot c here in rw (other, no_dots s there) refl

-- Every path that the compiler lets an endpoint have, and that is at most 2048 bytes long, is one
-- that the parser of a request takes as it is.
pub parse_uri-webapi_path :
    {J : Type 0} (path valid : Bytes) (p : Parser J)
    → webapi_path path ≡ some valid
    → length path ≤ max_path_length
    → (valid ≡ path) × (parse_uri path p ≡ (record p { path = path }, none))
unfolding webapi_path parse_uri is_valid_path starts_with
parse_uri-webapi_path [] valid p h short = absurd (ground arith)
parse_uri-webapi_path (c ∷ s) valid p h short =
    let chars : all is_path_char (c ∷ s) ≡ true = ground arith in
    let query = find_if-none-all (λ c. c == b'?') (c ∷ s) no_query chars in
    let bad = find_if-none-all is_invalid_char (c ∷ s) no_invalid chars in
    let fits : ltb max_path_length (length (c ∷ s)) ≡ false = ground arith in
    let slash : (c == b'/') ≡ true = ground arith in
    (ground arith, rw (query, fits, slash, bad, no_dots (c ∷ s) chars) refl)
