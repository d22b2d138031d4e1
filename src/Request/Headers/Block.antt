-- ===== src/Request/Headers/Block.antt =====
-- The loop of `parse_headers` over the lines of a block.
use apiserver_asymetric_encr.Base.{
  ◌==◌, is_some, is_empty, take, ℕ, ◌+◌, ◌≤◌, ◌≡◌, refl, ap, ◌∙◌, subst, ◌⊎◌, inl, inr, Bool, true,
  false, none, some, List, [], ◌∷◌, map, arith,
}
use apiserver_asymetric_encr.Text.{Bytes, bytes, find_if, split, tolower, sv_ci_equal}
use apiserver_asymetric_encr.Request.Model.{Parser, find_header, emplace_header}
use apiserver_asymetric_encr.Request.Headers.{parse_header_line, parse_header_lines, parse_headers}
use apiserver_asymetric_encr.Request.Headers.Accepted.{
  key_at, value_at, IsStored, parse_header_line-IsStored, IsSafeHeaders, IsStored-IsSafeHeaders,
}
use apiserver_asymetric_encr.Request.Model.Maps.{sv_ci_equal_iff, lookup_by-emplace_by}
use apiserver_asymetric_encr.Request.Model.Chain.{chain-none, pair_eta}

-- An empty line is skipped, any other is stored, and the rest is read from there.
parse_header_lines_cases :
    {J : Type 0} (line : Bytes) (rest : List Bytes) (p : Parser J)
    → (parse_header_lines (line ∷ rest) p).1 ≡ none
    → ((is_empty line ≡ true) × (parse_header_lines (line ∷ rest) p ≡ parse_header_lines rest p))
      ⊎ ((q : Parser J) × IsStored line p (q, none)
          × (parse_header_lines (line ∷ rest) p ≡ parse_header_lines rest q))
unfolding parse_header_lines
parse_header_lines_cases [] rest p h = inl (refl, refl)
parse_header_lines_cases (c ∷ cs) rest p h =
    let (passed, e) =
      chain-none (parse_header_line (c ∷ cs)) (λ q. parse_header_lines rest q) p h in
    let line = parse_header_line-IsStored (c ∷ cs) p passed in
    inr (
      (parse_header_line (c ∷ cs) p).0,
      subst (IsStored (c ∷ cs) p) (pair_eta (parse_header_line (c ∷ cs)) p passed) line,
      e,
    )

parse_header_lines-IsSafeHeaders :
    {J : Type 0} (lines : List Bytes) (p : Parser J)
    → (parse_header_lines lines p).1 ≡ none
    → IsSafeHeaders p.headers
    → let q = (parse_header_lines lines p).0 in
      IsSafeHeaders q.headers × (q ≡ record p { headers = q.headers })
unfolding parse_header_lines
parse_header_lines-IsSafeHeaders [] p h v = (v, refl)
parse_header_lines-IsSafeHeaders {J} (line ∷ rest) p h v =
    elim (parse_header_lines_cases line rest p h) [
      | inl (skipped, e) ↦ rw e (parse_header_lines-IsSafeHeaders rest p (rw e at h) v)
      | inr (q, s, e) ↦
          let (safe, same_rest) =
            parse_header_lines-IsSafeHeaders rest q (rw e at h)
              (IsStored-IsSafeHeaders line p (q, none) s v) in
          rw e (
            safe,
            same_rest
                ∙ ap
                    (λ (w : Parser J). record w { headers = (parse_header_lines rest q).0.headers })
                    (ap (λ r. r.0) s.stored),
          )
    ]

-- An accepted header block keeps a map of headers that is safe (valid names and values, at most 50,
-- no two alike, no Transfer-Encoding), and changes nothing but the map.
pub parse_headers-IsSafeHeaders :
    {J : Type 0} (headers_sv : Bytes) (p : Parser J)
    → (parse_headers headers_sv p).1 ≡ none
    → IsSafeHeaders p.headers
    → let q = (parse_headers headers_sv p).0 in
      IsSafeHeaders q.headers × (q ≡ record p { headers = q.headers })
unfolding parse_headers
parse_headers-IsSafeHeaders headers_sv p h v =
    parse_header_lines-IsSafeHeaders (split (bytes "\r\n") headers_sv) p h v

-- The line carries the name before its first colon, without regard to case.
abbrev pub has_key : Bytes → Bytes → Bool
has_key name line = elim (find_if (λ c. c == b':') line) [
  | none ↦ false
  | some colon ↦ sv_ci_equal (take colon line) name
]

abbrev count_of : Bool → ℕ
count_of true = 1
count_of false = 0

count_key : Bytes → List Bytes → ℕ
count_key name [] = 0
count_key name (line ∷ rest) = count_of (has_key name line) + count_key name rest

has_key_of_empty : (name line : Bytes) → is_empty line ≡ true → count_of (has_key name line) ≡ 0
unfolding find_if
has_key_of_empty name [] h = refl
has_key_of_empty name (c ∷ cs) h = cc

abbrev present : Bytes → List (Bytes × Bytes) → ℕ
present name headers = count_of (is_some (find_header name headers))

-- A stored line whose name is new to the map counts once, in the lines and in the map.
count_key-IsStored :
    {J : Type 0} (name line : Bytes) (p q : Parser J) (s : IsStored line p (q, none))
    → (sv_ci_equal (take s.colon line) name ≡ true → find_header name p.headers ≡ none)
    → present name q.headers ≡ count_of (has_key name line) + present name p.headers
unfolding find_header emplace_header
count_key-IsStored name line p q s fresh =
    let stored : q.headers
        ≡ emplace_header (key_at line s.colon) (value_at line s.colon) p.headers =
      ap (λ r. r.0.headers) s.stored in
    rw
      (
        stored,
        lookup_by-emplace_by sv_ci_equal (map tolower) sv_ci_equal_iff name (key_at line s.colon)
            (value_at line s.colon) p.headers,
      )
      (ground (arith, s.found, fresh))

module _ {J : Type 0} (name : Bytes)
    (fresh : (line : Bytes) (p q : Parser J) (s : IsStored line p (q, none))
      → sv_ci_equal (take s.colon line) name ≡ true
      → find_header name p.headers ≡ none) where
  count_key-parse_header_lines :
      (lines : List Bytes) (p : Parser J)
      → (parse_header_lines lines p).1 ≡ none
      → count_key name lines + present name p.headers ≤ 1
  unfolding count_key
  count_key-parse_header_lines [] p h = ground arith
  count_key-parse_header_lines (line ∷ rest) p h = elim (parse_header_lines_cases line rest p h) [
    | inl (skipped, e) ↦
        let later = count_key-parse_header_lines rest p (rw e at h) in
        omega (arith, later, has_key_of_empty name line skipped)
    | inr (q, s, e) ↦
        let later = count_key-parse_header_lines rest q (rw e at h) in
        omega (arith, later, count_key-IsStored name line p q s (fresh line p q s))
  ]

-- An accepted header block has at most one Content-Length line and at most one Host line, whatever
-- the letters' case, and none if the map held one before.
parse_headers_unique :
    {J : Type 0} (headers_sv : Bytes) (p : Parser J)
    → (parse_headers headers_sv p).1 ≡ none
    → let lines = split (bytes "\r\n") headers_sv in
      (count_key (bytes "Content-Length") lines + present (bytes "Content-Length") p.headers ≤ 1)
      × (count_key (bytes "Host") lines + present (bytes "Host") p.headers ≤ 1)
unfolding parse_headers
parse_headers_unique headers_sv p h =
    let lines = split (bytes "\r\n") headers_sv in
    (
      count_key-parse_header_lines (bytes "Content-Length") (λ line p q s. s.length_new) lines p h,
      count_key-parse_header_lines (bytes "Host") (λ line p q s. s.host_new) lines p h,
    )
