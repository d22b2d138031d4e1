-- ===== src/Request/Headers/Accepted.antt =====
-- What an accepted header block guarantees.
use apiserver_asymetric_encr.Base.{
  leb, ◌==◌, Option-cases, length, take, drop, All, ℕ, ◌+◌, ◌≤◌, ◌<◌, ◌≡◌, inl, inr, true, false,
  Option, none, some, List, map, arith,
}
use apiserver_asymetric_encr.Text.{Bytes, bytes, find_if, trim_sv, tolower, sv_ci_equal}
use apiserver_asymetric_encr.Text.Search.{find_if-none}
use apiserver_asymetric_encr.Request.Model.{ParseError, Parser, find_header, emplace_header}
use apiserver_asymetric_encr.Request.Model.Maps.{
  sv_ci_equal_iff, Distinct, emplace_by-Distinct, length-emplace_by, emplace_by-All,
}
use apiserver_asymetric_encr.Request.Uri.Safe.{none_of_is_some}
use apiserver_asymetric_encr.Request.Headers.{
  is_valid_header_key, is_line_break, is_valid_header_value, max_headers, parse_header_at,
  parse_header_line,
}

-- The name before the colon of a line.
abbrev pub key_at : Bytes → ℕ → Bytes
key_at line colon = take colon line

abbrev pub value_at : Bytes → ℕ → Bytes
value_at line colon = trim_sv (drop (colon + 1) line)

-- A line that was accepted, and what it did.
pub record IsStored {J : Type 0} (line : Bytes) (p : Parser J) (r : Parser J × Option ParseError)
    : Type 0 where
  pub colon : ℕ
  pub found : find_if (λ c. c == b':') line ≡ some colon
  pub below : length p.headers < max_headers
  pub key_valid : is_valid_header_key (key_at line colon) ≡ true
  pub value_valid : is_valid_header_value (value_at line colon) ≡ true
  pub no_transfer : sv_ci_equal (key_at line colon) (bytes "Transfer-Encoding") ≡ false
  pub host_new :
      sv_ci_equal (key_at line colon) (bytes "Host") ≡ true
      → find_header (bytes "Host") p.headers ≡ none
  pub length_new :
      sv_ci_equal (key_at line colon) (bytes "Content-Length") ≡ true
      → find_header (bytes "Content-Length") p.headers ≡ none
  pub stored : r ≡ (
    record p { headers = emplace_header (key_at line colon) (value_at line colon) p.headers },
    none,
  )

parse_header_at-IsStored :
    {J : Type 0} (line : Bytes) (colon : ℕ) (p : Parser J)
    → find_if (λ c. c == b':') line ≡ some colon
    → length p.headers < max_headers
    → (parse_header_at line colon p).1 ≡ none
    → IsStored line p (parse_header_at line colon p)
unfolding parse_header_at
parse_header_at-IsStored line colon p found below h = record {
  colon = colon;
  found = found;
  below = below;
  key_valid = ground arith;
  value_valid = ground arith;
  no_transfer = ground arith;
  host_new = λ e. none_of_is_some _ (ground arith);
  length_new = λ e. none_of_is_some _ (ground arith);
  stored = ground arith;
}

pub parse_header_line-IsStored :
    {J : Type 0} (line : Bytes) (p : Parser J)
    → (parse_header_line line p).1 ≡ none
    → IsStored line p (parse_header_line line p)
unfolding parse_header_line
parse_header_line-IsStored line p h = elim (Option-cases (find_if (λ c. c == b':') line)) [
  | inl e ↦ absurd (ground arith)
  | inr (colon, e) ↦
      let below : leb max_headers (length p.headers) ≡ false = ground arith in
      rw (below, e) (parse_header_at-IsStored line colon p e (ground arith) (rw (below, e) at h))
]

-- What the parser's header map always satisfies.
pub record IsSafeHeaders (headers : List (Bytes × Bytes)) : Type 0 where
  pub names : All (λ e. is_valid_header_key e.0 ≡ true) headers
  pub values : All (λ e. All (λ c. is_line_break c ≡ false) e.1) headers
  pub no_transfer : All (λ e. sv_ci_equal e.0 (bytes "Transfer-Encoding") ≡ false) headers
  pub distinct : Distinct sv_ci_equal (map tolower) sv_ci_equal_iff headers
  pub few : length headers ≤ max_headers

pub IsStored-IsSafeHeaders :
    {J : Type 0} (line : Bytes) (p : Parser J) (r : Parser J × Option ParseError)
    → IsStored line p r
    → IsSafeHeaders p.headers
    → IsSafeHeaders r.0.headers
unfolding emplace_header is_valid_header_value
IsStored-IsSafeHeaders line p r s v =
    let key = key_at line s.colon in
    let value = value_at line s.colon in
    rw s.stored (record {
      names =
          emplace_by-All sv_ci_equal (λ e. is_valid_header_key e.0 ≡ true) key value p.headers
            v.names s.key_valid;
      values =
          emplace_by-All sv_ci_equal (λ e. All (λ c. is_line_break c ≡ false) e.1) key value
            p.headers v.values
            (find_if-none is_line_break value (none_of_is_some _ (ground (arith, s.value_valid))));
      no_transfer =
          emplace_by-All sv_ci_equal (λ e. sv_ci_equal e.0 (bytes "Transfer-Encoding") ≡ false) key
            value p.headers v.no_transfer s.no_transfer;
      distinct =
          emplace_by-Distinct sv_ci_equal (map tolower) sv_ci_equal_iff key value p.headers
            v.distinct;
      few = omega (arith, length-emplace_by sv_ci_equal key value p.headers, s.below);
    })
