-- ===== src/Request/Finalize/Result.antt =====
-- What a finalized request looks like.
use apiserver_asymetric_encr.Base.{
  Bool-cases, Option-cases, value_or, length, take, size_mod, ℕ, ◌+◌, ◌<◌, ◌≡◌, refl, sym, ap, ◌∙◌,
  subst, inl, inr, true, false, Option, none, some, [], arith,
}
use apiserver_asymetric_encr.Text.{Bytes, bytes, find}
use apiserver_asymetric_encr.Request.Model.{
  unknown, same_method, ParseError, no_request_line, Parser, Parse, ◌>>◌,
}
use apiserver_asymetric_encr.Request.Model.Chain.{chain-none}
use apiserver_asymetric_encr.Request.Buffer.{view}
use apiserver_asymetric_encr.Request.Uri.{parse_request_line}
use apiserver_asymetric_encr.Request.Uri.Safe.{IsSafePath, parse_request_line-IsSafePath}
use apiserver_asymetric_encr.Request.Headers.{parse_headers}
use apiserver_asymetric_encr.Request.Headers.Accepted.{IsSafeHeaders}
use apiserver_asymetric_encr.Request.Multipart.Filenames.{HasBaseNames}
use apiserver_asymetric_encr.Request.Eof.Complete.{
  IsFresh, HasHeader, method_in, eof_again, eof_complete, eof_iff,
}
use apiserver_asymetric_encr.Request.Finalize.{
  finalize_body, check_method, headers_view, set_finalized, finalize_lines, finalize,
}
use apiserver_asymetric_encr.Request.Headers.Block.{parse_headers-IsSafeHeaders}
use apiserver_asymetric_encr.Request.Eof.{eof}
use apiserver_asymetric_encr.Request.Finalize.Frame.{finalize_body-Keeps}

-- A parser that has read a request and parsed nothing of it.
pub record IsUnparsed {J : Type 0} (p : Parser J) : Type 0 where
  pub fresh : IsFresh p
  pub no_headers : p.headers ≡ []
  pub no_files : p.file_parts ≡ []
  pub no_length : p.identified_content_length ≡ none
  pub open_state : p.is_finalized ≡ false
  pub small : length (view p.buffer) < size_mod

-- What a handler may rely on.
pub record IsSafeRequest {J : Type 0} (q : Parser J) : Type 0 where
  pub path : IsSafePath q.path
  pub headers : IsSafeHeaders q.headers
  pub known_method : same_method q.parsed_method unknown ≡ false
  pub names : HasBaseNames q.file_parts
  pub finalized : q.is_finalized ≡ true

pub no_headers-IsSafeHeaders : IsSafeHeaders []
no_headers-IsSafeHeaders = record {
  names = tt;
  values = tt;
  no_transfer = tt;
  distinct = tt;
  few = omega arith;
}

module _ {J : Type 0} (parse_json : Bytes → Option J) where
  check_method_lem :
      (p : Parser J)
      → (check_method p).1 ≡ none
      → ((check_method p).0 ≡ record p { parsed_method = value_or p.identified_method unknown })
        × (same_method (value_or p.identified_method unknown) unknown ≡ false)
  unfolding check_method
  check_method_lem p h = ground arith

  -- The parser after the header block, and the result from there.
  pub record IsParsed (p : Parser J) (r : Parser J × Option ParseError) : Type 0 where
    pub behind : Parser J
    pub path : IsSafePath behind.path
    pub headers : IsSafeHeaders behind.headers
    pub method : behind.parsed_method ≡ value_or p.identified_method unknown
    pub known : same_method (value_or p.identified_method unknown) unknown ≡ false
    pub kept : behind ≡ record p {
      path = behind.path;
      headers = behind.headers;
      parsed_method = behind.parsed_method;
    }
    pub passed : (finalize_body parse_json behind).1 ≡ none
    pub result : r ≡ set_finalized (finalize_body parse_json behind).0

  pub finalize_lines-IsParsed :
      (l : ℕ) (p : Parser J)
      → IsSafeHeaders p.headers
      → (finalize_lines parse_json l p).1 ≡ none
      → IsParsed p (finalize_lines parse_json l p)
  unfolding finalize_lines
  finalize_lines-IsParsed l p safe h =
      let line : Parse J = parse_request_line (take l (view p.buffer)) in
      let block : Parse J = parse_headers (headers_view l p) in
      let rest : Parse J = finalize_body parse_json in
      let (ok4, e4) = chain-none (((line >> check_method) >> block) >> rest) set_finalized p h in
      let (ok3, e3) = chain-none ((line >> check_method) >> block) rest p ok4 in
      let (ok2, e2) = chain-none (line >> check_method) block p ok3 in
      let (ok1, e1) = chain-none line check_method p ok2 in
      let p1 = (line p).0 in
      let p2 = (check_method p1).0 in
      let p3 = (block p2).0 in
      let c2 : (((line >> check_method) >> block) p) ≡ block p2 = e2 ∙ ap (λ r. block r.0) e1 in
      let c3 : ((((line >> check_method) >> block) >> rest) p) ≡ rest p3 =
        e3 ∙ ap (λ r. rest r.0) c2 in
      let (uri, safe_uri, at_line) = parse_request_line-IsSafePath (take l (view p.buffer)) p ok1 in
      let (at_method, known) = check_method_lem p1 (subst (λ r. r.1 ≡ none) e1 ok2) in
      let start : p2
          ≡ record p { path = uri; parsed_method = value_or p.identified_method unknown } =
        at_method
        ∙ ap (λ (r : Parser J). record r { parsed_method = value_or r.identified_method unknown })
            at_line in
      let (safe3, at_block) =
        parse_headers-IsSafeHeaders (headers_view l p) p2 (subst (λ r. r.1 ≡ none) c2 ok3)
          (subst IsSafeHeaders (sym (ap (λ (r : Parser J). r.headers) start)) safe) in
      let all : p3 ≡ record p {
        path = uri;
        parsed_method = value_or p.identified_method unknown;
        headers = p3.headers;
      } =
        at_block ∙ ap (λ (r : Parser J). record r { headers = p3.headers }) start in
      record {
        behind = p3;
        path = subst IsSafePath (sym (ap (λ (r : Parser J). r.path) all)) safe_uri;
        headers = safe3;
        method = ap (λ (r : Parser J). r.parsed_method) all;
        known =
            subst
              (λ (r : Parser J). same_method (value_or r.identified_method unknown) unknown ≡ false)
              at_line known;
        kept =
            subst
              (λ (r : Parser J).
                p3
                ≡ record p { path = r.path; headers = p3.headers; parsed_method = r.parsed_method })
              (sym all) all;
        passed = subst (λ r. r.1 ≡ none) c3 ok4;
        result = e4 ∙ ap (λ r. set_finalized r.0) c3;
      }

  -- When `finalize` reports no error on a parser that has read a request, every part that it
  -- publishes has been checked.
  finalize_lines-IsSafeRequest :
      (l : ℕ) (p : Parser J)
      → p.headers ≡ []
      → p.file_parts ≡ []
      → (finalize_lines parse_json l p).1 ≡ none
      → IsSafeRequest (finalize_lines parse_json l p).0
  unfolding set_finalized
  finalize_lines-IsSafeRequest l p eh ef h =
      let o =
        finalize_lines-IsParsed l p (subst IsSafeHeaders (sym eh) no_headers-IsSafeHeaders) h in
      let k = finalize_body-Keeps parse_json o.behind in
      let no_names : HasBaseNames o.behind.file_parts =
        subst HasBaseNames (sym (ap (λ (r : Parser J). r.file_parts) o.kept ∙ ef)) tt in
      let there : IsSafeRequest (set_finalized (finalize_body parse_json o.behind).0).0 = record {
        path = subst IsSafePath (sym k.path) o.path;
        headers = subst IsSafeHeaders (sym k.headers) o.headers;
        known_method =
            subst (λ m. same_method m unknown ≡ false) (sym (k.parsed_method ∙ o.method)) o.known;
        names = k.names no_names;
        finalized = refl;
      } in
      subst (λ r. IsSafeRequest r.0) (sym o.result) there

  -- The run of `finalize` that reports no error.
  pub finalize_run :
      (p : Parser J)
      → IsUnparsed p
      → (finalize parse_json p).1 ≡ none
      → (h : HasHeader (view p.buffer)) × (finalize parse_json p
          ≡ finalize_lines parse_json h.line_end (eof p).1)
  unfolding finalize
  finalize_run p u ok = elim (Bool-cases (eof p).0) [
    | inr not_yet ↦ absurd (ground (arith, u.open_state))
    | inl said_yes ↦
        let h = (eof_iff p u.fresh u.small).0 said_yes in
        let found : find (view (eof p).1.buffer) (bytes "\r\n") ≡ some h.line_end =
          subst (λ (r : Parser J). find (view r.buffer) (bytes "\r\n") ≡ some h.line_end)
            (sym (ap (λ r. r.1) (eof_complete p u.fresh u.small h))) h.first_line in
        (h, ground (arith, u.open_state))
  ]

  -- When `finalize` reports no error on a parser that has read fewer than 2 ^ 64 bytes and parsed
  -- nothing of them, the request that it leaves has a valid path, header names and values that
  -- passed the checks, at most 50 headers, no two alike, no Transfer-Encoding, a method that is
  -- supported, only base names as file names, and is finalized.
  pub finalize-IsSafeRequest :
      (p : Parser J)
      → IsUnparsed p
      → (finalize parse_json p).1 ≡ none
      → IsSafeRequest (finalize parse_json p).0
  finalize-IsSafeRequest p u ok =
      let (h, run) = finalize_run p u ok in
      let at_eof = ap (λ r. r.1) (eof_complete p u.fresh u.small h) in
      let safe =
        finalize_lines-IsSafeRequest h.line_end (eof p).1
          (ap (λ (r : Parser J). r.headers) at_eof ∙ u.no_headers)
          (ap (λ (r : Parser J). r.file_parts) at_eof ∙ u.no_files)
          (subst (λ r. r.1 ≡ none) run ok) in
      subst (λ r. IsSafeRequest r.0) (sym run) safe

  after_eof : Parser J → Parser J × Option ParseError
  after_eof q = elim (find (view q.buffer) (bytes "\r\n")) [
    | none ↦ (q, some no_request_line)
    | some first_line_end ↦ finalize_lines parse_json first_line_end q
  ]

  finalize_complete :
      (p q : Parser J)
      → p.is_finalized ≡ false
      → eof p ≡ (true, q)
      → finalize parse_json p ≡ after_eof q
  unfolding finalize after_eof
  finalize_complete p q open_ e = elim (Option-cases (find (view q.buffer) (bytes "\r\n"))) [
    | inl f ↦ ground arith
    | inr (l, f) ↦ ground arith
  ]

  -- On a parser that has read a complete request and parsed nothing of it, asking `eof` first, as
  -- the read handler does, changes nothing of what `finalize` does.
  pub finalize-eof :
      (p : Parser J)
      → IsUnparsed p
      → (eof p).0 ≡ true
      → finalize parse_json (eof p).1 ≡ finalize parse_json p
  finalize-eof p u said_yes =
      let h = (eof_iff p u.fresh u.small).0 said_yes in
      let first = eof_complete p u.fresh u.small h in
      let q : Parser J = record p {
        identified_header_size = some (h.header_end + 4);
        identified_method = some (method_in (view p.buffer) h);
      } in
      let again : eof q ≡ (true, q) =
        eof_again q (h.header_end + 4) (take h.space (take h.line_end (view p.buffer))) refl refl in
      ap (λ r. finalize parse_json r.1) first
      ∙ finalize_complete q q u.open_state again
      ∙ sym (finalize_complete p q u.open_state first)
