-- ===== src/Request/Eof/Complete.antt =====
-- `eof` answers from the header alone.
use apiserver_asymetric_encr.Base.{
  ltb, leb, ◌==◌, Option-cases, length, is_empty, take, length-append, is_empty_of_lt,
  take-append_le, size_mod, sub_size, ℕ, ◌+◌, ◌<◌, ◌≡◌, refl, sym, ap, ◌∙◌, ◌↔◌, inl, inr, true,
  false, none, some, ◌++◌, arith,
}
use apiserver_asymetric_encr.Text.{Bytes, bytes, find, find_if}
use apiserver_asymetric_encr.Text.Search.{find-starts_with, find-append}
use apiserver_asymetric_encr.Request.Model.{Method, same_method, Parser}
use apiserver_asymetric_encr.Request.Buffer.{view}
use apiserver_asymetric_encr.Request.Eof.{
  find_and_store_header_end, method_of, store_method, parse_method_within, parse_and_store_method,
  eof_of_method, eof,
}

-- Nothing of the request has been identified yet.
pub record IsFresh {J : Type 0} (p : Parser J) : Type 0 where
  pub no_method : p.identified_method ≡ none
  pub no_header : p.identified_header_size ≡ none

-- The text has a blank line, and before it a request line with a blank in it and at least one
-- header line.
pub record HasHeader (v : Bytes) : Type 0 where
  pub header_end : ℕ
  pub line_end : ℕ
  pub space : ℕ
  pub blank_line : find v (bytes "\r\n\r\n") ≡ some header_end
  pub first_line : find v (bytes "\r\n") ≡ some line_end
  pub line_some : 0 < line_end
  pub line_before : line_end < header_end
  pub spaced : find_if (λ c. c == b' ') (take line_end v) ≡ some space

-- The method that `eof` stores.
abbrev pub method_in : (v : Bytes) → HasHeader v → Method
method_in v h = method_of (take h.space (take h.line_end v))

eof_of_method_known :
    {J : Type 0} (token : Bytes) (p : Parser J)
    → p.identified_method ≡ some (method_of token)
    → eof_of_method p ≡ (true, p)
unfolding eof_of_method method_of same_method
eof_of_method_known token p e = ground arith

-- Once the header and the method are known, the answer is yes, and nothing changes.
pub eof_again :
    {J : Type 0} (p : Parser J) (k : ℕ) (token : Bytes)
    → p.identified_header_size ≡ some k
    → p.identified_method ≡ some (method_of token)
    → eof p ≡ (true, p)
unfolding eof find_and_store_header_end parse_and_store_method
eof_again p k token e f = let known = eof_of_method_known token p f in ground arith

parse_method_within_complete :
    {J : Type 0} (p : Parser J) (h : HasHeader (view p.buffer))
    → length (view p.buffer) < size_mod
    → parse_method_within (h.header_end + 4) p
      ≡ (true, record p { identified_method = some (method_in (view p.buffer) h) })
unfolding parse_method_within store_method
parse_method_within_complete p h small =
    let v = view p.buffer in
    let inside = (find-starts_with v (bytes "\r\n\r\n") h.header_end h.blank_line).1 in
    let some_bytes : is_empty v ≡ false = is_empty_of_lt v (omega (arith, inside)) in
    let all_there : ltb (length v) (h.header_end + 4) ≡ false = ground arith in
    let marker : sub_size (h.header_end + 4) 4 ≡ h.header_end = omega (arith, inside) in
    let one_line : (h.line_end == 0) ≡ false = ground (arith, h.line_some) in
    let before : leb h.header_end h.line_end ≡ false = ground (arith, h.line_before) in
    rw (some_bytes, all_there, h.first_line, marker, one_line, before) (rw (h.spaced, store_method))

module _ {J : Type 0} (p : Parser J) (f : IsFresh p) where
  find_and_store_header_end-some :
      (k : ℕ)
      → find (view p.buffer) (bytes "\r\n\r\n") ≡ some k
      → find_and_store_header_end p ≡ (true, record p { identified_header_size = some (k + 4) })
  unfolding find_and_store_header_end
  find_and_store_header_end-some k e = ground (arith, f.no_header, e)

  find_and_store_header_end-none :
      find (view p.buffer) (bytes "\r\n\r\n") ≡ none → find_and_store_header_end p ≡ (false, p)
  unfolding find_and_store_header_end
  find_and_store_header_end-none e = ground (arith, f.no_header, e)

  parse_and_store_method-fresh :
      (k : ℕ)
      → let q : Parser J = record p { identified_header_size = some (k + 4) } in
        parse_and_store_method q ≡ parse_method_within (k + 4) q
  unfolding parse_and_store_method
  parse_and_store_method-fresh k = ground (arith, f.no_method)

  module _ (small : length (view p.buffer) < size_mod) where
    -- With the header there, `eof` says yes, whatever follows the header, and stores the method
    -- and the size of the header.
    pub eof_complete :
        (h : HasHeader (view p.buffer))
        → eof p ≡ (
          true,
          record p {
            identified_header_size = some (h.header_end + 4);
            identified_method = some (method_in (view p.buffer) h);
          },
        )
    unfolding eof
    eof_complete h =
        let q : Parser J = record p { identified_header_size = some (h.header_end + 4) } in
        rw (find_and_store_header_end-some h.header_end h.blank_line) (
          rw (parse_and_store_method-fresh h.header_end) (
            rw (parse_method_within_complete q h small)
              (eof_of_method_known (take h.space (take h.line_end (view p.buffer))) _ refl)))

    parse_method_within_header :
        (k : ℕ)
        → let q : Parser J = record p { identified_header_size = some (k + 4) } in
          find (view p.buffer) (bytes "\r\n\r\n") ≡ some k
          → (parse_method_within (k + 4) q).0 ≡ true
          → HasHeader (view p.buffer)
    unfolding parse_method_within store_method
    parse_method_within_header k e said_yes =
        let v = view p.buffer in
        let inside = (find-starts_with v (bytes "\r\n\r\n") k e).1 in
        let marker : sub_size (k + 4) 4 ≡ k = omega (arith, inside) in
        elim (Option-cases (find v (bytes "\r\n"))) [
          | inl none_found ↦ absurd (ground arith)
          | inr (l, found) ↦ elim (Option-cases (find_if (λ c. c == b' ') (take l v))) [
            | inl no_space ↦ absurd (ground arith)
            | inr (s, space) ↦ record {
              header_end = k;
              line_end = l;
              space = s;
              blank_line = e;
              first_line = found;
              line_some = ground arith;
              line_before = ground (arith, marker);
              spaced = space;
            }
          ]
        ]

    eof-HasHeader : (eof p).0 ≡ true → HasHeader (view p.buffer)
    unfolding eof
    eof-HasHeader h = elim (Option-cases (find (view p.buffer) (bytes "\r\n\r\n"))) [
      | inl e ↦ absurd (ground (arith, find_and_store_header_end-none e))
      | inr (k, e) ↦
          parse_method_within_header k e
            (ground (arith, find_and_store_header_end-some k e, parse_and_store_method-fresh k))
    ]

    -- A parser that has identified nothing yet and holds fewer than 2 ^ 64 bytes says that the
    -- request is complete exactly when the blank line has come, after a request line with a blank
    -- in it and at least one header line: no body is waited for.
    pub eof_iff : ((eof p).0 ≡ true) ↔ HasHeader (view p.buffer)
    eof_iff = (eof-HasHeader, λ h. ap (λ r. r.0) (eof_complete h))

-- The header of a text is the header of every longer text.
HasHeader-append :
    (v t w : Bytes) (h : HasHeader v)
    → w ≡ v ++ t
    → (g : HasHeader w) × (g.header_end ≡ h.header_end) × (method_in w g ≡ method_in v h)
HasHeader-append v t w h e =
    let inside = (find-starts_with v (bytes "\r\n") h.line_end h.first_line).1 in
    let same_line : take h.line_end w ≡ take h.line_end v =
      ap (take h.line_end) e ∙ take-append_le h.line_end v t (omega (arith, inside)) in
    (
      record {
        header_end = h.header_end;
        line_end = h.line_end;
        space = h.space;
        blank_line = rw e (find-append v t (bytes "\r\n\r\n") h.header_end h.blank_line);
        first_line = rw e (find-append v t (bytes "\r\n") h.line_end h.first_line);
        line_some = h.line_some;
        line_before = h.line_before;
        spaced = rw same_line h.spaced;
      },
      refl,
      ap (λ line. method_of (take h.space line)) same_line,
    )

-- For two parsers that have identified nothing, one holding what the other holds and more, fewer
-- than 2 ^ 64 bytes: if the shorter text is a complete request, so is the longer one, with the same
-- header size and the same method. Bytes that come later change nothing.
pub eof-append :
    {J : Type 0} (p q : Parser J) (t : Bytes)
    → IsFresh p
    → IsFresh q
    → view q.buffer ≡ view p.buffer ++ t
    → length (view q.buffer) < size_mod
    → (eof p).0 ≡ true
    → ((eof q).0 ≡ true)
      × ((eof q).1.identified_header_size ≡ (eof p).1.identified_header_size)
      × ((eof q).1.identified_method ≡ (eof p).1.identified_method)
eof-append p q t f g longer small h =
    let bound : length (view p.buffer) < size_mod =
      omega (arith, length-append (view p.buffer) t, ap length longer) in
    let header = (eof_iff p f bound).0 h in
    let (later, same_end, same_token) =
      HasHeader-append (view p.buffer) t (view q.buffer) header longer in
    let now = eof_complete p f bound header in
    let then_later = eof_complete q g small later in
    (
      ap (λ r. r.0) then_later,
      ap (λ r. r.1.identified_header_size) then_later
          ∙ ap (λ (n : ℕ). some (n + 4)) same_end
          ∙ sym (ap (λ r. r.1.identified_header_size) now),
      ap (λ r. r.1.identified_method) then_later
          ∙ ap some same_token
          ∙ sym (ap (λ r. r.1.identified_method) now),
    )
