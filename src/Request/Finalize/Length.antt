-- ===== src/Request/Finalize/Length.antt =====
-- The Content-Length of a POST request.
use apiserver_asymetric_encr.Base.{
  ltb, Bool-cases, Option-cases, value_or, ℕ, ◌≡◌, refl, sym, ap, ◌∙◌, subst, inl, inr, true,
  Option, none, some, arith,
}
use apiserver_asymetric_encr.Text.{Bytes, bytes, starts_with}
use apiserver_asymetric_encr.Request.Model.{
  post, same_method, ParseError, missing_content_length, Parser, find_header, ◌>>◌,
}
use apiserver_asymetric_encr.Request.Model.Chain.{chain-none}
use apiserver_asymetric_encr.Request.Multipart.{parse_multipart_form_data}
use apiserver_asymetric_encr.Request.Multipart.Filenames.{parse_multipart_form_data_lem}
use apiserver_asymetric_encr.Request.Body.{find_boundary, parse_body_as, parse_body}
use apiserver_asymetric_encr.Request.Eof.{whole_number, eof}
use apiserver_asymetric_encr.Request.Finalize.{
  resolve_content_length, set_content_length, check_content_type, parse_sized_body, finalize_body,
  set_finalized, finalize,
}
use apiserver_asymetric_encr.Request.Finalize.Result.{
  IsUnparsed, no_headers-IsSafeHeaders, finalize_lines-IsParsed, finalize_run,
}
use apiserver_asymetric_encr.Request.Finalize.Frame.{finalize_body-Keeps}
use apiserver_asymetric_encr.Request.Headers.Accepted.{IsSafeHeaders}
use apiserver_asymetric_encr.Request.Eof.Complete.{eof_complete}

module _ {J : Type 0} where
  abbrev SameLength : Parser J → Parser J → Type 0
  SameLength p q = q.content_length ≡ p.content_length

  set_content_length-some :
      (p : Parser J) (n : ℕ)
      → p.identified_content_length ≡ some n
      → set_content_length p ≡ (record p { content_length = n }, none)
  unfolding set_content_length
  set_content_length-some p n e = ground arith

  set_content_length-none :
      (p : Parser J)
      → p.identified_content_length ≡ none
      → same_method p.parsed_method post ≡ true
      → set_content_length p ≡ (p, some missing_content_length)
  unfolding set_content_length
  set_content_length-none p e m = ground arith

  resolve_some :
      (p : Parser J) (sv : Bytes) (n : ℕ)
      → p.identified_content_length ≡ none
      → find_header (bytes "Content-Length") p.headers ≡ some sv
      → whole_number sv ≡ some n
      → resolve_content_length p ≡ record p { identified_content_length = some n }
  unfolding resolve_content_length
  resolve_some p sv n e f g = ground arith

  resolve_none :
      (p : Parser J)
      → p.identified_content_length ≡ none
      → ((sv : Bytes)
          → find_header (bytes "Content-Length") p.headers ≡ some sv
          → whole_number sv ≡ none)
      → resolve_content_length p ≡ p
  unfolding resolve_content_length
  resolve_none p e h = elim (Option-cases (find_header (bytes "Content-Length") p.headers)) [
    | inl f ↦ ground arith
    | inr (sv, f) ↦ let g = h sv f in ground arith
  ]

  module _ (parse_json : Bytes → Option J) where
    parse_body_as-SameLength :
        (content_type : Bytes) (p : Parser J)
        → SameLength p (parse_body_as parse_json content_type p).0
    unfolding parse_body_as
    parse_body_as-SameLength ct p = elim (Bool-cases (starts_with ct (bytes "application/json"))) [
      | inl json ↦ ground arith
      | inr other ↦ elim (Bool-cases (starts_with ct (bytes "multipart/form-data"))) [
        | inl parts ↦ elim (Option-cases (find_boundary ct)) [
          | inl e ↦ ground arith
          | inr (b, e) ↦
              let same_run : parse_body_as parse_json ct p ≡ parse_multipart_form_data b p =
                ground arith in
              let (only, names) = parse_multipart_form_data_lem b p in
              rw same_run (ap (λ (r : Parser J). r.content_length) only)
        ]
        | inr plain ↦ ground arith
      ]
    ]

    parse_body-SameLength : (p : Parser J) → SameLength p (parse_body parse_json p).0
    unfolding parse_body
    parse_body-SameLength p = elim (Option-cases (find_header (bytes "content-type") p.headers)) [
      | inl e ↦ ground arith
      | inr (ct, e) ↦
          let same_run : parse_body parse_json p ≡ parse_body_as parse_json ct p = ground arith in
          rw same_run (parse_body_as-SameLength ct p)
    ]

    check_content_type-SameLength : (p : Parser J) → SameLength p (check_content_type p).0
    unfolding check_content_type
    check_content_type-SameLength p = ground arith

    parse_sized_body-SameLength :
        (p : Parser J)
        → (parse_sized_body parse_json p).1 ≡ none
        → SameLength p (parse_sized_body parse_json p).0
    unfolding parse_sized_body
    parse_sized_body-SameLength p ok = elim (Bool-cases (ltb 0 p.content_length)) [
      | inl sized ↦
          let same_run : parse_sized_body parse_json p
              ≡ (check_content_type >> parse_body parse_json) p =
            ground arith in
          let (ok1, e) =
            chain-none check_content_type (λ q. parse_body parse_json q) p
              (subst (λ r. r.1 ≡ none) same_run ok) in
          rw same_run (
            rw e (parse_body-SameLength (check_content_type p).0 ∙ check_content_type-SameLength p))
      | inr empty ↦
          let same_run : parse_sized_body parse_json p ≡ (p, none) = ground arith in
          rw same_run refl
    ]

    finalize_body_post :
        (p : Parser J)
        → p.identified_content_length ≡ none
        → same_method p.parsed_method post ≡ true
        → (finalize_body parse_json p).1 ≡ none
        → (sv : Bytes) × (find_header (bytes "Content-Length") p.headers ≡ some sv)
          × (whole_number sv ≡ some (finalize_body parse_json p).0.content_length)
    unfolding finalize_body
    finalize_body_post p e m ok =
        let q : Parser J = record p { header_size = value_or p.identified_header_size 0 } in
        let r : Parser J = resolve_content_length q in
        let run : finalize_body parse_json p
            ≡ (set_content_length >> parse_sized_body parse_json) r =
          ground arith in
        let (ok1, step) =
          chain-none set_content_length (λ x. parse_sized_body parse_json x) r
            (subst (λ x. x.1 ≡ none) run ok) in
        elim (Option-cases (find_header (bytes "Content-Length") p.headers)) [
          | inl f ↦
              let same_q : r ≡ q = resolve_none q e (λ sv g. absurd (nothing (sym f ∙ g))) in
              absurd (refused q same_q e m ok1)
          | inr (sv, f) ↦ elim (Option-cases (whole_number sv)) [
            | inl g ↦
                let same_q : r ≡ q =
                  resolve_none q e
                    (λ s h. subst (λ x. whole_number x ≡ none) (one_text (sym f ∙ h)) g) in
                absurd (refused q same_q e m ok1)
            | inr (n, g) ↦
                let at_r : r ≡ record q { identified_content_length = some n } =
                  resolve_some q sv n e f g in
                let at_set : set_content_length r
                    ≡ (record q { identified_content_length = some n; content_length = n }, none) =
                  subst
                    (λ x.
                      set_content_length x
                      ≡ (record q { identified_content_length = some n; content_length = n }, none))
                    (sym at_r)
                    (set_content_length-some (record q { identified_content_length = some n }) n
                      refl) in
                let passed = subst (λ x. x.1 ≡ none) (run ∙ step) ok in
                let kept = parse_sized_body-SameLength (set_content_length r).0 passed in
                (
                  sv,
                  f,
                  g
                      ∙ ap some (
                          sym (
                            ap (λ x. x.0.content_length) (run ∙ step)
                            ∙ kept
                            ∙ ap (λ x. x.0.content_length) at_set)),
                )
          ]
        ]
      where
        one_text : {s t : Bytes} → Path (Option Bytes) (some s) (some t) → s ≡ t
        one_text e = ground arith

        nothing : {s : Bytes} → Path (Option Bytes) none (some s) → ⊥
        nothing e = cc

        some_not_none : {err : ParseError} → Path (Option ParseError) (some err) none → ⊥
        some_not_none e = cc

        refused :
            (q : Parser J)
            → resolve_content_length q ≡ q
            → q.identified_content_length ≡ none
            → same_method q.parsed_method post ≡ true
            → (set_content_length (resolve_content_length q)).1 ≡ none
            → ⊥
        refused q same_q e m ok = some_not_none (
            sym (ap (λ x. x.1) (ap set_content_length same_q ∙ set_content_length-none q e m)) ∙ ok)

    -- When `finalize` reports no error on a POST request that a parser has read and parsed nothing
    -- of, the content length is the number that the Content-Length header spells: a header that is
    -- missing, or that is no number, is an error.
    pub finalize_post :
        (p : Parser J)
        → IsUnparsed p
        → (finalize parse_json p).1 ≡ none
        → same_method (finalize parse_json p).0.parsed_method post ≡ true
        → (sv : Bytes) × (find_header (bytes "Content-Length") (finalize parse_json p).0.headers
            ≡ some sv)
          × (whole_number sv ≡ some (finalize parse_json p).0.content_length)
    unfolding set_finalized
    finalize_post p u ok m =
        let (h, run) = finalize_run parse_json p u ok in
        let at_eof = ap (λ r. r.1) (eof_complete p u.fresh u.small h) in
        let o =
          finalize_lines-IsParsed parse_json h.line_end (eof p).1
            (subst IsSafeHeaders (sym (ap (λ (r : Parser J). r.headers) at_eof ∙ u.no_headers))
              no_headers-IsSafeHeaders)
            (subst (λ r. r.1 ≡ none) run ok) in
        let k = finalize_body-Keeps parse_json o.behind in
        let result = run ∙ o.result in
        let no_length : o.behind.identified_content_length ≡ none =
          ap (λ (r : Parser J). r.identified_content_length) (o.kept)
          ∙ ap (λ (r : Parser J). r.identified_content_length) at_eof
          ∙ u.no_length in
        let is_post : same_method o.behind.parsed_method post ≡ true =
          subst (λ x. same_method x post ≡ true)
            (ap (λ (r : Parser J × Option ParseError). r.0.parsed_method) result ∙ k.parsed_method)
            m in
        let (sv, found, number) = finalize_body_post o.behind no_length is_post o.passed in
        (
          sv,
          ap
                (λ (r : Parser J × Option ParseError).
                  find_header (bytes "Content-Length") r.0.headers)
                result
              ∙ ap (find_header (bytes "Content-Length")) k.headers
              ∙ found,
          number
              ∙ ap some
                  (sym (ap (λ (r : Parser J × Option ParseError). r.0.content_length) result)),
        )
