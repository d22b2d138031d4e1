-- ===== src/Request/Finalize/Frame.antt =====
-- What the steps behind the header block leave as it is.
use apiserver_asymetric_encr.Base.{
  ltb, Bool-cases, Option-cases, value_or, ◌≡◌, refl, sym, ap, ◌∙◌, subst, inl, inr, Option, arith,
}
use apiserver_asymetric_encr.Request.Model.{Parser, find_header, Parse, ◌>>◌}
use apiserver_asymetric_encr.Request.Multipart.Filenames.{
  HasBaseNames, OnlyParts, parse_multipart_form_data_lem,
}
use apiserver_asymetric_encr.Request.Finalize.{
  resolve_content_length, set_content_length, check_content_type, parse_sized_body, has_body,
  finalize_body,
}
use apiserver_asymetric_encr.Text.{Bytes, bytes, starts_with}
use apiserver_asymetric_encr.Request.Model.Chain.{chain-some}
use apiserver_asymetric_encr.Request.Multipart.{parse_multipart_form_data}
use apiserver_asymetric_encr.Request.Body.{find_boundary, parse_body_as, parse_body}

-- The path, the headers, the method and the buffer are kept, and file names stay base names.
pub record Keeps {J : Type 0} (p q : Parser J) : Type 0 where
  pub path : q.path ≡ p.path
  pub headers : q.headers ≡ p.headers
  pub parsed_method : q.parsed_method ≡ p.parsed_method
  pub buffer : q.buffer ≡ p.buffer
  pub names : HasBaseNames p.file_parts → HasBaseNames q.file_parts

module _ {J : Type 0} where
  Keeps-refl : (p : Parser J) → Keeps p p
  Keeps-refl p = record {
    path = refl;
    headers = refl;
    parsed_method = refl;
    buffer = refl;
    names = λ h. h;
  }

  Keeps-trans : {p q r : Parser J} → Keeps p q → Keeps q r → Keeps p r
  Keeps-trans k l = record {
    path = l.path ∙ k.path;
    headers = l.headers ∙ k.headers;
    parsed_method = l.parsed_method ∙ k.parsed_method;
    buffer = l.buffer ∙ k.buffer;
    names = λ h. l.names (k.names h);
  }

  chain-Keeps :
      (first second : Parse J) (p : Parser J)
      → Keeps p (first p).0
      → ((q : Parser J) → Keeps q (second q).0)
      → Keeps p ((first >> second) p).0
  chain-Keeps first second p k l = elim (Option-cases (first p).1) [
    | inl e ↦
        let both : (first >> second) p ≡ second (first p).0 = ground arith in
        rw both (Keeps-trans k (l (first p).0))
    | inr (err, e) ↦ rw (chain-some first second p err e) k
  ]

  -- A step that writes none of these fields.
  Keeps-of_same :
      (p q : Parser J)
      → q ≡ record p {
        json_payload = q.json_payload;
        identified_method = q.identified_method;
        identified_content_length = q.identified_content_length;
        identified_header_size = q.identified_header_size;
        params = q.params;
        body = q.body;
        content_length = q.content_length;
        header_size = q.header_size;
        is_finalized = q.is_finalized;
      }
      → Keeps p q
  Keeps-of_same p q e = record {
    path = ap (λ (r : Parser J). r.path) e;
    headers = ap (λ (r : Parser J). r.headers) e;
    parsed_method = ap (λ (r : Parser J). r.parsed_method) e;
    buffer = ap (λ (r : Parser J). r.buffer) e;
    names = λ h. subst HasBaseNames (sym (ap (λ (r : Parser J). r.file_parts) e)) h;
  }

  OnlyParts-Keeps :
      (p q : Parser J)
      → OnlyParts p q
      → (HasBaseNames p.file_parts → HasBaseNames q.file_parts)
      → Keeps p q
  OnlyParts-Keeps p q e n = record {
    path = ap (λ (r : Parser J). r.path) e;
    headers = ap (λ (r : Parser J). r.headers) e;
    parsed_method = ap (λ (r : Parser J). r.parsed_method) e;
    buffer = ap (λ (r : Parser J). r.buffer) e;
    names = n;
  }

  resolve_content_length-Keeps : (p : Parser J) → Keeps p (resolve_content_length p)
  unfolding resolve_content_length
  resolve_content_length-Keeps p = Keeps-of_same p _ (ground arith)

  set_content_length-Keeps : (p : Parser J) → Keeps p (set_content_length p).0
  unfolding set_content_length
  set_content_length-Keeps p = Keeps-of_same p _ (ground arith)

  check_content_type-Keeps : (p : Parser J) → Keeps p (check_content_type p).0
  unfolding check_content_type
  check_content_type-Keeps p = Keeps-of_same p _ (ground arith)

  module _ (parse_json : Bytes → Option J) where
    parse_body_as-Keeps :
        (content_type : Bytes) (p : Parser J) → Keeps p (parse_body_as parse_json content_type p).0
    unfolding parse_body_as
    parse_body_as-Keeps ct p = elim (Bool-cases (starts_with ct (bytes "application/json"))) [
      | inl json ↦ Keeps-of_same p _ (ground arith)
      | inr other ↦ elim (Bool-cases (starts_with ct (bytes "multipart/form-data"))) [
        | inl parts ↦ elim (Option-cases (find_boundary ct)) [
          | inl e ↦ Keeps-of_same p _ (ground arith)
          | inr (b, e) ↦
              let same_run : parse_body_as parse_json ct p ≡ parse_multipart_form_data b p =
                ground arith in
              let (only, names) = parse_multipart_form_data_lem b p in
              rw same_run (OnlyParts-Keeps p _ only names)
        ]
        | inr plain ↦ Keeps-of_same p _ (ground arith)
      ]
    ]

    parse_body-Keeps : (p : Parser J) → Keeps p (parse_body parse_json p).0
    unfolding parse_body
    parse_body-Keeps p = elim (Option-cases (find_header (bytes "content-type") p.headers)) [
      | inl e ↦ Keeps-of_same p _ (ground arith)
      | inr (ct, e) ↦
          let same_run : parse_body parse_json p ≡ parse_body_as parse_json ct p = ground arith in
          rw same_run (parse_body_as-Keeps ct p)
    ]

    parse_sized_body-Keeps : (p : Parser J) → Keeps p (parse_sized_body parse_json p).0
    unfolding parse_sized_body
    parse_sized_body-Keeps p = elim (Bool-cases (ltb 0 p.content_length)) [
      | inl sized ↦
          rw (sized, parse_sized_body)
            (chain-Keeps check_content_type (λ q. parse_body parse_json q) p
              (check_content_type-Keeps p) parse_body-Keeps)
      | inr empty ↦ rw (empty, parse_sized_body) (Keeps-refl p)
    ]

    -- Nothing behind the header block changes the path, the headers, the method or the buffer, and
    -- file names that were base names stay base names.
    pub finalize_body-Keeps : (p : Parser J) → Keeps p (finalize_body parse_json p).0
    unfolding finalize_body
    finalize_body-Keeps p =
        let q : Parser J = record p { header_size = value_or p.identified_header_size 0 } in
        let start : Keeps p q = Keeps-of_same p q refl in
        elim (Bool-cases (has_body q.parsed_method)) [
          | inl body ↦ rw body (
              Keeps-trans start (
                Keeps-trans (resolve_content_length-Keeps q) (
                  chain-Keeps set_content_length (λ r. parse_sized_body parse_json r)
                    (resolve_content_length q) (set_content_length-Keeps (resolve_content_length q))
                    parse_sized_body-Keeps)))
          | inr none_expected ↦ rw none_expected start
        ]
