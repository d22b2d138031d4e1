-- ===== src/Request/Multipart/Filenames.antt =====
-- The file names of an upload: none holds a path separator, whatever the client sends.
use apiserver_asymetric_encr.Base.{
  ◌==◌, Option-cases, take, drop, All, All-append, ℕ, suc, ◌+◌, ◌≡◌, refl, ap, ◌∙◌, subst, inl, inr,
  Bool, false, Option, none, some, List, [], ◌∷◌, arith,
}
use apiserver_asymetric_encr.Text.{Bytes, bytes, find_if, find_last_if, split}
use apiserver_asymetric_encr.Text.Search.{find_last_if-none, find_last_if-drop_none}
use apiserver_asymetric_encr.Request.Model.{MultipartItem, PartHeaders, Parser}
use apiserver_asymetric_encr.Request.Multipart.{
  is_separator, sanitize_filename, set_parameter, process_parameter, content_step,
  extract_params_from, extract_params_from_content, part_header_at, part_header_line,
  part_header_lines, parse_part_headers, strip_part, part_headers_end, store_part,
  process_multipart_part, process_parts, parse_multipart_form_data,
}

abbrev pub IsBaseName : Bytes → Type 0
IsBaseName = All (λ c. is_separator c ≡ false)

sanitize_filename-IsBaseName : (filename : Bytes) → IsBaseName (sanitize_filename filename)
unfolding sanitize_filename
sanitize_filename-IsBaseName f = elim (Option-cases (find_last_if is_separator f)) [
  | inl e ↦ rw (e, sanitize_filename) (find_last_if-none is_separator f e)
  | inr (i, e) ↦
      let one : i + 1 ≡ suc i = omega arith in
      rw (e, sanitize_filename) (rw one (find_last_if-drop_none is_separator f i e))
]

abbrev FilenameOk : Option Bytes → Type 0
FilenameOk none = Unit
FilenameOk (some f) = IsBaseName f

set_parameter-FilenameOk :
    (key value : Bytes) (h : PartHeaders)
    → FilenameOk h.filename
    → FilenameOk (set_parameter key value h).filename
unfolding set_parameter
set_parameter-FilenameOk key value h k = ground (arith, sanitize_filename-IsBaseName value)

process_parameter-FilenameOk :
    (param : Bytes) (h : PartHeaders)
    → FilenameOk h.filename
    → FilenameOk (process_parameter param h).filename
unfolding process_parameter
process_parameter-FilenameOk param h k = grind (arith, set_parameter-FilenameOk)

content_step-FilenameOk :
    (c : ℕ) (s : Bool × Bytes × PartHeaders)
    → FilenameOk s.2.filename
    → FilenameOk (content_step c s).2.filename
unfolding content_step
content_step-FilenameOk c (q, token, h) k = ground (arith, process_parameter-FilenameOk token h k)

extract_params_from-FilenameOk :
    (s : Bool × Bytes × PartHeaders) (content : Bytes)
    → FilenameOk s.2.filename
    → FilenameOk (extract_params_from s content).filename
unfolding extract_params_from
extract_params_from-FilenameOk (q, token, h) [] k = process_parameter-FilenameOk token h k
extract_params_from-FilenameOk s (c ∷ cs) k =
    extract_params_from-FilenameOk (content_step c s) cs (content_step-FilenameOk c s k)

part_header_at-FilenameOk :
    (line : Bytes) (colon : ℕ) (h : PartHeaders)
    → FilenameOk h.filename
    → FilenameOk (part_header_at line colon h).filename
unfolding part_header_at extract_params_from_content
part_header_at-FilenameOk line colon h k =
    ground (arith, extract_params_from-FilenameOk (false, [], h) (drop (colon + 1) line) k)

part_header_line-FilenameOk :
    (line : Bytes) (h : PartHeaders)
    → FilenameOk h.filename
    → FilenameOk (part_header_line line h).filename
unfolding part_header_line
part_header_line-FilenameOk line h k = elim (Option-cases (find_if (λ c. c == b':') line)) [
  | inl e ↦ let same_line : part_header_line line h ≡ h = rw (e, part_header_line) in rw same_line k
  | inr (colon, e) ↦
      let at_colon : part_header_line line h ≡ part_header_at line colon h =
        rw (e, part_header_line) in
      rw at_colon (part_header_at-FilenameOk line colon h k)
]

part_header_lines-FilenameOk :
    (lines : List Bytes) (h : PartHeaders)
    → FilenameOk h.filename
    → FilenameOk (part_header_lines lines h).filename
unfolding part_header_lines
part_header_lines-FilenameOk [] h k = k
part_header_lines-FilenameOk ([] ∷ rest) h k = part_header_lines-FilenameOk rest h k
part_header_lines-FilenameOk ((c ∷ cs) ∷ rest) h k =
    part_header_lines-FilenameOk rest (part_header_line (c ∷ cs) h)
      (part_header_line-FilenameOk (c ∷ cs) h k)

abbrev pub HasBaseNames : List MultipartItem → Type 0
HasBaseNames = All (λ item. IsBaseName item.filename)

module _ {J : Type 0} where
  -- A multipart body changes the parameters and the file parts, and nothing else.
  abbrev pub OnlyParts : Parser J → Parser J → Type 0
  OnlyParts p q = q ≡ record p { params = q.params; file_parts = q.file_parts }

  store_part-OnlyParts :
      (h : PartHeaders) (content : Bytes) (p : Parser J) → OnlyParts p (store_part h content p)
  unfolding store_part
  store_part-OnlyParts h content p = ground arith

  store_part-HasBaseNames :
      (h : PartHeaders) (content : Bytes) (p : Parser J)
      → FilenameOk h.filename
      → HasBaseNames p.file_parts
      → HasBaseNames (store_part h content p).file_parts
  unfolding store_part
  store_part-HasBaseNames h content p k b = named h.field_name h.filename refl refl
    where
      named :
          (field file : Option Bytes)
          → h.field_name ≡ field
          → h.filename ≡ file
          → HasBaseNames (store_part h content p).file_parts
      named none file e e' = rw e b
      named (some field) none e e' = rw (e, e') b
      named (some field) (some file) e e' =
          rw (e, e')
            (All-append (λ item. IsBaseName item.filename) p.file_parts _ b
              (subst FilenameOk e' k, tt))

  process_multipart_part_lem :
      (part : Bytes) (p : Parser J)
      → OnlyParts p (process_multipart_part part p)
        × (HasBaseNames p.file_parts → HasBaseNames (process_multipart_part part p).file_parts)
  unfolding process_multipart_part parse_part_headers
  process_multipart_part_lem part p = elim (Option-cases (part_headers_end (strip_part part))) [
    | inl e ↦ rw (e, process_multipart_part) (refl, λ b. b)
    | inr ((end_pos, len), e) ↦
        let stripped = strip_part part in
        let lines = split (bytes "\r\n") (take end_pos stripped) in
        let none_yet : PartHeaders = record {
          field_name = none;
          filename = none;
          content_type = none;
        } in
        let h = part_header_lines lines none_yet in
        let content = drop (end_pos + len) stripped in
        rw (e, process_multipart_part)
          (
            store_part-OnlyParts h content p,
            store_part-HasBaseNames h content p (part_header_lines-FilenameOk lines none_yet tt),
          )
  ]

  process_parts_lem :
      (parts : List Bytes) (p : Parser J)
      → OnlyParts p (process_parts parts p)
        × (HasBaseNames p.file_parts → HasBaseNames (process_parts parts p).file_parts)
  unfolding process_parts
  process_parts_lem [] p = (refl, λ b. b)
  process_parts_lem (part ∷ rest) p =
      let (same_now, safe_now) = process_multipart_part_lem part p in
      let (same_later, safe_later) = process_parts_lem rest (process_multipart_part part p) in
      let q = process_parts rest (process_multipart_part part p) in
      (
        same_later
            ∙ ap (λ (w : Parser J). record w { params = q.params; file_parts = q.file_parts })
                same_now,
        λ b. safe_later (safe_now b),
      )

  -- Whatever a multipart body holds, the file names stored from it are base names, and only the
  -- parameters and the file parts change.
  pub parse_multipart_form_data_lem :
      (boundary : Bytes) (p : Parser J)
      → OnlyParts p (parse_multipart_form_data boundary p).0
        × (HasBaseNames p.file_parts
            → HasBaseNames (parse_multipart_form_data boundary p).0.file_parts)
  unfolding parse_multipart_form_data
  parse_multipart_form_data_lem boundary p = process_parts_lem _ p
