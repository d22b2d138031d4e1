-- ===== src/Tests/Routes.antt =====
-- The theorems on routes, validation and the text of responses, at small tables.
use apiserver_asymetric_encr.Base.{
  ltb, length, is_empty, drop, last_or, ℕ, ◌+◌, ◌≡◌, refl, true, false, none, some, [], ◌∷◌, ◌++◌,
  arith,
}
use apiserver_asymetric_encr.Text.{Bytes, bytes, same, starts_with, ends_with, find}
use apiserver_asymetric_encr.Request.Access.{
  Request, returned, Value, find_text, get_text, get_required_param,
}
use apiserver_asymetric_encr.Request.Uri.{parse_uri}
use apiserver_asymetric_encr.Router.{is_path_char, webapi_path}
use apiserver_asymetric_encr.Router.Laws.{parse_uri-webapi_path}
use apiserver_asymetric_encr.Validator.{required, Rule, validate_one, validate}
use apiserver_asymetric_encr.Validator.Laws.{validate-get_required_param}
use apiserver_asymetric_encr.Server.{ok, body, json_type}
use apiserver_asymetric_encr.Text.Numbers.{decimal}
use apiserver_asymetric_encr.Server.Message.{content_lines, content_body, message_of}
use apiserver_asymetric_encr.Server.Message.Blank.{message_of-content_body}
use apiserver_asymetric_encr.Tests.Servers.{plain_request, read_request}
use apiserver_asymetric_encr.Request.Model.{lookup_by, find_param}

registered : webapi_path (bytes "/a/b") ≡ some (bytes "/a/b")
unfolding webapi_path is_path_char starts_with ends_with same
registered = refl

parse_uri-webapi_path_example :
    (bytes "/a/b" ≡ bytes "/a/b")
    × (parse_uri (bytes "/a/b") read_request ≡ (record read_request { path = bytes "/a/b" }, none))
parse_uri-webapi_path_example =
    parse_uri-webapi_path (bytes "/a/b") (bytes "/a/b") read_request registered (omega arith)

abbrev name_rule : Rule Bytes
name_rule = record {
  name = bytes "name";
  req = required;
  predicate = λ v. ltb (length v) 9;
  error_message = bytes "too long";
}

abbrev read_text : Request ℕ → Bytes → Value Bytes
read_text req name = get_text (λ j key. false) (λ j key. []) req name

plain_name-valid : validate (validate_one read_text is_empty name_rule ∷ []) plain_request ≡ none
unfolding validate validate_one get_text find_text find_param lookup_by same
plain_name-valid = refl

validate-get_required_param_example :
    (v : Bytes) × (get_required_param read_text plain_request (bytes "name") ≡ returned v)
    × (is_empty v ≡ false)
    × (ltb (length v) 9 ≡ true)
validate-get_required_param_example =
    validate-get_required_param read_text is_empty name_rule plain_request [] [] refl
      plain_name-valid

message_of-content_body_example :
    (k : ℕ) × (find
        (message_of none (bytes "today") (body ok json_type (bytes "{}")))
        (bytes "\r\n\r\n")
      ≡ some k)
    × (drop (k + 4) (message_of none (bytes "today") (body ok json_type (bytes "{}")))
        ≡ content_body (body ok json_type (bytes "{}")))
    × (last_or [] (content_lines none (bytes "today") (body ok json_type (bytes "{}")))
        ≡ bytes "Content-Length: "
          ++ decimal (length (content_body (body ok json_type (bytes "{}")))))
message_of-content_body_example =
    message_of-content_body none (bytes "today") (body ok json_type (bytes "{}")) (refl, refl, refl)
