-- ===== src/Validator.antt =====
-- `validation::validator` of src/input_validator.hpp. A rule's type parameter `T` shows in two
-- arguments: `read` is `get_value<T>`, and `is_empty_text` is the `constexpr` test on strings, false
-- at every other type.
pub mod Laws
use apiserver_asymetric_encr.Base.{
  if◌then◌else◌, Bool, not, Option, none, some, List, [], ◌∷◌, ◌++◌,
}
use apiserver_asymetric_encr.Text.{Bytes, bytes}
use apiserver_asymetric_encr.Request.Access.{Request, Value, value, no_value, param_error}

pub data Requirement : Type 0 where
  required optional : Requirement

pub data ErrorType : Type 0 where
  missing_required_param invalid_format custom_rule_failed : ErrorType

pub record ValidationError : Type 0 where
  pub param_name : Bytes
  pub error_type : ErrorType
  pub details : Bytes

pub record Rule (T : Type 0) : Type 0 where
  pub name : Bytes
  pub req : Requirement
  pub predicate : T → Bool
  pub error_message : Bytes

unfoldable pub quoted : Bytes → Bytes
quoted v = bytes "Invalid value: '" ++ v ++ bytes "'"

-- A value that is missing, or empty as a text.
unfoldable pub missing : {T : Type 0} → Rule T → Option ValidationError
missing r = elim r.req [
  | required ↦ some (record {
    param_name = r.name;
    error_type = missing_required_param;
    details = bytes "Required parameter is missing or empty.";
  })
  | optional ↦ none
]

-- `validate_one`; the exception is the result.
unfoldable pub validate_one :
    {J T : Type 0}
    → (Request J → Bytes → Value T)
    → (T → Bool)
    → Rule T
    → Request J
    → Option ValidationError
validate_one read is_empty_text r request = elim (read request r.name) [
  | param_error original ↦
      some (record { param_name = r.name; error_type = invalid_format; details = quoted original })
  | no_value ↦ missing r
  | value v ↦
      if is_empty_text v
      then missing r
      else if not (r.predicate v)
      then some (record {
        param_name = r.name;
        error_type = custom_rule_failed;
        details = r.error_message;
      })
      else none
]

-- `validate`: the rules in their order, up to the first that throws.
unfoldable pub validate :
    {J : Type 0} → List (Request J → Option ValidationError) → Request J → Option ValidationError
validate [] request = none
validate (one ∷ rest) request =
    let others = validate rest request in elim (one request) [ some e ↦ some e | none ↦ others ]
