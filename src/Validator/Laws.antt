-- ===== src/Validator/Laws.antt =====
-- What a request that passes validation has.
use apiserver_asymetric_encr.Base.{
  All, ◌≡◌, refl, ◌↔◌, ◌⊎◌, inl, inr, Bool, true, false, Option, none, List, [], ◌∷◌, ◌++◌, arith,
}
use apiserver_asymetric_encr.Text.{Bytes}
use apiserver_asymetric_encr.Request.Access.{
  Request, returned, Value, value, no_value, param_error, unwrap, get_required_param,
}
use apiserver_asymetric_encr.Validator.{
  required, optional, ValidationError, Rule, missing, validate_one, validate,
}

-- What a rule asks of what `get_value` found.
abbrev Satisfies : {T : Type 0} → (T → Bool) → Rule T → Value T → Type 0
Satisfies is_empty_text r (param_error original) = ⊥
Satisfies is_empty_text r no_value = r.req ≡ optional
Satisfies is_empty_text r (value v) =
    ((is_empty_text v ≡ true) × (r.req ≡ optional))
    ⊎ ((is_empty_text v ≡ false) × (r.predicate v ≡ true))

-- A rule passes exactly when the value has the right format and is there, not an empty text, and
-- satisfies the predicate, or when it is missing or an empty text and the rule is optional.
validate_one_iff :
    {J T : Type 0} (read : Request J → Bytes → Value T) (is_empty_text : T → Bool) (r : Rule T)
    (request : Request J)
    → (validate_one read is_empty_text r request ≡ none)
      ↔ Satisfies is_empty_text r (read request r.name)
unfolding validate_one missing
validate_one_iff read is_empty_text r request = elim (read request r.name) [
  | param_error original ↦ ground arith
  | no_value ↦ ground arith
  | value v ↦ ground arith
]

-- Validation passes exactly when every rule passes.
pub validate_iff :
    {J : Type 0} (rules : List (Request J → Option ValidationError)) (request : Request J)
    → (validate rules request ≡ none) ↔ All (λ one. one request ≡ none) rules
unfolding validate
validate_iff [] request = (λ _. tt, λ _. refl)
validate_iff (one ∷ rest) request = ground (arith, validate_iff rest request)

validate_at :
    {J : Type 0} (before after : List (Request J → Option ValidationError))
    (one : Request J → Option ValidationError) (request : Request J)
    → validate (before ++ one ∷ after) request ≡ none
    → one request ≡ none
unfolding validate
validate_at [] after one request h = ground arith
validate_at (first ∷ before) after one request h =
    validate_at before after one request (ground arith)

required_value :
    {T : Type 0} (is_empty_text : T → Bool) (r : Rule T) (found : Value T)
    → r.req ≡ required
    → Satisfies is_empty_text r found
    → (v : T) × (unwrap found ≡ returned v) × (is_empty_text v ≡ false) × (r.predicate v ≡ true)
unfolding unwrap
required_value is_empty_text r (value v) needed (inl (blank, optional_rule)) = absurd cc
required_value is_empty_text r (value v) needed (inr (there, fits)) = (v, refl, there, fits)
required_value is_empty_text r (param_error original) needed ok = absurd ok
required_value is_empty_text r no_value needed ok = absurd cc

module _ {J T : Type 0} (read : Request J → Bytes → Value T) (is_empty_text : T → Bool) (r : Rule T)
    (request : Request J) where
  -- Behind a validator that passed, in which a rule requires a parameter, the accessor for required
  -- parameters throws nothing at the rule's type and name: it returns a value that is no empty text
  -- and satisfies the rule's predicate.
  pub validate-get_required_param :
      (before after : List (Request J → Option ValidationError))
      → r.req ≡ required
      → validate (before ++ validate_one read is_empty_text r ∷ after) request ≡ none
      → (v : T) × (get_required_param read request r.name ≡ returned v)
        × (is_empty_text v ≡ false)
        × (r.predicate v ≡ true)
  unfolding get_required_param
  validate-get_required_param before after needed passed =
      required_value is_empty_text r (read request r.name) needed (
        (validate_one_iff read is_empty_text r request).0
          (validate_at before after (validate_one read is_empty_text r) request passed))
