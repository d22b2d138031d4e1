-- ===== src/Router.antt =====
-- `api_router` of src/api_router.hpp and the paths that it accepts (src/webapi_path.hpp). A compiled
-- regular expression is its matcher, a parameter `Bytes → Bool`; the type `H` of a handler and `V`
-- of a validator are parameters too.
pub mod Laws
use apiserver_asymetric_encr.Base.{
  ltb, leb, ◌==◌, if◌then◌else◌, length, is_empty, all, ℕ, Bool, not, ◌&&◌, ◌||◌, Option, none,
  some, List, [], ◌∷◌, ◌++◌,
}
use apiserver_asymetric_encr.Text.{Bytes, bytes, same, starts_with, ends_with, is_digit}
use apiserver_asymetric_encr.Request.Model.{Method}

pub record ApiEndpoint (H V : Type 0) : Type 0 where
  pub method : Method
  pub validator : V
  pub handler : H
  pub is_secure : Bool
  pub path_regex : Option (Bytes → Bool)

-- `m_routes` as an association list, `m_regex_routes` in the order of registration.
pub record ApiRouter (H V : Type 0) : Type 0 where
  pub routes : List (Bytes × ApiEndpoint H V)
  pub regex_routes : List ((Bytes → Bool) × ApiEndpoint H V)

unfoldable pub new_router : {H V : Type 0} → ApiRouter H V
new_router = record { routes = []; regex_routes = [] }

unfoldable pub is_path_char : ℕ → Bool
is_path_char c = (leb b'a' c && leb c b'z') || is_digit c || c == b'_' || c == b'-' || c == b'/'

-- The constructor of `webapi_path`: `none` where it throws.
unfoldable pub webapi_path : Bytes → Option Bytes
webapi_path path =
    if is_empty path || not (starts_with path (bytes "/"))
    then none
    else if ltb 1 (length path) && ends_with path (bytes "/")
    then none
    else if all is_path_char path
    then some path
    else none

-- `m_routes[path] = endpoint`.
unfoldable pub assign_route :
    {H V : Type 0}
    → Bytes
    → ApiEndpoint H V
    → List (Bytes × ApiEndpoint H V)
    → List (Bytes × ApiEndpoint H V)
assign_route path e [] = (path, e) ∷ []
assign_route path e ((k, old) ∷ rest) =
    if same k path then (k, e) ∷ rest else (k, old) ∷ assign_route path e rest

unfoldable pub register_api :
    {H V : Type 0} → Bytes → Method → V → H → Bool → ApiRouter H V → ApiRouter H V
register_api path m v h secure r = record r {
  routes =
      assign_route path
        (record { method = m; validator = v; handler = h; is_secure = secure; path_regex = none })
        r.routes;
}

-- `no_rules` is the validator that accepts everything.
unfoldable pub register_api_regex :
    {H V : Type 0} → V → (Bytes → Bool) → Method → H → Bool → ApiRouter H V → ApiRouter H V
register_api_regex no_rules pattern m h secure r = record r {
  regex_routes =
      r.regex_routes
      ++ (
        pattern,
        record {
          method = m;
          validator = no_rules;
          handler = h;
          is_secure = secure;
          path_regex = some pattern;
        },
      )
        ∷ [];
}

unfoldable pub find_route :
    {H V : Type 0} → Bytes → List (Bytes × ApiEndpoint H V) → Option (ApiEndpoint H V)
find_route path [] = none
find_route path ((k, e) ∷ rest) = if same k path then some e else find_route path rest

unfoldable pub find_regex :
    {H V : Type 0} → Bytes → List ((Bytes → Bool) × ApiEndpoint H V) → Option (ApiEndpoint H V)
find_regex path [] = none
find_regex path ((re, e) ∷ rest) = if re path then some e else find_regex path rest

unfoldable pub find_handler : {H V : Type 0} → ApiRouter H V → Bytes → Option (ApiEndpoint H V)
find_handler r path = elim (find_route path r.routes) [
  | some e ↦ some e
  | none ↦ find_regex path r.regex_routes
]
