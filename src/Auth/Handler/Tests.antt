-- ===== src/Auth/Handler/Tests.antt =====
-- The theorems on the authorization middleware at concrete requests.
use api_gateway_go.Base.{
  ◌≡◌, ◌↔◌, ◌⊎◌, refl, true, false, none, some, String, List, [], ◌∷◌, codes, string_eq, bytes_eq,
  pos, Any, Elem,
}
use api_gateway_go.Context.{
  Context, set_user_context, bare, route_match, get_route_from_context, same_key, value,
}
use api_gateway_go.Router.{Route}
use api_gateway_go.Auth.Context.{new_user_context, has_any_role}
use api_gateway_go.Auth.Extractor.{extract_token, request_cookie, validate_cookie_security}
use api_gateway_go.Auth.Jwt.{
  validate_token, checked_claims, key_func, validate_expiration, validate_required_claims,
  validate_required, is_missing,
}
use api_gateway_go.Auth.Revocation.{HttpResult, unreachable, is_revoked, ask, check_revocation_list}
use api_gateway_go.Auth.Policy.{
  evaluate, evaluate_user, evaluate_policy, evaluate_role_based_policy, policy_public,
  policy_role_based,
}
use api_gateway_go.Auth.Handler.{
  authenticate, check_revoked, decide, conclude, Components, Middleware, Request, Readings, next,
  new_middleware, build_policy, is_health_check_path, serve, handle_with, handle,
}
use api_gateway_go.Auth.Handler.Laws.{IsAuthorized, handle-next, build_policy_grants}
use api_gateway_go.Auth.Samples.{sample_config, sample_validator, sample_library, ann}

abbrev route_with : String → List String → Route
route_with policy roles = record {
  path_pattern = codes "/";
  compiled_regex = λ path. some [];
  methods = [];
  backend_url = codes "http://backend";
  timeout = 0;
  auth_policy = policy;
  required_roles = roles;
  rate_limits = [];
  strip_prefix = [];
  priority = pos 0;
  param_names = [];
}

abbrev parts : Components
parts = record {
  extractor = record {
    cookie_name = "session";
    enforce_cookie_security = false;
    cookie_same_site = "Strict";
  };
  validator = sample_validator;
  revocation_checker = record { url = "http://revoked"; cache = none; enabled = true };
  policy_evaluator = record { cache = none };
}

abbrev at_5 : Readings
at_5 = record {
  parse = 5;
  validate = 5;
  revocation_read = 5;
  revocation_write = 5;
  policy_read = 5;
  policy_write = 5;
}

abbrev no_service : String → HttpResult
no_service url = unreachable

abbrev enabled_mw : Middleware
enabled_mw = record { components = some parts }

-- An administrators' route stands in the context under the plain text; the token is Ann's.
abbrev routed : Request
routed = record {
  path = codes "/";
  cookies = ("session", "token") ∷ [];
  context =
      (
        bare "route_match",
        route_match (record { route = route_with "role-based" ("admin" ∷ []); params = [] }),
      )
      ∷ [];
}

authorization_off :
    new_middleware (λ file. none) (record sample_config { enabled = false }) parts.extractor
    ≡ some (record { components = none })
unfolding new_middleware
authorization_off = refl

abbrev ann_passes : Context
ann_passes = set_user_context ann routed.context

routed_passes : (handle sample_library no_service at_5 enabled_mw routed).0 ≡ next ann_passes
unfolding handle handle_with serve authenticate check_revoked decide conclude get_route_from_context
    value same_key build_policy extract_token validate_token checked_claims key_func
    validate_expiration validate_required_claims validate_required is_missing is_revoked ask
    check_revocation_list evaluate evaluate_user evaluate_policy evaluate_role_based_policy
    new_user_context has_any_role request_cookie validate_cookie_security
routed_passes = refl

handle-next_example :
    ((get_route_from_context routed.context ≡ none)
      × (is_health_check_path routed.path ≡ true)
      × (ann_passes ≡ routed.context))
    ⊎ ((route : Route) × (get_route_from_context routed.context ≡ some route)
        × (((build_policy route).type ≡ policy_public) × (ann_passes ≡ routed.context)
            ⊎ IsAuthorized sample_library no_service at_5 parts routed
                (build_policy route)
                ann_passes))
handle-next_example =
    handle-next sample_library no_service at_5 enabled_mw parts routed ann_passes refl routed_passes

build_policy_grants_example :
    let route = route_with "role-based" ("admin" ∷ []) in
    (route.auth_policy ≡ policy_role_based
      → ((evaluate_policy (build_policy route) (some ann)).allowed ≡ true)
        ↔ Any (λ role. Elem role ann.roles) route.required_roles)
    × (route.auth_policy ≡ ""
        → ((evaluate_policy (build_policy route) (some ann)).allowed ≡ true)
          × ((evaluate_policy (build_policy route) none).allowed ≡ false))
build_policy_grants_example = build_policy_grants (route_with "role-based" ("admin" ∷ [])) ann
