-- ===== src/Auth/Handler.antt =====
-- internal/auth/middleware.go: the authorization middleware.
-- The wrapped handler is not called here: `next` says that it is called, and with which context.
-- The JWT library and the revocation service are parameters. The clock is read once for each step
-- that reads it; metrics and log lines are left out. The names of headers are canonical, as net/http
-- keeps them: `WWW-Authenticate` is Www-Authenticate.
pub mod Laws
mod Tests
use api_gateway_go.Base.{
  ℕ, Bool, true, false, Option, none, some, String, List, [], ◌∷◌, ◌==◌, string_eq, bytes_eq, Bytes,
  codes, if◌then◌else◌, eqb,
}
use api_gateway_go.Config.{AuthorizationConfig}
use api_gateway_go.Context.{Context, get_route_from_context, get_correlation_id, set_user_context}
use api_gateway_go.Router.{Route}
use api_gateway_go.Auth.Context.{Claims, UserContext, new_user_context}
use api_gateway_go.Auth.Errors.{ValidationError, Result, ok, err}
use api_gateway_go.Auth.Extractor.{ExtractorConfig, extract_token}
use api_gateway_go.Auth.Jwt.{JwtLibrary, TokenValidator, Key, load_signing_key, validate_token}
use api_gateway_go.Auth.Revocation.{
  RevocationChecker, HttpResult, is_revoked, new_revocation_checker,
}
use api_gateway_go.Auth.Policy.{
  Policy, PolicyEvaluator, Decision, Detail, evaluate, new_policy_evaluator, policy_public,
  policy_authenticated, policy_role_based,
}

pub record Components : Type 0 where
  pub extractor : ExtractorConfig
  pub validator : TokenValidator
  pub revocation_checker : RevocationChecker
  pub policy_evaluator : PolicyEvaluator

-- `none` if authorization is disabled.
pub record Middleware : Type 0 where
  pub components : Option Components

pub record Request : Type 0 where
  pub path : Bytes
  pub cookies : List (String × String)
  pub context : Context

pub data Details : Type 0 where
  no_details : Details
  of_decision : List (String × Detail) → Details
  of_token : Option ℕ → Details

pub record Response : Type 0 where
  pub status : ℕ
  pub error : String
  pub message : String
  pub correlation_id : String
  pub path : Bytes
  pub details : Details
  pub headers : List (String × String)

pub data Outcome : Type 0 where
  next : Context → Outcome
  respond : Response → Outcome

-- The readings of the clock, in the order in which they are made.
pub record Readings : Type 0 where
  pub parse : ℕ
  pub validate : ℕ
  pub revocation_read : ℕ
  pub revocation_write : ℕ
  pub policy_read : ℕ
  pub policy_write : ℕ

-- `NewMiddleware`; the outer `none` is its error. `security` is what the extractor reads of its
-- security configuration; its cookie name is that of `cfg`.
unfoldable pub new_middleware :
    (String → Option Key) → AuthorizationConfig → ExtractorConfig → Option Middleware
unfolding new_revocation_checker new_policy_evaluator
new_middleware read_pem cfg security =
    if cfg.enabled
    then elim (load_signing_key read_pem cfg) [
      | none ↦ none
      | some validator ↦ some (record {
        components = some (record {
          extractor = record security { cookie_name = cfg.cookie_name };
          validator = validator;
          revocation_checker = new_revocation_checker cfg;
          policy_evaluator = new_policy_evaluator cfg.cache_auth_decisions cfg.cache_decision_ttl;
        });
      })
    ]
    else some (record { components = none })

abbrev status_unauthorized : ℕ
status_unauthorized = 401

abbrev status_forbidden : ℕ
status_forbidden = 403

abbrev status_internal_server_error : ℕ
status_internal_server_error = 500

-- The headers of `writeError`, in the order in which they are set.
abbrev error_headers : ℕ → String → List (String × String)
error_headers status id =
    ("Content-Type", "application/json")
    ∷ ("X-Correlation-Id", id)
    ∷ (if eqb status status_unauthorized
        then ("Www-Authenticate", "Bearer") ∷ ("Cache-Control", "no-store") ∷ []
        else [])

unfoldable pub write_error : Request → ℕ → String → String → Details → Outcome
write_error r status code message details = respond (record {
  status = status;
  error = code;
  message = message;
  correlation_id = get_correlation_id r.context;
  path = r.path;
  details = details;
  headers = error_headers status (get_correlation_id r.context);
})

-- Every error of the steps before is a `ValidationError`.
unfoldable pub handle_auth_error : Request → ValidationError → Outcome
handle_auth_error r e =
    write_error r (if e.code == "forbidden" then status_forbidden else status_unauthorized) e.code
      e.message (of_token e.expired_at)

unfoldable pub build_policy : Route → Policy
build_policy route =
    let type = if route.auth_policy == "" then policy_authenticated else route.auth_policy in
    if type == policy_role_based
    then record { type = type; roles = route.required_roles; permissions = []; logic = "OR" }
    else record { type = type; roles = []; permissions = []; logic = "" }

unfoldable pub is_health_check_path : Bytes → Bool
is_health_check_path path =
    if path == codes "/_health"
    then true
    else if path == codes "/_health/live"
    then true
    else if path == codes "/_health/ready"
    then true
    else path == codes "/metrics"

unfoldable pub internal_error : Request → Outcome
internal_error r =
    write_error r status_internal_server_error "internal_error" "Internal server error" no_details

-- From the decision on.
unfoldable pub conclude : Request → UserContext → Decision → Outcome
conclude r user decision =
    if decision.allowed
    then next (set_user_context user r.context)
    else write_error r status_forbidden "forbidden" decision.reason (of_decision decision.details)

-- From the policy evaluation on.
unfoldable pub decide : Readings → Components → Request → Policy → Claims → Outcome × Components
decide at m r policy claims =
    let user = new_user_context claims in
    let (decision, pe') =
      evaluate at.policy_read at.policy_write m.policy_evaluator policy (some user) in
    (conclude r user decision, record m { policy_evaluator = pe' })

-- From the revocation check on. An error of the check lets the request pass.
unfoldable pub check_revoked :
    (String → HttpResult) → Readings → Components → Request → Policy → Claims → Outcome × Components
check_revoked service at m r policy claims =
    let (verdict, rc') =
      is_revoked at.revocation_read at.revocation_write m.revocation_checker service
        claims.session_id in
    let m' = record m { revocation_checker = rc' } in
    elim verdict [
      | none ↦ decide at m' r policy claims
      | some revoked ↦
          if revoked
          then (
            write_error r status_unauthorized "token_revoked" "Session token has been revoked"
                no_details,
            m',
          )
          else decide at m' r policy claims
    ]

-- From the token on.
unfoldable pub authenticate :
    JwtLibrary
    → (String → HttpResult)
    → Readings
    → Components
    → Request
    → Policy
    → Outcome × Components
authenticate lib service at m r policy = elim (extract_token m.extractor r.cookies) [
  | err e ↦ (handle_auth_error r e, m)
  | ok token ↦ elim (validate_token lib at.parse at.validate m.validator token) [
    | err e ↦ (handle_auth_error r e, m)
    | ok claims ↦ check_revoked service at m r policy claims
  ]
]

-- The handler of an enabled middleware, given the route of the context.
unfoldable pub serve :
    JwtLibrary
    → (String → HttpResult)
    → Readings
    → Components
    → Request
    → Option Route
    → Outcome × Components
unfolding internal_error
serve lib service at m r none =
    (if is_health_check_path r.path then next r.context else internal_error r, m)
serve lib service at m r (some route) =
    let policy = build_policy route in
    let checked = authenticate lib service at m r policy in
    if policy.type == policy_public then (next r.context, m) else checked

handle_with :
    JwtLibrary
    → (String → HttpResult)
    → Readings
    → Option Components
    → Request
    → Outcome × Middleware
handle_with lib service at none r = (next r.context, record { components = none })
handle_with lib service at (some m) r =
    let (outcome, m') = serve lib service at m r (get_route_from_context r.context) in
    (outcome, record { components = some m' })

-- `Handler`
unfoldable pub handle :
    JwtLibrary → (String → HttpResult) → Readings → Middleware → Request → Outcome × Middleware
unfolding handle_with
handle lib service at mw r = handle_with lib service at mw.components r
