-- ===== src/Auth/Handler/Laws.antt =====
-- Whom the authorization middleware of internal/auth/middleware.go lets through.
use api_gateway_go.Base.{
  ◌≡◌, ◌≢◌, ◌↔◌, ◌⊎◌, refl, sym, inl, inr, true, false, Option, none, some, String, List, [], ◌∷◌,
  ◌==◌, string_eq, bytes_eq, arith, eq_iff, Bool-cases, Option-cases, if◌then◌else◌, Any, Elem,
}
use api_gateway_go.Context.{
  Context, IsBuilt, get_route_from_context, get_route-IsBuilt, set_user_context,
}
use api_gateway_go.Router.{Route}
use api_gateway_go.Auth.Context.{Claims, UserContext, new_user_context}
use api_gateway_go.Auth.Errors.{ok, Result-cases}
use api_gateway_go.Auth.Extractor.{extract_token}
use api_gateway_go.Auth.Jwt.{JwtLibrary, validate_token}
use api_gateway_go.Auth.Revocation.{HttpResult, is_revoked}
use api_gateway_go.Auth.Policy.{
  Policy, Decision, evaluate, evaluate_policy, policy_public, policy_authenticated,
  policy_role_based, policy_permission_based,
}
use api_gateway_go.Auth.Policy.Laws.{types_differ, Grants, evaluate_policy_iff}
use api_gateway_go.Auth.Handler.{
  Components, Middleware, Request, next, Readings, write_error, handle_auth_error, build_policy,
  is_health_check_path, conclude, decide, check_revoked, authenticate, serve, handle,
  internal_error,
}

-- A request that has a valid token for a session that is not known to be revoked, and whose user
-- the policy decision lets in; the next handler gets the context with that user.
pub record IsAuthorized (lib : JwtLibrary) (service : String → HttpResult) (at : Readings)
    (m : Components) (r : Request) (policy : Policy) (ctx : Context) : Type 0 where
  pub token : String
  pub claims : Claims
  pub sent : extract_token m.extractor r.cookies ≡ ok token
  pub valid : validate_token lib at.parse at.validate m.validator token ≡ ok claims
  pub not_revoked :
      (is_revoked at.revocation_read at.revocation_write m.revocation_checker service
        claims.session_id).0
      ≢ some true
  pub allowed :
      (evaluate at.policy_read at.policy_write m.policy_evaluator policy
        (some (new_user_context claims))).0.allowed
      ≡ true
  pub context : ctx ≡ set_user_context (new_user_context claims) r.context

conclude-next :
    (r : Request) (user : UserContext) (decision : Decision) (ctx : Context)
    → conclude r user decision ≡ next ctx
    → (decision.allowed ≡ true) × (set_user_context user r.context ≡ ctx)
unfolding conclude write_error
conclude-next r user decision ctx h = ground arith

check_revoked-next :
    (service : String → HttpResult) (at : Readings) (m : Components) (r : Request) (policy : Policy)
    (claims : Claims) (ctx : Context)
    → (check_revoked service at m r policy claims).0 ≡ next ctx
    → ((is_revoked at.revocation_read at.revocation_write m.revocation_checker service
          claims.session_id).0
        ≢ some true)
      × ((evaluate at.policy_read at.policy_write m.policy_evaluator policy
            (some (new_user_context claims))).0.allowed
          ≡ true)
      × (set_user_context (new_user_context claims) r.context ≡ ctx)
unfolding check_revoked decide write_error
check_revoked-next service at m r policy claims ctx h = ground (
  arith,
  conclude-next r (new_user_context claims)
      (evaluate at.policy_read at.policy_write m.policy_evaluator policy
        (some (new_user_context claims))).0
      ctx,
)

authenticate-next :
    (lib : JwtLibrary) (service : String → HttpResult) (at : Readings) (m : Components)
    (r : Request) (policy : Policy) (ctx : Context)
    → (authenticate lib service at m r policy).0 ≡ next ctx
    → IsAuthorized lib service at m r policy ctx
unfolding authenticate handle_auth_error write_error
authenticate-next lib service at m r policy ctx h =
    elim (Result-cases (extract_token m.extractor r.cookies)) [
      | inr (e, failed) ↦ absurd (ground arith)
      | inl (token, sent) ↦
          elim (Result-cases (validate_token lib at.parse at.validate m.validator token)) [
            | inr (e, failed) ↦ absurd (ground arith)
            | inl (claims, valid) ↦
                let passed : (check_revoked service at m r policy claims).0 ≡ next ctx =
                  ground arith in
                let (not_revoked, allowed, context) =
                  check_revoked-next service at m r policy claims ctx passed in
                record {
                  token = token;
                  claims = claims;
                  sent = sent;
                  valid = valid;
                  not_revoked = not_revoked;
                  allowed = allowed;
                  context = sym context;
                }
          ]
    ]

-- An enabled middleware calls the next handler only for a health check outside the routes, for a
-- public route, or for a request with a token that is present and valid, a session that the
-- revocation check does not report, and a user whom the route's policy decision allows: then with
-- that user in the context.
pub handle-next :
    (lib : JwtLibrary) (service : String → HttpResult) (at : Readings) (mw : Middleware)
    (m : Components) (r : Request) (ctx : Context)
    → mw.components ≡ some m
    → (handle lib service at mw r).0 ≡ next ctx
    → ((get_route_from_context r.context ≡ none)
        × (is_health_check_path r.path ≡ true)
        × (ctx ≡ r.context))
      ⊎ ((route : Route) × (get_route_from_context r.context ≡ some route)
          × (((build_policy route).type ≡ policy_public) × (ctx ≡ r.context)
              ⊎ IsAuthorized lib service at m r (build_policy route) ctx))
unfolding handle serve write_error
handle-next lib service at mw m r ctx on h =
    elim (Option-cases (get_route_from_context r.context)) [
      | inl missing ↦ inl (ground arith)
      | inr (route, found) ↦ elim (Bool-cases ((build_policy route).type == policy_public)) [
        | inl open_route ↦ inr (route, found, inl ((eq_iff _ _).0 open_route, ground arith))
        | inr closed_route ↦ inr (
          route,
          found,
          inr (authenticate-next lib service at m r (build_policy route) ctx (ground arith)),
        )
      ]
    ]

-- The key under which `getRouteFromContext` looks is set nowhere: with authorization enabled every
-- request with a context that the gateway made is answered with status 500, but for the paths of
-- health checks.
pub handle_unrouted :
    (lib : JwtLibrary) (service : String → HttpResult) (at : Readings) (mw : Middleware)
    (m : Components) (r : Request)
    → mw.components ≡ some m
    → IsBuilt r.context
    → (handle lib service at mw r).0
      ≡ (if is_health_check_path r.path then next r.context else internal_error r)
unfolding handle serve
handle_unrouted lib service at mw m r on built = ground (arith, get_route-IsBuilt built)

-- If the revocation service fails and the cache has no answer, the request goes on exactly as if
-- the session were not revoked: to the policy decision.
pub check_revoked_fails_open :
    (service : String → HttpResult) (at : Readings) (m : Components) (r : Request) (policy : Policy)
    (claims : Claims)
    → let check =
        is_revoked at.revocation_read at.revocation_write m.revocation_checker service
          claims.session_id in
      check.0 ≢ some true
      → check_revoked service at m r policy claims
        ≡ decide at (record m { revocation_checker = check.1 }) r policy claims
unfolding check_revoked
check_revoked_fails_open service at m r policy claims h = ground arith

names_nonempty :
    (policy_role_based ≢ "") × (policy_permission_based ≢ "") × (policy_authenticated ≢ "")
names_nonempty = (
  ground (arith, eq_iff policy_role_based ""),
  ground (arith, eq_iff policy_permission_based ""),
  ground (arith, eq_iff policy_authenticated ""),
)

build_policy-permission :
    (route : Route)
    → route.auth_policy ≡ policy_permission_based
    → build_policy route
      ≡ record { type = policy_permission_based; roles = []; permissions = []; logic = "" }
unfolding build_policy
build_policy-permission route e = ground (
  arith,
  names_nonempty,
  types_differ,
  eq_iff route.auth_policy "",
  eq_iff route.auth_policy policy_role_based,
  eq_iff policy_authenticated policy_role_based,
)

build_policy-role :
    (route : Route)
    → route.auth_policy ≡ policy_role_based
    → build_policy route ≡ record {
      type = policy_role_based;
      roles = route.required_roles;
      permissions = [];
      logic = "OR";
    }
unfolding build_policy
build_policy-role route e = ground (
  arith,
  names_nonempty,
  types_differ,
  eq_iff route.auth_policy "",
  eq_iff route.auth_policy policy_role_based,
)

build_policy-default :
    (route : Route)
    → route.auth_policy ≡ ""
    → build_policy route
      ≡ record { type = policy_authenticated; roles = []; permissions = []; logic = "" }
unfolding build_policy
build_policy-default route e = rw (e, build_policy)

not_granted :
    (policy : Policy) (user : Option UserContext)
    → ¬ Grants policy user
    → (evaluate_policy policy user).allowed ≡ false
not_granted policy user no_grant = ground (arith, evaluate_policy_iff policy user)

-- A route with the policy "permission-based" lets nobody in: `buildPolicy` gives it no permission,
-- and a policy without permissions is refused.
pub permission_based_denied :
    (route : Route) (user : Option UserContext)
    → route.auth_policy ≡ policy_permission_based
    → (evaluate_policy (build_policy route) user).allowed ≡ false
permission_based_denied route none e =
    rw (build_policy-permission route e) (not_granted _ none (λ g. types_differ.2 (sym g)))
permission_based_denied route (some user) e =
    rw (build_policy-permission route e)
      (not_granted _ (some user) (λ g. ground (arith, types_differ)))

or_differs : ◌≢◌ {A = String} "OR" "AND"
or_differs = ground (arith, eq_iff "OR" "AND")

role_grants :
    (roles : List String) (user : UserContext)
    → let policy : Policy = record {
      type = policy_role_based;
      roles = roles;
      permissions = [];
      logic = "OR";
    } in
      ((evaluate_policy policy (some user)).allowed ≡ true)
      ↔ Any (λ role. Elem role user.roles) roles
role_grants [] user =
    ((λ h. ground (arith, types_differ, (evaluate_policy_iff _ (some user)).0 h)), (λ h. absurd h))
role_grants (role ∷ roles) user = (
  (λ h. ground (arith, types_differ, or_differs, (evaluate_policy_iff _ (some user)).0 h)),
  λ h.
      (evaluate_policy_iff _ (some user)).1
        (inr (inr (inl (refl, ((λ e. cc), inr (or_differs, h)))))),
)

-- A role-based route lets in exactly the users with one of its required roles; a route with no
-- policy lets in every authenticated user, and nobody else.
pub build_policy_grants :
    (route : Route) (user : UserContext)
    → (route.auth_policy ≡ policy_role_based
        → ((evaluate_policy (build_policy route) (some user)).allowed ≡ true)
          ↔ Any (λ role. Elem role user.roles) route.required_roles)
      × (route.auth_policy ≡ ""
          → ((evaluate_policy (build_policy route) (some user)).allowed ≡ true)
            × ((evaluate_policy (build_policy route) none).allowed ≡ false))
build_policy_grants route user = (
  (λ e. rw (build_policy-role route e) (role_grants route.required_roles user)),
  (λ e. rw (build_policy-default route e) (
    (evaluate_policy_iff _ (some user)).1 (inr (inl refl)),
    not_granted _ none (λ g. types_differ.0 (sym g)),
  )),
)
