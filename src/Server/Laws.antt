-- ===== src/Server/Laws.antt =====
-- What a server of a valid configuration does with requests: without and with its authorization.
use api_gateway_go.Base.{
  ◌≡◌, inl, inr, refl, ap, ◌∙◌, Bool, false, ◌&&◌, Option, none, some, String, string_eq, bytes_eq,
  if◌then◌else◌, arith, Elem,
}
use api_gateway_go.Config.{Config, AuthorizationConfig, RateLimitConfig}
use api_gateway_go.Config.Validate.{
  validate, validate_server, validate_logging, validate_authorization, validate_rate_limit,
  validate_routes, and_then, one_of,
}
use api_gateway_go.Router.{Match, match, RegexpLibrary}
use api_gateway_go.Auth.Handler.{new_middleware}
use api_gateway_go.Auth.Extractor.{ExtractorConfig}
use api_gateway_go.Auth.Jwt.{Key}
use api_gateway_go.Auth.Jwt.Keys.{es_algorithms, load_signing_key-es}
use api_gateway_go.Health
use api_gateway_go.Http.{Request, Run}
use api_gateway_go.Middleware.Errors.{error_handling}
use api_gateway_go.Middleware.Security.{security, https_redirect}
use api_gateway_go.Middleware.Input.{input_validation, limit_body}
use api_gateway_go.Middleware.Input.Laws.{
  IsMethodAllowed, IsPathShort, IsAgentBlocked, input_validation_lem,
}
use api_gateway_go.Server.{Server, new, auth_of, new_limiter}
use api_gateway_go.Server.Reach.{watched_request, watched-backend}
use api_gateway_go.Server.Inner.{mux-forwards, limited, limited_request-same}
use api_gateway_go.Server.Pipeline.{
  World, Parts, root, auth_stage, only_if, is_set, inner, watched, setup_router, patterns,
}

auth_of-es :
    (read_pem : String → Option Key) (cfg : Config) (security : ExtractorConfig)
    → Elem cfg.authorization.jwt_signing_algorithm es_algorithms
    → auth_of read_pem cfg security ≡ none
unfolding new_middleware
auth_of-es read_pem cfg security es =
    ground (arith, load_signing_key-es read_pem cfg.authorization es)

module _ {S B : Type 0} (parts : Parts S B) where
  -- A request that the input validation lets pass and the router has a route for; no redirect to
  -- HTTPS is configured, and `ServeMux` serves the request under "/": neither by a page of the gateway
  -- itself nor by a redirect to a cleaned path.
  pub record IsProxied (s : Server (World S B)) (r : Request) (route : Match) : Type 0 where
    pub method : IsMethodAllowed s.config.security (watched_request parts s r)
    pub path : IsPathShort s.config.security (watched_request parts s r)
    pub agent : ¬ IsAgentBlocked s.config.security (watched_request parts s r)
    pub no_redirect :
        (s.config.server.tls_enabled && s.config.security.enable_https_redirect) ≡ false
    pub at_root : parts.serve_mux (patterns parts s.config.observability) r.method r.path ≡ root
    pub matched : match s.router r.method r.path ≡ some route

  -- The request as the stages behind the input validation get it.
  abbrev pub validated_request : Server (World S B) → Request → Request
  validated_request s r =
      limit_body s.config.security.max_request_body_size (watched_request parts s r)

  validated-backend :
      (s : Server (World S B)) (r : Request) (route : Match) (w : World S B)
      → IsProxied s r route
      → (setup_router parts s r w).world.backend
        ≡ (inner parts s (validated_request s r) w).world.backend
  unfolding setup_router error_handling
  validated-backend s r route w ok =
      let passed =
        watched-backend parts s (input_validation s.config.security (inner parts s)) r w in
      let same =
        (input_validation_lem s.config.security (inner parts s) (watched_request parts s r) w).0
          ok.method ok.path ok.agent in
      let h =
        error_handling s.config.security
          (watched parts s (input_validation s.config.security (inner parts s))) in
      ap (λ b. (only_if b https_redirect h r w).world.backend) ok.no_redirect
      ∙ passed
      ∙ ap (λ (run : Run (World S B)). run.world.backend) same

  open-backend :
      (s : Server (World S B)) (r : Request) (route : Match) (w : World S B)
      → IsProxied s r route
      → s.auth_middleware ≡ none
      → s.rate_limiter ≡ false
      → (inner parts s (validated_request s r) w).world.backend
        ≡ (parts.forward route (validated_request s r) w.backend).1
  unfolding inner security
  open-backend s r route w ok no_auth no_limiter =
      let r' = validated_request s r in
      let (same_method, same_path) = limited_request-same parts s r in
      ap
        (λ a.
          (only_if (is_set a) (auth_stage parts) (limited parts s s.rate_limiter) r'
            w).world.backend)
        no_auth
      ∙ ap (λ b. (limited parts s b r' w).world.backend) no_limiter
      ∙ mux-forwards parts s r' w route
          (ap (λ m. parts.serve_mux (patterns parts s.config.observability) m r'.path) same_method
            ∙ ap (parts.serve_mux (patterns parts s.config.observability) r.method) same_path
            ∙ ok.at_root)
          (ap (λ m. match s.router m r'.path) same_method
            ∙ ap (match s.router r.method) same_path
            ∙ ok.matched)

-- The same configuration with the algorithm RS256.
abbrev pub with_rs256 : Config → Config
with_rs256 cfg = record cfg {
  authorization = record cfg.authorization { jwt_signing_algorithm = "RS256" };
}

authorization_same :
    (cfg : AuthorizationConfig)
    → Elem cfg.jwt_signing_algorithm es_algorithms
    → validate_authorization cfg
      ≡ validate_authorization (record cfg { jwt_signing_algorithm = "RS256" })
unfolding validate_authorization one_of
authorization_same cfg (inl e) = rw⁻¹ e refl
authorization_same cfg (inr (inl e)) = rw⁻¹ e refl
authorization_same cfg (inr (inr (inl e))) = rw⁻¹ e refl
authorization_same cfg (inr (inr (inr none_left))) = elim none_left [ ]

validate-es :
    (missing : String → Bool) (cfg : Config)
    → Elem cfg.authorization.jwt_signing_algorithm es_algorithms
    → validate missing cfg ≡ validate missing (with_rs256 cfg)
unfolding validate
validate-es missing cfg es =
    ap
      (λ e. and_then (validate_server missing cfg.server) (
        and_then (validate_logging cfg.logging) (
          and_then e
            (and_then (validate_rate_limit cfg.rate_limit) (validate_routes 0 cfg.routes)))))
      (authorization_same cfg.authorization es)

-- `Validate` does not tell ES256, ES384 and ES512 from RS256, but a server with one of them has no
-- authorization, whether or not its configuration enables it: where rate limiting is off and no
-- redirect to HTTPS is configured, every request that the input validation lets pass, that `ServeMux` serves
-- under "/" and that the router has a route for is forwarded, with whatever cookies and to whatever
-- route.
pub unauthenticated_lem :
    {S B : Type 0} (parts : Parts S B) (missing : String → Bool) (lib : RegexpLibrary)
    (redis : RateLimitConfig → Bool) (read_pem : String → Option Key) (extractor : ExtractorConfig)
    (ping : World S B → Option String) (cfg : Config) (health : Health.Manager (World S B))
    (r : Request) (route : Match) (w : World S B)
    → let s = new lib redis read_pem extractor ping cfg health in
      Elem cfg.authorization.jwt_signing_algorithm es_algorithms
      → cfg.rate_limit.enabled ≡ false
      → IsProxied parts s r route
      → (validate missing cfg ≡ validate missing (with_rs256 cfg))
        × ((setup_router parts s r w).world.backend
            ≡ (parts.forward route (validated_request parts s r) w.backend).1)
unfolding new
unauthenticated_lem parts missing lib redis read_pem extractor ping cfg health r route w es
      no_limits ok =
    let s = new lib redis read_pem extractor ping cfg health in
    (
      validate-es missing cfg es,
      validated-backend parts s r route w ok
          ∙ open-backend parts s r route w ok (auth_of-es read_pem cfg extractor es)
              (ap (λ b. if b then new_limiter redis cfg.rate_limit else false) no_limits),
    )
