-- ===== src/Server/Gates.antt =====
-- What a request has passed when the backend is reached.
use api_gateway_go.Base.{◌≡◌, ◌≢◌, ◌⊎◌, ap, ◌∙◌, false, none, some, string_eq, bytes_eq}
use api_gateway_go.Context.{Context}
use api_gateway_go.Router.{Match, match}
use api_gateway_go.Auth.Handler.{handle, Outcome}
use api_gateway_go.RateLimit.Middleware
use api_gateway_go.RateLimit.Middleware.{rate_limit, no_headers}
use api_gateway_go.Http.{Request, Run}
use api_gateway_go.Middleware.Input.{limit_body}
use api_gateway_go.Middleware.Input.Laws.{IsMethodAllowed, IsPathShort, IsAgentBlocked}
use api_gateway_go.Server.{Server}
use api_gateway_go.Server.Stages.{auth_request, limit_request}
use api_gateway_go.Server.Reach.{watched_request, input-reach, guarded-backend}
use api_gateway_go.Server.Inner.{inner-reach, limited_request-same}
use api_gateway_go.Server.Pipeline.{World, Parts, inner, setup_router}

module _ {S B : Type 0} (parts : Parts S B) where
  -- A request that has passed every stage of the server; `request` is what the backend's proxy gets.
  pub record IsPassed (s : Server (World S B)) (r : Request) (w : World S B) (backend : B)
      : Type 0 where
    pub ctx : Context
    pub headers : Middleware.Headers
    pub route : Match
    pub method : IsMethodAllowed s.config.security (watched_request parts s r)
    pub path : IsPathShort s.config.security (watched_request parts s r)
    pub agent : ¬ IsAgentBlocked s.config.security (watched_request parts s r)
    pub authorized :
        let r' = limit_body s.config.security.max_request_body_size (watched_request parts s r) in
        ((s.auth_middleware ≡ none) × (ctx ≡ r'.context))
        ⊎ ((handle parts.jwt parts.revocation_service parts.readings w.auth (auth_request r')).0
            ≡ Outcome.next ctx)
    pub limited :
        let r' = limit_body s.config.security.max_request_body_size (watched_request parts s r) in
        (s.rate_limiter ≡ false)
        ⊎ ((rate_limit parts.float parts.limits parts.parse_duration s.config.rate_limit
              s.config.routes parts.now
              (limit_request (record r' { context = ctx }))
              w.storage).0
            ≡ Middleware.Outcome.next headers)
    pub matched : match s.router r.method r.path ≡ some route
    pub forwarded :
        let r' = limit_body s.config.security.max_request_body_size (watched_request parts s r) in
        backend ≡ (parts.forward route (record r' { context = ctx }) w.backend).1

-- A request changes the backend's state only after every stage has let it pass: its method, its path
-- and its user agent are allowed; the authorization, where the server has one, has called the next
-- handler; the limits, where the server has a limiter, are kept, counted for the user that the
-- authorization has found; and the router has a route for it. Then the change is the one that the
-- proxy makes for that route and that request.
pub setup_router-IsPassed :
    {S B : Type 0} (parts : Parts S B) (s : Server (World S B)) (r : Request) (w : World S B)
    → let after = (setup_router parts s r w).world.backend in
      after ≢ w.backend → IsPassed parts s r w after
unfolding inner
setup_router-IsPassed parts s r w moved =
    let passed = guarded-backend parts s r w moved in
    let r1 = watched_request parts s r in
    let (method, path, agent, validated) =
      input-reach parts s.config.security (inner parts s) r1 w (λ e. moved (passed ∙ e)) in
    let through = passed ∙ ap (λ (run : Run _). run.world.backend) validated in
    let r2 = limit_body s.config.security.max_request_body_size r1 in
    let (ctx, h, m, authorized, on, found, reached) =
      inner-reach parts s s.auth_middleware r2 w (λ e. moved (through ∙ e)) in
    let (same_method, same_path) = limited_request-same parts s r in
    record {
      ctx = ctx;
      headers = h;
      route = m;
      method = method;
      path = path;
      agent = agent;
      authorized = authorized;
      limited = on;
      matched = rw (same_method, same_path) at found;
      forwarded = through ∙ reached;
    }
