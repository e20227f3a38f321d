-- ===== src/Server/Inner.antt =====
-- What the stages behind the input validation have let pass when the backend is reached.
use api_gateway_go.Base.{
  ◌≡◌, ◌≢◌, ◌⊎◌, inl, inr, refl, ap, ◌∙◌, Bool, true, false, Option, none, some, string_eq,
  bytes_eq, arith,
}
use api_gateway_go.Context.{Context}
use api_gateway_go.Router.{Match, match}
use api_gateway_go.Auth.Handler
use api_gateway_go.Auth.Handler.{handle, Outcome}
use api_gateway_go.RateLimit.Middleware
use api_gateway_go.RateLimit.Middleware.{rate_limit, no_headers}
use api_gateway_go.Http.{Request, Run, Handler}
use api_gateway_go.Middleware.Security.{security, new_security_config_from_config}
use api_gateway_go.Middleware.Input.{limit_body}
use api_gateway_go.Server.{Server}
use api_gateway_go.Server.Stages.{auth_request, limit_request}
use api_gateway_go.Server.Pipeline.{
  World, Parts, root, default_handler, mux, auth_stage, limit_stage, only_if, is_set, patterns,
}
use api_gateway_go.Server.Reach.{
  answer-backend, default_handler-reach, mux-default, limit-reach, auth-reach, watched_request,
}

module _ {S B : Type 0} (parts : Parts S B) where
  pub mux-reach :
      (s : Server (World S B)) (r : Request) (w : World S B)
      → (mux parts s r w).world.backend ≢ w.backend
      → (m : Match) × (match s.router r.method r.path ≡ some m)
        × ((mux parts s r w).world.backend ≡ (parts.forward m r w.backend).1)
  mux-reach s r w moved =
      let same = mux-default parts s r w moved in
      let (m, found, reached) =
        default_handler-reach parts s r w (λ e. moved (ap backend_of same ∙ e)) in
      (m, found, ap backend_of same ∙ reached)
    where
      backend_of : Run (World S B) → B
      backend_of run = run.world.backend

  -- What stands behind the authorization, with or without a limiter.
  abbrev pub limited : Server (World S B) → Bool → Handler (World S B)
  limited s b =
      only_if b (limit_stage parts s.config)
        (security (new_security_config_from_config s.config) (mux parts s))

  pub limited-reach :
      (s : Server (World S B)) (b : Bool) (r : Request) (w : World S B)
      → (limited s b r w).world.backend ≢ w.backend
      → (h : Middleware.Headers) × (m : Match) × ((b ≡ false)
          ⊎ ((rate_limit parts.float parts.limits parts.parse_duration s.config.rate_limit
                s.config.routes parts.now
                (limit_request r)
                w.storage).0
              ≡ Middleware.Outcome.next h))
        × (match s.router r.method r.path ≡ some m)
        × ((limited s b r w).world.backend ≡ (parts.forward m r w.backend).1)
  unfolding security
  limited-reach s false r w moved =
      let (m, found, reached) = mux-reach s r w moved in (no_headers, m, inl refl, found, reached)
  limited-reach s true r w moved =
      let (h, on, same) =
        limit-reach parts s.config
          (security (new_security_config_from_config s.config) (mux parts s)) r w moved in
      let (m, found, reached) =
        mux-reach s r _ (λ e. moved (ap (λ (w' : World S B). w'.backend) same ∙ e)) in
      (h, m, inr on, found, ap (λ (w' : World S B). w'.backend) same ∙ reached)

  pub inner-reach :
      (s : Server (World S B)) (a : Option Handler.Middleware) (r : Request) (w : World S B)
      → let run = only_if (is_set a) (auth_stage parts) (limited s s.rate_limiter) r w in
        run.world.backend ≢ w.backend
        → (ctx : Context) × (h : Middleware.Headers) × (m : Match) × (((a ≡ none)
              × (ctx ≡ r.context))
            ⊎ ((handle parts.jwt parts.revocation_service parts.readings w.auth (auth_request r)).0
                ≡ Outcome.next ctx))
          × ((s.rate_limiter ≡ false)
              ⊎ ((rate_limit parts.float parts.limits parts.parse_duration s.config.rate_limit
                    s.config.routes parts.now
                    (limit_request (record r { context = ctx }))
                    w.storage).0
                  ≡ Middleware.Outcome.next h))
          × (match s.router r.method r.path ≡ some m)
          × (run.world.backend ≡ (parts.forward m (record r { context = ctx }) w.backend).1)
  inner-reach s none r w moved =
      let (h, m, on, found, reached) = limited-reach s s.rate_limiter r w moved in
      (r.context, h, m, inl (refl, refl), on, found, reached)
  inner-reach s (some mw) r w moved =
      let backend_of = λ (w' : World S B). w'.backend in
      let (ctx, on, same) = auth-reach parts (limited s s.rate_limiter) r w moved in
      let (h, m, on', found, reached) =
        limited-reach s s.rate_limiter (record r { context = ctx }) _
          (λ e. moved (ap backend_of same ∙ e)) in
      (ctx, h, m, inr on, on', found, ap backend_of same ∙ reached)

  pub limited_request-same :
      (s : Server (World S B)) (r : Request)
      → let r' = limit_body s.config.security.max_request_body_size (watched_request parts s r) in
        (r'.method ≡ r.method) × (r'.path ≡ r.path)
  unfolding limit_body
  limited_request-same s r = ground arith

  pub mux-forwards :
      (s : Server (World S B)) (r : Request) (w : World S B) (m : Match)
      → parts.serve_mux (patterns parts s.config.observability) r.method r.path ≡ root
      → match s.router r.method r.path ≡ some m
      → (mux parts s r w).world.backend ≡ (parts.forward m r w.backend).1
  unfolding mux default_handler
  mux-forwards s r w m no_page found =
      rw (mux, no_page, default_handler, found)
        (ap (λ (w' : World S B). w'.backend)
          (answer-backend parts (parts.forward m r w.backend).0 m.route.backend_url r _))
