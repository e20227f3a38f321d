-- ===== src/Server/Reach.antt =====
-- What each stage of the server has let pass when the backend is reached.
use api_gateway_go.Base.{
  ◌≡◌, ◌≢◌, ◌⊎◌, inl, inr, refl, ap, Option, some, Option-cases, Bytes, string_eq, bytes_eq,
  if◌then◌else◌, arith,
}
use api_gateway_go.Config.{Config, SecurityConfig, LimitDefinition}
use api_gateway_go.Context.{Context, with_correlation_id}
use api_gateway_go.Router.{Match, match}
use api_gateway_go.Auth.Handler
use api_gateway_go.Auth.Handler.{handle, Outcome}
use api_gateway_go.RateLimit.Middleware
use api_gateway_go.RateLimit.Limiter.{Result}
use api_gateway_go.RateLimit.Middleware.{rate_limit, no_headers}
use api_gateway_go.Health.{health_handler, readiness_handler, liveness_handler}
use api_gateway_go.Http.{Request, Handler}
use api_gateway_go.Middleware.Security.{https_redirect}
use api_gateway_go.Middleware.Input.{input_validation, limit_body}
use api_gateway_go.Middleware.Input.Laws.{
  IsMethodAllowed, IsPathShort, IsAgentBlocked, method_refused_iff, path_refused_iff,
  agent_refused_iff,
}
use api_gateway_go.Middleware.Errors.{error_handling}
use api_gateway_go.Middleware.Correlation.{correlation_id, id_of}
use api_gateway_go.Middleware.Observe.{logging, metrics, tracing}
use api_gateway_go.Server.{Server}
use api_gateway_go.Server.Stages.{auth_request, limit_request}
use api_gateway_go.Server.Pipeline.{
  World, Parts, Served, page, root, cleaned, Forwarded, ForwardEnd, sent, failed, broke,
  answer_forwarded, default_handler, mux, auth_stage, limit_stage, inner, watched, setup_router,
  patterns,
}

pub limit-cases :
    (o : Middleware.Outcome)
    → ((h : Middleware.Headers) × (o ≡ Middleware.Outcome.next h))
      ⊎ ((h : Middleware.Headers) × (def : LimitDefinition) × (result : Option Result) × (o
            ≡ Middleware.Outcome.too_many_requests h def result))
limit-cases (Middleware.Outcome.next h) = inl (h, refl)
limit-cases (Middleware.Outcome.too_many_requests h def result) = inr (h, def, result, refl)

pub auth-cases :
    (o : Outcome)
    → ((ctx : Context) × (o ≡ Outcome.next ctx))
      ⊎ ((answer : Handler.Response) × (o ≡ Outcome.respond answer))
auth-cases (Outcome.next ctx) = inl (ctx, refl)
auth-cases (Outcome.respond answer) = inr (answer, refl)

Served-cases : (v : Served) → (v ≡ root) ⊎ ((v ≡ cleaned) ⊎ ((p : Bytes) × (v ≡ page p)))
Served-cases root = inl refl
Served-cases cleaned = inr (inl refl)
Served-cases (page p) = inr (inr (p, refl))

module _ {S B : Type 0} (parts : Parts S B) where
  pub answer-backend :
      (f : Forwarded) (url : Bytes) (r : Request) (w : World S B)
      → (answer_forwarded parts f.actions f.end url r w).world ≡ w
  unfolding answer_forwarded
  answer-backend f url r w = go f.end
    where
      go : (e : ForwardEnd) → (answer_forwarded parts f.actions e url r w).world ≡ w
      go sent = refl
      go (failed e) = refl
      go (broke p) = refl

  -- The default handler forwards a request to its route, and nothing else reaches the backend.
  pub default_handler-reach :
      (s : Server (World S B)) (r : Request) (w : World S B)
      → (default_handler parts s r w).world.backend ≢ w.backend
      → (m : Match) × (match s.router r.method r.path ≡ some m)
        × ((default_handler parts s r w).world.backend ≡ (parts.forward m r w.backend).1)
  unfolding default_handler
  default_handler-reach s r w moved = elim (Option-cases (match s.router r.method r.path)) [
    | inl missing ↦ absurd (moved (rw (default_handler, missing) refl))
    | inr (m, found) ↦ (
      m,
      found,
      rw (default_handler, found)
          (ap (λ (w' : World S B). w'.backend)
            (answer-backend (parts.forward m r w.backend).0 _ r _)),
    )
  ]

  pub mux-default :
      (s : Server (World S B)) (r : Request) (w : World S B)
      → (mux parts s r w).world.backend ≢ w.backend
      → (mux parts s r w ≡ default_handler parts s r w)
  unfolding mux health_handler readiness_handler liveness_handler
  mux-default s r w moved =
      elim (Served-cases
        (parts.serve_mux (patterns parts s.config.observability) r.method r.path)) [
          | inl rest ↦ rw (mux, rest) refl
          | inr (inl tidied) ↦ absurd (ground arith)
          | inr (inr (pattern, own)) ↦ absurd (ground arith)
        ]

  pub limit-reach :
      (cfg : Config) (next : Handler (World S B)) (r : Request) (w : World S B)
      → (limit_stage parts cfg next r w).world.backend ≢ w.backend
      → let (outcome, storage') =
          rate_limit parts.float parts.limits parts.parse_duration cfg.rate_limit cfg.routes
            parts.now
            (limit_request r)
            w.storage in
        (h : Middleware.Headers) × (outcome ≡ Middleware.Outcome.next h)
        × ((limit_stage parts cfg next r w).world
            ≡ (next r (record w { storage = storage' })).world)
  unfolding limit_stage rate_limit
  limit-reach cfg next r w moved =
      elim (limit-cases
        (rate_limit parts.float parts.limits parts.parse_duration cfg.rate_limit cfg.routes
          parts.now (limit_request r) w.storage).0) [
            | inl (h, on) ↦ (h, on, rw (limit_stage, on) refl)
            | inr (h, def, result, over) ↦ absurd (moved (rw (limit_stage, over) refl))
          ]

  pub auth-reach :
      (next : Handler (World S B)) (r : Request) (w : World S B)
      → (auth_stage parts next r w).world.backend ≢ w.backend
      → let (outcome, auth') =
          handle parts.jwt parts.revocation_service parts.readings w.auth (auth_request r) in
        (ctx : Context) × (outcome ≡ Outcome.next ctx)
        × ((auth_stage parts next r w).world
            ≡ (next (record r { context = ctx }) (record w { auth = auth' })).world)
  unfolding auth_stage handle
  auth-reach next r w moved =
      elim (auth-cases
        (handle parts.jwt parts.revocation_service parts.readings w.auth (auth_request r)).0) [
          | inl (ctx, on) ↦ (ctx, on, rw (auth_stage, on) refl)
          | inr (answer, refused) ↦ absurd (moved (rw (auth_stage, refused) refl))
        ]

  -- The request as the input validation gets it.
  abbrev pub watched_request : Server (World S B) → Request → Request
  watched_request s r =
      let r' = record r { context = with_correlation_id (id_of parts.generated_id r) r.context } in
      if s.config.observability.tracing_enabled then record r' { context = parts.traced r' } else r'

  pub watched-backend :
      (s : Server (World S B)) (next : Handler (World S B)) (r : Request) (w : World S B)
      → (watched parts s next r w).world.backend ≡ (next (watched_request s r) w).world.backend
  unfolding watched correlation_id logging metrics tracing
  watched-backend s next r w = ground arith

  pub input-reach :
      (cfg : SecurityConfig) (next : Handler (World S B)) (r : Request) (w : World S B)
      → (input_validation cfg next r w).world.backend ≢ w.backend
      → IsMethodAllowed cfg r
        × IsPathShort cfg r
        × (¬ IsAgentBlocked cfg r)
        × (input_validation cfg next r w ≡ next (limit_body cfg.max_request_body_size r) w)
  unfolding input_validation
  input-reach cfg next r w moved =
      ground
        (arith, moved, method_refused_iff cfg r, path_refused_iff cfg r, agent_refused_iff cfg r)

  pub guarded-backend :
      (s : Server (World S B)) (r : Request) (w : World S B)
      → (setup_router parts s r w).world.backend ≢ w.backend
      → (setup_router parts s r w).world.backend
        ≡ (input_validation s.config.security (inner parts s) (watched_request s r) w).world.backend
  unfolding setup_router error_handling https_redirect
  guarded-backend s r w moved =
      ground
        (arith, moved, watched-backend s (input_validation s.config.security (inner parts s)) r w)
