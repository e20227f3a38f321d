-- ===== src/Server/Pipeline.antt =====
-- `setupRouter` and `defaultHandler` of internal/server/server.go: the handler of a server, for one
-- request. `World` is what the middlewares and the backend keep between requests; the records of
-- logs, metrics and spans are a list, the newest first.
use api_gateway_go.Base.{
  ℕ, Bool, true, false, ◌&&◌, Option, none, some, String, List, [], ◌∷◌, ◌++◌, Bytes, codes, ◌==◌,
  string_eq, bytes_eq, if◌then◌else◌,
}
use api_gateway_go.Config.{Config, LimitDefinition, ObservabilityConfig}
use api_gateway_go.Context.{Context, get_correlation_id}
use api_gateway_go.Router.{Match, match}
use api_gateway_go.Auth.Handler
use api_gateway_go.Auth.Handler.{handle, Readings, Outcome}
use api_gateway_go.Auth.Jwt.{JwtLibrary}
use api_gateway_go.Auth.Revocation.{HttpResult}
use api_gateway_go.RateLimit.Float64.{Float64}
use api_gateway_go.RateLimit.Limiter.{Storage, Result}
use api_gateway_go.RateLimit.Middleware
use api_gateway_go.RateLimit.Middleware.{rate_limit}
use api_gateway_go.Health.{health_handler, readiness_handler, liveness_handler}
use api_gateway_go.Http
use api_gateway_go.Http.{
  Request, Action, set_header, write_header, write, Chunk, json, text, bytes, Handler, panicked,
  Run, before, done,
}
use api_gateway_go.Middleware.Security.{security, https_redirect, new_security_config_from_config}
use api_gateway_go.Middleware.Input.{input_validation}
use api_gateway_go.Middleware.Errors.{error_handling}
use api_gateway_go.Middleware.Correlation.{correlation_id}
use api_gateway_go.Middleware.Observe.{Level, logging, metrics, tracing}
use api_gateway_go.Server.{Server}
use api_gateway_go.Server.Stages.{
  auth_request, write_auth_error, limit_request, limit_headers, write_limit_error,
}

pub data Report : Type 0 where
  logged : Level → ℕ → ℕ → Report
  counted : ℕ → ℕ → Report
  span : ℕ → Report

pub record World (S B : Type 0) : Type 0 where
  pub auth : Handler.Middleware
  pub storage : S
  pub backend : B
  pub reports : List Report

-- How `proxy.Forward` ends: without an error, with the text of one, or in a panic.
pub data ForwardEnd : Type 0 where
  sent : ForwardEnd
  failed : Bytes → ForwardEnd
  broke : String → ForwardEnd

-- What it has written by then.
pub record Forwarded : Type 0 where
  pub actions : List Action
  pub end : ForwardEnd

-- What `ServeMux` does with a request: it serves it under the pattern of a page or under "/", or
-- redirects it to the cleaned path.
pub data Served : Type 0 where
  page : Bytes → Served
  root cleaned : Served

-- The parts that the handler is built from: the libraries, and for one request the readings of the
-- clock, the id and the answers of the services. `serve_mux` is what `ServeMux` does with a method
-- and a path, and `clean_url` where it redirects a request.
pub record Parts (S B : Type 0) : Type 1 where
  pub jwt : JwtLibrary
  pub revocation_service : String → HttpResult
  pub readings : Readings
  pub float : Float64
  pub limits : Storage float.F S
  pub parse_duration : String → Option ℕ
  pub now : ℕ
  pub timestamp : String
  pub generated_id : String
  pub traced : Request → Context
  pub accepted : Chunk → ℕ
  pub serve_mux : List Bytes → Bytes → Bytes → Served
  pub clean_url : Request → String
  pub forward : Match → Request → B → Forwarded × B
  pub metrics_page : List Action
  pub encode_auth : Handler.Response → Chunk
  pub encode_limit : Request → LimitDefinition → Option Result → Chunk

abbrev not_found : Request → List Action
not_found r =
    set_header "Content-Type" "application/json"
    ∷ write_header 404
    ∷ write (
        json (
          ("error", text "not_found")
          ∷ ("message", text "No route found for the requested path")
          ∷ ("correlation_id", text (get_correlation_id r.context))
          ∷ ("path", bytes r.path)
          ∷ ("method", bytes r.method)
          ∷ []))
    ∷ []

abbrev pub circuit_open : Bytes → Bytes
circuit_open url = codes "circuit breaker open for backend " ++ url

unfoldable pub gateway_error : Bytes → Bytes → Request → List Action
gateway_error error url r =
    set_header "Content-Type" "application/json"
    ∷ write_header (if error == circuit_open url then 503 else 502)
    ∷ write (
        json (
          ("error", text "gateway_error")
          ∷ ("message", text "Failed to forward request to backend service")
          ∷ ("correlation_id", text (get_correlation_id r.context))
          ∷ []))
    ∷ []

abbrev pub only_if : {W : Type 0} → Bool → Http.Middleware W → Http.Middleware W
only_if test m h = if test then m h else h

abbrev pub is_set : {A : Type 0} → Option A → Bool
is_set none = false
is_set (some a) = true

module _ {S B : Type 0} (parts : Parts S B) where
  -- The answer once the request is forwarded.
  unfoldable pub answer_forwarded :
      List Action → ForwardEnd → Bytes → Request → World S B → Run (World S B)
  answer_forwarded actions sent url r w = done actions w
  answer_forwarded actions (failed error) url r w = done (actions ++ gateway_error error url r) w
  answer_forwarded actions (broke panic) url r w = record {
    actions = actions;
    ending = panicked panic;
    world = w;
  }

  -- `defaultHandler`
  unfoldable pub default_handler : Server (World S B) → Handler (World S B)
  default_handler s r w = elim (match s.router r.method r.path) [
    | none ↦ done (not_found r) w
    | some m ↦
        let (f, backend') = parts.forward m r w.backend in
        answer_forwarded f.actions f.end m.route.backend_url r (record w { backend = backend' })
  ]

  -- The patterns that are registered beside "/".
  abbrev pub patterns : ObservabilityConfig → List Bytes
  patterns o =
      o.health_path
      ∷ o.readiness_path
      ∷ o.liveness_path
      ∷ (if o.metrics_enabled then o.metrics_path ∷ [] else [])

  -- The `ServeMux` of `setupRouter`.
  unfoldable pub mux : Server (World S B) → Handler (World S B)
  unfolding default_handler
  mux s r w =
      let o = s.config.observability in
      elim (parts.serve_mux (patterns o) r.method r.path) [
        | root ↦ default_handler s r w
        | cleaned ↦ done (set_header "Location" (parts.clean_url r) ∷ write_header 301 ∷ []) w
        | page pattern ↦
            if pattern == o.health_path
            then health_handler parts.timestamp s.health_manager r w
            else if pattern == o.readiness_path
            then readiness_handler parts.timestamp s.health_manager r w
            else if pattern == o.liveness_path
            then liveness_handler parts.timestamp r w
            else done parts.metrics_page w
      ]

  -- `auth.Middleware.Handler` around a handler.
  unfoldable pub auth_stage : Http.Middleware (World S B)
  auth_stage next r w =
      let (outcome, auth') =
        handle parts.jwt parts.revocation_service parts.readings w.auth (auth_request r) in
      let w' = record w { auth = auth' } in
      elim outcome [
        | Outcome.next ctx ↦ next (record r { context = ctx }) w'
        | Outcome.respond answer ↦ done (write_auth_error parts.encode_auth answer) w'
      ]

  -- `ratelimit.Middleware` around a handler.
  unfoldable pub limit_stage : Config → Http.Middleware (World S B)
  limit_stage cfg next r w =
      let (outcome, storage') =
        rate_limit parts.float parts.limits parts.parse_duration cfg.rate_limit cfg.routes parts.now
          (limit_request r) w.storage in
      let w' = record w { storage = storage' } in
      elim outcome [
        | Middleware.Outcome.next h ↦ before (limit_headers h) (next r w')
        | Middleware.Outcome.too_many_requests h limit_def result ↦
            done (write_limit_error (parts.encode_limit r) h limit_def result) w'
      ]

  abbrev pub log_to : Level → ℕ → ℕ → World S B → World S B
  log_to level status size w = record w { reports = logged level status size ∷ w.reports }

  abbrev pub count_in : ℕ → ℕ → World S B → World S B
  count_in status size w = record w { reports = counted status size ∷ w.reports }

  abbrev pub span_in : ℕ → World S B → World S B
  span_in status w = record w { reports = span status ∷ w.reports }

  -- What runs behind the input validation.
  unfoldable pub inner : Server (World S B) → Handler (World S B)
  unfolding mux auth_stage limit_stage
  inner s =
      let h1 = security (new_security_config_from_config s.config) (mux s) in
      let h2 = only_if s.rate_limiter (limit_stage s.config) h1 in
      only_if (is_set s.auth_middleware) auth_stage h2

  -- The middlewares that watch, with the context of the request.
  unfoldable pub watched : Server (World S B) → Http.Middleware (World S B)
  watched s h =
      let o = s.config.observability in
      let h1 = logging parts.accepted log_to h in
      let h2 = only_if o.metrics_enabled (metrics parts.accepted count_in) h1 in
      let h3 = only_if o.tracing_enabled (tracing parts.accepted parts.traced span_in) h2 in
      correlation_id parts.generated_id h3

  -- The handler that `setupRouter` returns.
  unfoldable pub setup_router : Server (World S B) → Handler (World S B)
  unfolding inner watched
  setup_router s =
      let cfg = s.config in
      let h1 = watched s (input_validation cfg.security (inner s)) in
      let h2 = error_handling cfg.security h1 in
      only_if (cfg.server.tls_enabled && cfg.security.enable_https_redirect) https_redirect h2
