-- ===== src/Server/Refused.antt =====
-- What a server with authorization answers.
use api_gateway_go.Base.{
  ℕ, ◌≡◌, refl, ap, sym, ◌∙◌, Bool, false, none, some, [], ◌∷◌, string_eq, bytes_eq, lookup,
  if◌then◌else◌, arith,
}
use mathlib.Core.Path.{subst}
use api_gateway_go.Http.Laws.{seen-status, seen-header}
use api_gateway_go.Config.{SecurityConfig}
use api_gateway_go.Context.{IsBuilt, get_correlation_id}
use api_gateway_go.Router.{Match}
use api_gateway_go.Auth.Handler
use api_gateway_go.Auth.Handler.{
  handle, Outcome, Components, is_health_check_path, internal_error, write_error,
}
use api_gateway_go.Auth.Handler.Laws.{handle_unrouted}
use api_gateway_go.Http.{Request, Run, Handler, seen, Seen, done}
use api_gateway_go.Middleware.Errors.{error_handling}
use api_gateway_go.Middleware.Errors.Laws.{error_handling_lem}
use api_gateway_go.Middleware.Security.{https_redirect}
use api_gateway_go.Middleware.Input.{input_validation, limit_body}
use api_gateway_go.Middleware.Input.Laws.{input_validation_lem}
use api_gateway_go.Server.{Server}
use api_gateway_go.Server.Stages.{auth_request, write_auth_error}
use api_gateway_go.Server.Reach.{watched_request, watched-backend}
use api_gateway_go.Server.Inner.{limited, limited_request-same}
use api_gateway_go.Server.Answers.{watched-status, watched-frame_options, watched-answer}
use api_gateway_go.Server.Laws.{IsProxied, validated_request}
use api_gateway_go.Server.Pipeline.{
  World, Parts, auth_stage, only_if, is_set, inner, watched, setup_router,
}

module _ {S B : Type 0} (parts : Parts S B) where
  -- The answer to a request without a route in its context.
  abbrev no_route_answer : Request → Handler.Response
  no_route_answer r = record {
    status = 500;
    error = "internal_error";
    message = "Internal server error";
    correlation_id = get_correlation_id r.context;
    path = r.path;
    details = Handler.no_details;
    headers =
        ("Content-Type", "application/json")
        ∷ ("X-Correlation-Id", get_correlation_id r.context)
        ∷ [];
  }

  inner-refuses :
      (s : Server (World S B)) (mw : Handler.Middleware) (m : Components) (r : Request)
      (w : World S B)
      → s.auth_middleware ≡ some mw
      → w.auth.components ≡ some m
      → IsBuilt r.context
      → is_health_check_path r.path ≡ false
      → inner parts s r w
        ≡ done (write_auth_error parts.encode_auth (no_route_answer r)) (record w {
          auth =
              (handle parts.jwt parts.revocation_service parts.readings w.auth (auth_request r)).1;
        })
  unfolding inner auth_stage handle internal_error write_error
  inner-refuses s mw m r w on built_in built no_check =
      let refused : (handle parts.jwt parts.revocation_service parts.readings w.auth
            (auth_request r)).0
          ≡ Outcome.respond (no_route_answer r) =
        handle_unrouted parts.jwt parts.revocation_service parts.readings w.auth m (auth_request r)
          built_in built
        ∙ ap (λ b. if b then Outcome.next r.context else internal_error (auth_request r))
            no_check in
      ap (λ a. only_if (is_set a) (auth_stage parts) (limited parts s s.rate_limiter) r w) on
      ∙ rw (auth_stage, refused) refl

  input-stays :
      (cfg : SecurityConfig) (next : Handler (World S B)) (r : Request) (w : World S B)
      → (next (limit_body cfg.max_request_body_size r) w).world.backend ≡ w.backend
      → (input_validation cfg next r w).world.backend ≡ w.backend
  unfolding input_validation
  input-stays cfg next r w same = ground (arith, same)

  redirect-stays :
      (b : Bool) (next : Handler (World S B)) (r : Request) (w : World S B)
      → (next r w).world.backend ≡ w.backend
      → (only_if b https_redirect next r w).world.backend ≡ w.backend
  unfolding https_redirect
  redirect-stays b next r w same = ground (arith, same)

limit_body-context : (n : ℕ) (r : Request) → (limit_body n r).context ≡ r.context
unfolding limit_body
limit_body-context n r = ground arith

module _ {S B : Type 0} (parts : Parts S B) where
  -- What the stages behind the input validation do with a request.
  validated-refuses :
      (s : Server (World S B)) (mw : Handler.Middleware) (m : Components) (r : Request)
      (w : World S B)
      → s.auth_middleware ≡ some mw
      → w.auth.components ≡ some m
      → IsBuilt (watched_request parts s r).context
      → is_health_check_path r.path ≡ false
      → let r2 = validated_request parts s r in
        inner parts s r2 w
        ≡ done (write_auth_error parts.encode_auth (no_route_answer parts r2)) (record w {
          auth =
              (handle parts.jwt parts.revocation_service parts.readings w.auth (auth_request r2)).1;
        })
  validated-refuses s mw m r w on built_in built no_check =
      let r1 = watched_request parts s r in
      let inside =
        subst IsBuilt (sym (limit_body-context s.config.security.max_request_body_size r1)) built in
      let no_page = ap is_health_check_path (limited_request-same parts s r).1 ∙ no_check in
      inner-refuses parts s mw m (validated_request parts s r) w on built_in inside no_page

-- A server with authorization forwards nothing: as long as the contexts are those that the gateway
-- and its libraries make, no request for a path other than those of the health checks and the metrics
-- reaches the backend.
pub forwards_nothing :
    {S B : Type 0} (parts : Parts S B) (s : Server (World S B)) (mw : Handler.Middleware)
    (m : Components) (r : Request) (w : World S B)
    → s.auth_middleware ≡ some mw
    → w.auth.components ≡ some m
    → IsBuilt (watched_request parts s r).context
    → is_health_check_path r.path ≡ false
    → (setup_router parts s r w).world.backend ≡ w.backend
unfolding setup_router error_handling
forwards_nothing parts s mw m r w on built_in built no_check =
    let r1 = watched_request parts s r in
    let refused = validated-refuses parts s mw m r w on built_in built no_check in
    let validated = input_validation s.config.security (inner parts s) in
    let guarded = error_handling s.config.security (watched parts s validated) in
    redirect-stays parts _ guarded r w (
      watched-backend parts s validated r w
      ∙ input-stays parts s.config.security (inner parts s) r1 w
          (ap (λ (run : Run _). run.world.backend) refused))

-- A server with authorization answers a request that the input validation lets pass, that `ServeMux`
-- would serve under "/" and that the router has a route for with status 500, where no redirect to
-- HTTPS is configured, the path is none of the health checks and the metrics, and the contexts are
-- those that the gateway and its libraries make. Nothing reaches the backend. The answer lacks the frame options that the
-- configuration asks for, since the security headers stand behind the authorization.
pub blocked_lem :
    {S B : Type 0} (parts : Parts S B) (s : Server (World S B)) (mw : Handler.Middleware)
    (m : Components) (r : Request) (route : Match) (w : World S B)
    → s.auth_middleware ≡ some mw
    → w.auth.components ≡ some m
    → IsBuilt (watched_request parts s r).context
    → is_health_check_path r.path ≡ false
    → IsProxied parts s r route
    → let run = setup_router parts s r w in
      let answer = seen run.actions in
      (run.world.backend ≡ w.backend)
      × (answer.status ≡ 500)
      × (lookup "X-Frame-Options" answer.headers ≡ none)
unfolding setup_router error_handling write_auth_error
blocked_lem parts s mw m r route w on built_in built no_check ok =
    let r1 = watched_request parts s r in
    let r2 = validated_request parts s r in
    let validated = input_validation s.config.security (inner parts s) in
    let guarded = error_handling s.config.security (watched parts s validated) in
    let same =
      (input_validation_lem s.config.security (inner parts s) r1 w).0 ok.method ok.path ok.agent
      ∙ validated-refuses parts s mw m r w on built_in built no_check in
    let (_, _, _, ending) = watched-answer parts s validated r w in
    let ended = ending ∙ ap (λ (run : Run _). run.ending) same in
    let answer =
      ap (λ b. seen (only_if b https_redirect guarded r w).actions) ok.no_redirect
      ∙ (error_handling_lem s.config.security (watched parts s validated) r w).2 ended in
    (
      forwards_nothing parts s mw m r w on built_in built no_check,
      ap (λ (x : Seen). x.status) answer
          ∙ watched-status parts s validated r w
          ∙ ap (λ (run : Run _). (seen run.actions).status) same
          ∙ seen-status (write_auth_error parts.encode_auth (no_route_answer parts r2)),
      ap (λ (x : Seen). lookup "X-Frame-Options" x.headers) answer
          ∙ watched-frame_options parts s validated r w
          ∙ ap (λ (run : Run _). lookup "X-Frame-Options" (seen run.actions).headers) same
          ∙ seen-header "X-Frame-Options"
              (write_auth_error parts.encode_auth (no_route_answer parts r2)),
    )
