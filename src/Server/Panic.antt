-- ===== src/Server/Panic.antt =====
-- What a server whose handler panics answers.
use api_gateway_go.Base.{
  ◌≡◌, ◌≢◌, refl, ap, ◌∙◌, ◌||◌, String, List, [], ◌∷◌, string_eq, lookup, lookup-insert_ne, insert,
  some,
}
use api_gateway_go.Config.{SecurityConfig}
use api_gateway_go.Context.{get_correlation_id, with_correlation_id}
use api_gateway_go.Http.{
  Request, Action, set_header, add_header, write_header, write, Handler, panicked, seen, Seen, json,
  answer, act, Reply, no_reply,
}
use api_gateway_go.Middleware.Correlation.{correlation_id, id_of}
use api_gateway_go.Middleware.Errors.{error_handling, build_error_response}
use api_gateway_go.Middleware.Errors.Laws.{error_handling_lem}

-- Header calls that leave the header with the correlation id as it is.
abbrev pub OnlyOtherHeaders : List Action → Type 0
OnlyOtherHeaders [] = Unit
OnlyOtherHeaders (set_header name v ∷ actions) =
    (name ≢ "X-Correlation-Id") × OnlyOtherHeaders actions
OnlyOtherHeaders (add_header name v ∷ actions) =
    (name ≢ "X-Correlation-Id") × OnlyOtherHeaders actions
OnlyOtherHeaders (write_header status ∷ actions) = ⊥
OnlyOtherHeaders (write chunk ∷ actions) = ⊥

other_headers :
    (actions : List Action) (reply : Reply)
    → OnlyOtherHeaders actions
    → let reply' = answer actions reply in
      (reply'.sent ≡ reply.sent)
      × (reply'.body ≡ reply.body)
      × (lookup "X-Correlation-Id" reply'.headers ≡ lookup "X-Correlation-Id" reply.headers)
unfolding answer act
other_headers [] reply only = (refl, refl, refl)
other_headers (set_header name v ∷ actions) reply only =
    let (sent, body, id) = other_headers actions (act (set_header name v) reply) only.1 in
    (sent, body, id ∙ lookup-insert_ne name "X-Correlation-Id" (v ∷ []) reply.headers only.0)
other_headers (add_header name v ∷ actions) reply only =
    let (sent, body, id) = other_headers actions (act (add_header name v) reply) only.1 in
    (sent, body, id ∙ lookup-insert_ne name "X-Correlation-Id" _ reply.headers only.0)
other_headers (write_header status ∷ actions) reply only = elim only [ ]
other_headers (write chunk ∷ actions) reply only = elim only [ ]

-- The answer to a panic has no correlation id, though the request got one: the error handling stands
-- around the middleware that makes it, and reads the context from before, where there is none. A handler that panics
-- before its answer starts, having at most set headers other than X-Correlation-ID, gets status 500
-- and an object with the empty id, under the header with the id that it has read in its own context.
pub panic_id_lem :
    {W : Type 0} (cfg : SecurityConfig) (generated panic : String) (next : Handler W) (r : Request)
    (w : W)
    → let id = id_of generated r in
      let run = next (record r { context = with_correlation_id id r.context }) w in
      let answer = seen (error_handling cfg (correlation_id generated next) r w).actions in
      get_correlation_id r.context ≡ ""
      → run.ending ≡ panicked panic
      → OnlyOtherHeaders run.actions
      → (answer.status ≡ 500)
        × (answer.body
            ≡ json (
                build_error_response "internal_server_error" "An unexpected error occurred" ""
                  (cfg.production_mode || cfg.hide_internal_errors)
                  panic)
              ∷ [])
        × (lookup "X-Correlation-Id" answer.headers ≡ some (id ∷ []))
unfolding correlation_id answer act lookup insert
panic_id_lem cfg generated panic next r w no_id broke only =
    let id = id_of generated r in
    let run = next (record r { context = with_correlation_id id r.context }) w in
    let shown = (error_handling_lem cfg (correlation_id generated next) r w).3 panic broke in
    let started = act (set_header "X-Correlation-Id" id) no_reply in
    let (sent, body, header) = other_headers run.actions started only in
    let same = rw (no_id, sent, body) at shown in
    (
      ap (λ (x : Seen). x.status) same,
      ap (λ (x : Seen). x.body) same,
      ap (λ (x : Seen). lookup "X-Correlation-Id" x.headers) same
          ∙ lookup-insert_ne {K = String} "Content-Type" "X-Correlation-Id"
              ("application/json" ∷ []) (answer run.actions started).headers (λ e. cc e)
          ∙ header,
    )
