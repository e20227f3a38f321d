-- ===== src/Middleware/Errors/Laws.antt =====
-- What a client sees of a handler that panics.
use api_gateway_go.Base.{
  ℕ, ◌≡◌, ◌⊎◌, refl, ap, ◌∙◌, true, ◌||◌, Option, none, some, String, List, [], ◌∷◌, ◌++◌, insert,
  string_eq, arith, if◌then◌else◌,
}
use api_gateway_go.Config.{SecurityConfig}
use api_gateway_go.Context.{get_correlation_id}
use api_gateway_go.Http.{
  Headers, Request, Action, json, Ending, returned, panicked, Handler, Reply, no_reply, act, answer,
  Seen, seen_of, seen,
}
use api_gateway_go.Http.Laws.{answer-append}
use api_gateway_go.Middleware.Writer.{ErrorWriter, new_error_writer, pass_all}
use api_gateway_go.Middleware.Writer.Laws.{Records, pass_all_lem}
use api_gateway_go.Middleware.Errors.{
  build_error_response, panic_response, recover, error_handling, sanitize_error, write_json_error,
}

-- What the client gets when a handler has panicked, given the response so far: that response if it
-- has started, and else status 500 with the gateway's own object.
abbrev pub after_panic : SecurityConfig → String → String → Reply → Option (ℕ × Headers) → Seen
after_panic cfg id panic reply (some (status, headers)) = record {
  status = status;
  headers = headers;
  body = reply.body;
}
after_panic cfg id panic reply none = record {
  status = 500;
  headers = insert "Content-Type" ("application/json" ∷ []) reply.headers;
  body =
      reply.body
      ++ (json (
            build_error_response "internal_server_error" "An unexpected error occurred" id
              (cfg.production_mode || cfg.hide_internal_errors) panic)
          ∷ []);
}

recover-panicked :
    (cfg : SecurityConfig) (id : String) (ew : ErrorWriter) (panic : String) (reply : Reply)
    → Records ew reply.sent
    → (let reply' = answer (recover cfg id ew (panicked panic)) reply in seen_of reply' reply'.sent)
      ≡ after_panic cfg id panic reply reply.sent
unfolding recover panic_response answer act
recover-panicked cfg id ew panic reply h = ground arith

recover-returned :
    (cfg : SecurityConfig) (id : String) (ew : ErrorWriter) (ending : Ending) (reply : Reply)
    → ending ≡ returned
    → (let reply' = answer (recover cfg id ew ending) reply in seen_of reply' reply'.sent)
      ≡ seen_of reply reply.sent
unfolding recover answer
recover-returned cfg id ew ending reply e = rw e refl

answer-recover :
    (cfg : SecurityConfig) (id : String) (actions : List Action) (ending : Ending)
    → let (passed, ew) = pass_all actions new_error_writer in
      answer (passed ++ recover cfg id ew ending) no_reply
      ≡ answer (recover cfg id ew ending) (answer actions no_reply)
answer-recover cfg id actions ending =
    let (passed, ew) = pass_all actions new_error_writer in
    let (same, h) = pass_all_lem actions new_error_writer no_reply (refl, refl) in
    answer-append passed (recover cfg id ew ending) no_reply
    ∙ ap (answer (recover cfg id ew ending)) same

-- The middleware never panics and keeps the state of the handler below it. A handler that returns
-- gives the client the same answer as without the middleware. One that panics gives the client what
-- it has started to answer, or if it has not started, status 500 with the gateway's own object,
-- under the headers that it had set.
pub error_handling_lem :
    {W : Type 0} (cfg : SecurityConfig) (next : Handler W) (r : Request) (w : W)
    → let run = next r w in
      let guarded = error_handling cfg next r w in
      (guarded.ending ≡ returned)
      × (guarded.world ≡ run.world)
      × (run.ending ≡ returned → seen guarded.actions ≡ seen run.actions)
      × ((panic : String)
          → run.ending ≡ panicked panic
          → seen guarded.actions ≡ (
              let reply = answer run.actions no_reply in
              after_panic cfg (get_correlation_id r.context) panic reply reply.sent))
unfolding error_handling seen
error_handling_lem cfg next r w =
    let run = next r w in
    let id = get_correlation_id r.context in
    let ew = (pass_all run.actions new_error_writer).1 in
    let h = (pass_all_lem run.actions new_error_writer no_reply (refl, refl)).1 in
    let same =
      ap (λ (reply : Reply). seen_of reply reply.sent)
        (answer-recover cfg id run.actions run.ending) in
    (
      refl,
      refl,
      λ done. same ∙ recover-returned cfg id ew run.ending (answer run.actions no_reply) done,
      λ panic e. same ∙ (rw e (recover-panicked cfg id ew panic (answer run.actions no_reply) h)),
    )

hidden :
    (cfg : SecurityConfig) (id p q : String)
    → (cfg.production_mode ≡ true) ⊎ (cfg.hide_internal_errors ≡ true)
    → panic_response cfg id p ≡ panic_response cfg id q
unfolding panic_response build_error_response
hidden cfg id p q h = ground arith

-- In production mode, and where internal errors are hidden, an answer tells nothing of a panic or of
-- an error: two handlers that differ only in what they panic with get the same answer, and so do two
-- errors in `SanitizeError`, and `WriteJSONError` ignores the details that it is given.
pub hidden_lem :
    {W : Type 0} (cfg : SecurityConfig) (next next' : Handler W) (r : Request) (w : W)
    (p q : String) (e e' : Option String) (status : ℕ) (code message : String)
    (details details' : Option (List (String × String)))
    → (cfg.production_mode ≡ true) ⊎ (cfg.hide_internal_errors ≡ true)
    → (next r w).actions ≡ (next' r w).actions
    → (next r w).ending ≡ panicked p
    → (next' r w).ending ≡ panicked q
    → ((error_handling cfg next r w).actions ≡ (error_handling cfg next' r w).actions)
      × (sanitize_error e cfg ≡ sanitize_error e' cfg)
      × (write_json_error r status code message details cfg
          ≡ write_json_error r status code message details' cfg)
unfolding error_handling sanitize_error write_json_error recover
hidden_lem cfg next next' r w p q e e' status code message details details' hide same one other = (
  rw (same, one, other)
      (ap
        (λ (response : List Action).
          let (passed, ew) = pass_all (next' r w).actions new_error_writer in
          passed ++ (if ew.written then [] else response))
        (hidden cfg (get_correlation_id r.context) p q hide)),
  ground arith,
  ground arith,
)
