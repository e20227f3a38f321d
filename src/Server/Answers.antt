-- ===== src/Server/Answers.antt =====
-- What a client sees of the answers of the stages behind the input validation.
use api_gateway_go.Base.{
  ◌≡◌, refl, ap, sym, ◌∙◌, Bool, true, false, List, ◌∷◌, string_eq, lookup, if◌then◌else◌,
}
use api_gateway_go.Context.{with_correlation_id}
use api_gateway_go.Http.{Request, Action, set_header, Handler, seen, Seen}
use api_gateway_go.Http.Laws.{seen-status, seen-header}
use api_gateway_go.Middleware.Correlation.{correlation_id, id_of}
use api_gateway_go.Middleware.Observe.{logging, metrics, tracing}
use api_gateway_go.Middleware.Observe.Laws.{metrics-seen}
use api_gateway_go.Server.{Server}
use api_gateway_go.Server.Reach.{watched_request}
use api_gateway_go.Server.Pipeline.{World, Parts, log_to, count_in, span_in, only_if, watched}

module _ {S B : Type 0} (parts : Parts S B) where
  counted-answer :
      (b : Bool) (next : Handler (World S B)) (r : Request) (w : World S B)
      → let run = only_if b (metrics parts.accepted (count_in parts)) next r w in
        (seen run.actions ≡ seen (next r w).actions) × (run.ending ≡ (next r w).ending)
  counted-answer false next r w = (refl, refl)
  counted-answer true next r w =
      let (same, ending, _) = metrics-seen parts.accepted (count_in parts) next r w in
      (same, ending)

  traced-answer :
      (t b : Bool) (next : Handler (World S B)) (r : Request) (w : World S B)
      → let run =
          only_if t
            (tracing parts.accepted parts.traced (span_in parts))
            (only_if b
              (metrics parts.accepted (count_in parts))
              (logging parts.accepted (log_to parts) next))
            r
            w in
        let own = next (if t then record r { context = parts.traced r } else r) w in
        (seen run.actions ≡ seen own.actions) × (run.ending ≡ own.ending)
  unfolding logging tracing
  traced-answer false b next r w = counted-answer b (logging parts.accepted (log_to parts) next) r w
  traced-answer true b next r w =
      counted-answer b (logging parts.accepted (log_to parts) next)
        (record r { context = parts.traced r }) w

  -- The watching middlewares change the answer by one header, which they set first.
  pub watched-answer :
      (s : Server (World S B)) (next : Handler (World S B)) (r : Request) (w : World S B)
      → let run = watched parts s next r w in
        let own = next (watched_request parts s r) w in
        (actions : List Action) × (run.actions
          ≡ set_header "X-Correlation-Id" (id_of parts.generated_id r) ∷ actions)
        × (seen actions ≡ seen own.actions)
        × (run.ending ≡ own.ending)
  unfolding watched correlation_id
  watched-answer s next r w =
      let o = s.config.observability in
      let r' = record r { context = with_correlation_id (id_of parts.generated_id r) r.context } in
      let (same, ending) = traced-answer o.tracing_enabled o.metrics_enabled next r' w in
      (_, refl, same, ending)

  pub watched-status :
      (s : Server (World S B)) (next : Handler (World S B)) (r : Request) (w : World S B)
      → (seen (watched parts s next r w).actions).status
        ≡ (seen (next (watched_request parts s r) w).actions).status
  watched-status s next r w =
      let (actions, shape, same, _) = watched-answer s next r w in
      ap (λ (xs : List Action). (seen xs).status) shape
      ∙ seen-status (set_header "X-Correlation-Id" (id_of parts.generated_id r) ∷ actions)
      ∙ sym (seen-status actions)
      ∙ ap (λ (x : Seen). x.status) same

  pub watched-frame_options :
      (s : Server (World S B)) (next : Handler (World S B)) (r : Request) (w : World S B)
      → lookup "X-Frame-Options" (seen (watched parts s next r w).actions).headers
        ≡ lookup "X-Frame-Options" (seen (next (watched_request parts s r) w).actions).headers
  watched-frame_options s next r w =
      let (actions, shape, same, _) = watched-answer s next r w in
      ap (λ (xs : List Action). lookup "X-Frame-Options" (seen xs).headers) shape
      ∙ seen-header "X-Frame-Options"
          (set_header "X-Correlation-Id" (id_of parts.generated_id r) ∷ actions)
      ∙ sym (seen-header "X-Frame-Options" actions)
      ∙ ap (λ (x : Seen). lookup "X-Frame-Options" x.headers) same
