-- ===== src/Middleware/Observe/Tests.antt =====
-- The watching middlewares around a concrete handler.
use api_gateway_go.Base.{ℕ, All, ◌+◌, ◌*◌, ◌≡◌, ◌≢◌, refl, codes, arith}
use api_gateway_go.Context.{Context}
use api_gateway_go.Http.{Request, Chunk, seen, returned}
use api_gateway_go.Http.Samples.{get_admin, counting}
use api_gateway_go.Middleware.Writer.Sized.Laws.{total}
use api_gateway_go.Middleware.Observe.{Level, logging, metrics, watch, log_call}
use api_gateway_go.Middleware.Observe.Laws.{IsFinal, metrics_lem}

abbrev ten : Chunk → ℕ
ten chunk = 10

abbrev note_line : Level → ℕ → ℕ → ℕ → ℕ
note_line level status size w = status

abbrev note_count : ℕ → ℕ → ℕ → ℕ
note_count status size w = 1000 * status + size

abbrev note_span : ℕ → ℕ → ℕ
note_span status w = w

abbrev same_context : Request → Context
same_context r = r.context

-- The log line has the status of the last `WriteHeader`, which the client does not see.
last_status_logged : (logging ten note_line counting get_admin 0).world ≡ 502
unfolding logging watch log_call
last_status_logged = refl

counting-IsFinal : All IsFinal (counting get_admin 0).actions
counting-IsFinal = (tt, (omega arith, (omega arith, (tt, tt))))

metrics_lem_example :
    let run = counting get_admin 0 in
    let counted = metrics ten note_count counting get_admin 0 in
    let answer = seen run.actions in
    (seen counted.actions ≡ answer)
    × (counted.ending ≡ run.ending)
    × (codes "/admin" ≢ codes "/metrics"
        → run.ending ≡ returned
        → counted.world ≡ note_count answer.status (total ten answer.body) 1)
metrics_lem_example = metrics_lem ten note_count counting get_admin 0 counting-IsFinal
