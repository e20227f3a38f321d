-- ===== src/Middleware/Observe.antt =====
-- The middlewares that only watch: internal/middleware/logging.go, internal/metrics/middleware.go and
-- internal/tracing/middleware.go. What they report goes into the state by a function that is given:
-- of a log line its level, the status and the size; of the metrics and of a span the status (and the
-- size). Durations and the fields that copy the request are left out.
pub mod Laws
mod Tests
use api_gateway_go.Base.{
  ℕ, ◌+◌, Bool, true, false, ◌&&◌, List, [], ◌∷◌, Bytes, codes, leb, ltb, ◌==◌, bytes_eq,
  if◌then◌else◌,
}
use api_gateway_go.Context.{Context}
use api_gateway_go.Http.{
  Request, Action, set_header, add_header, write_header, write, Chunk, Ending, returned, panicked,
  Middleware, Run,
}
use api_gateway_go.Middleware.Writer.Sized.{ResponseWriter, new_response_writer, pass_all}

-- `responseWriter` of logging.go. It passes every call on.
pub record LogWriter : Type 0 where
  pub status_code : ℕ
  pub size : ℕ

pub data Level : Type 0 where
  info warn error : Level

-- The level of the line for an answered request.
unfoldable pub level_of : ℕ → Level
level_of status =
    if leb 400 status && ltb status 500
    then Level.warn
    else if leb 500 status
    then Level.error
    else Level.info

module _ (accepted : Chunk → ℕ) where
  unfoldable pub log_call : Action → LogWriter → LogWriter
  log_call (set_header name v) w = w
  log_call (add_header name v) w = w
  log_call (write_header status) w = record w { status_code = status }
  log_call (write chunk) w = record w { size = w.size + accepted chunk }

  unfoldable pub watch : List Action → LogWriter → LogWriter
  unfolding log_call
  watch [] w = w
  watch (a ∷ actions) w = watch actions (log_call a w)

  -- What follows the call of the next handler is skipped when that panics.
  abbrev on_return : {W : Type 0} → Ending → (W → W) → W → W
  on_return returned report w = report w
  on_return (panicked panic) report w = w

  -- `Logging`
  unfoldable pub logging : {W : Type 0} → (Level → ℕ → ℕ → W → W) → Middleware W
  unfolding watch level_of
  logging report next r w =
      let run = next r w in
      let seen_by = watch run.actions (record { status_code = 200; size = 0 }) in
      record run {
        world =
            on_return run.ending
              (report (level_of seen_by.status_code) seen_by.status_code seen_by.size) run.world;
      }

  -- `metrics.Middleware`
  unfoldable pub metrics : {W : Type 0} → (ℕ → ℕ → W → W) → Middleware W
  metrics report next r w =
      let run = next r w in
      let (passed, wrapped) = pass_all accepted run.actions new_response_writer in
      if r.path == codes "/metrics" then run else record {
        actions = passed;
        ending = run.ending;
        world = on_return run.ending (report wrapped.status wrapped.size) run.world;
      }

  -- `tracing.Middleware`; `traced` is the context that the tracing library makes.
  unfoldable pub tracing : {W : Type 0} → (Request → Context) → (ℕ → W → W) → Middleware W
  unfolding watch
  tracing traced report next r w =
      let run = next (record r { context = traced r }) w in
      let seen_by = watch run.actions (record { status_code = 200; size = 0 }) in
      record run { world = on_return run.ending (report seen_by.status_code) run.world }
