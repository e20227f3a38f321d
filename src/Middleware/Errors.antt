-- ===== src/Middleware/Errors.antt =====
-- internal/middleware/error_handling.go and recovery.go: what a client learns of a panic or an error.
-- `details` of `WriteJSONError` is an object of texts, `none` is nil; an error is its text.
pub mod Laws
mod Tests
use api_gateway_go.Base.{
  ℕ, Bool, true, false, not, ◌&&◌, ◌||◌, Option, none, some, String, List, [], ◌∷◌, ◌++◌, ◌==◌,
  string_eq, if◌then◌else◌,
}
use api_gateway_go.Config.{SecurityConfig}
use api_gateway_go.Context.{get_correlation_id}
use api_gateway_go.Http.{
  Request, Action, set_header, write_header, write, json, Value, text, object, Ending, returned,
  panicked, Middleware, Run,
}
use api_gateway_go.Middleware.Writer.{ErrorWriter, new_error_writer, pass_all}

unfoldable pub build_error_response :
    String → String → String → Bool → String → List (String × Value)
build_error_response code message id hide_details internal_error =
    (("error", text code) ∷ ("message", text message) ∷ ("correlation_id", text id) ∷ [])
    ++ (if not hide_details && not (internal_error == "")
        then ("details", object (("internal_error", internal_error) ∷ [])) ∷ []
        else [])

-- The answer to a panic.
unfoldable pub panic_response : SecurityConfig → String → String → List Action
unfolding build_error_response
panic_response cfg id panic =
    set_header "Content-Type" "application/json"
    ∷ write_header 500
    ∷ write (
        json (
          build_error_response "internal_server_error" "An unexpected error occurred" id
            (cfg.production_mode || cfg.hide_internal_errors) panic))
    ∷ []

-- The deferred function, given how the handler ended. It writes to the wrapped writer itself.
unfoldable pub recover : SecurityConfig → String → ErrorWriter → Ending → List Action
unfolding panic_response
recover cfg id w returned = []
recover cfg id w (panicked panic) = if w.written then [] else panic_response cfg id panic

-- `ErrorHandling`
unfoldable pub error_handling : {W : Type 0} → SecurityConfig → Middleware W
unfolding recover
error_handling cfg next r w =
    let run = next r w in
    let (passed, wrapped) = pass_all run.actions new_error_writer in
    record {
      actions = passed ++ recover cfg (get_correlation_id r.context) wrapped run.ending;
      ending = returned;
      world = run.world;
    }

unfoldable pub sanitize_error : Option String → SecurityConfig → String
sanitize_error error cfg =
    if cfg.production_mode || cfg.hide_internal_errors
    then "An error occurred while processing your request"
    else elim error [ none ↦ "Unknown error" | some e ↦ e ]

-- `omitempty` leaves an empty object of details out.
abbrev details_of : Option (List (String × String)) → List (String × Value)
details_of (some (d ∷ ds)) = ("details", object (d ∷ ds)) ∷ []
details_of _ = []

unfoldable pub write_json_error :
    Request → ℕ → String → String → Option (List (String × String)) → SecurityConfig → List Action
write_json_error r status code message details cfg =
    set_header "Content-Type" "application/json"
    ∷ write_header status
    ∷ write (
        json (
          (("error", text code)
            ∷ ("message", text message)
            ∷ ("correlation_id", text (get_correlation_id r.context))
            ∷ [])
          ++ (if not cfg.production_mode && not cfg.hide_internal_errors
              then details_of details
              else [])))
    ∷ []

-- The deferred function of `Recovery`, which writes whether or not the response has started.
abbrev recovered : String → Ending → List Action
recovered id returned = []
recovered id (panicked panic) =
    set_header "Content-Type" "application/json"
    ∷ write_header 500
    ∷ write (
        json (
          (("error", text "internal_server_error")
            ∷ ("message", text "An internal error occurred")
            ∷ [])
          ++ (if id == "" then [] else ("correlation_id", text id) ∷ [])))
    ∷ []

-- `Recovery`
unfoldable pub recovery : {W : Type 0} → Middleware W
recovery next r w =
    let run = next r w in
    record {
      actions = run.actions ++ recovered (get_correlation_id r.context) run.ending;
      ending = returned;
      world = run.world;
    }
