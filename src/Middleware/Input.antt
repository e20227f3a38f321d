-- ===== src/Middleware/Input.antt =====
-- internal/middleware/input_validation.go: the limits on what a request may look like.
-- The limits are natural numbers; 0 is no limit. `http.MaxBytesReader` is net/http's: the request
-- keeps the limit that its body has.
pub mod Laws
mod Tests
use api_gateway_go.Base.{
  ℕ, Bool, true, false, not, ◌&&◌, ◌||◌, Option, none, some, String, List, [], ◌∷◌, Bytes, ltb,
  ◌==◌, string_eq, bytes_eq, if◌then◌else◌, to_lower, length,
}
use api_gateway_go.Config.{SecurityConfig}
use api_gateway_go.Context.{get_correlation_id}
use api_gateway_go.Router.Text.{infix?, to_upper}
use api_gateway_go.Http.{
  Request, Action, set_header, write_header, write, json, text, Middleware, Run, done,
}

-- The loop of `isMethodAllowed`.
unfoldable pub lists_method : Bytes → List Bytes → Bool
lists_method method [] = false
lists_method method (allowed ∷ rest) = to_upper allowed == method || lists_method method rest

unfoldable pub is_method_allowed : Bytes → List Bytes → Bool
unfolding lists_method
is_method_allowed method allowed = lists_method (to_upper method) allowed

-- The loop of `isUserAgentBlocked`.
unfoldable pub blocks_agent : Bytes → List Bytes → Bool
blocks_agent agent [] = false
blocks_agent agent (blocked ∷ rest) = infix? (to_lower blocked) agent || blocks_agent agent rest

unfoldable pub is_user_agent_blocked : Bytes → List Bytes → Bool
unfolding blocks_agent
is_user_agent_blocked agent blocked = blocks_agent (to_lower agent) blocked

unfoldable pub write_error_response : ℕ → String → String → String → List Action
write_error_response status code message id =
    set_header "Content-Type" "application/json"
    ∷ write_header status
    ∷ write
        (json (("error", text code) ∷ ("message", text message) ∷ ("correlation_id", text id) ∷ []))
    ∷ []

abbrev pub is_nil : List Bytes → Bool
is_nil [] = true
is_nil (x ∷ xs) = false

unfoldable pub limit_body : ℕ → Request → Request
limit_body size r = if ltb 0 size then record r { body_limit = some size } else r

-- `InputValidation`
unfoldable pub input_validation : {W : Type 0} → SecurityConfig → Middleware W
input_validation cfg next r w =
    let id = get_correlation_id r.context in
    let valid = next (limit_body cfg.max_request_body_size r) w in
    if not (is_nil cfg.allowed_methods) && not (is_method_allowed r.method cfg.allowed_methods)
    then done (write_error_response 405 "method_not_allowed" "HTTP method not allowed" id) w
    else if ltb 0 cfg.max_url_path_length && ltb cfg.max_url_path_length (length r.path)
    then done (write_error_response 414 "uri_too_long" "Request URI exceeds maximum length" id) w
    else if not (is_nil cfg.blocked_user_agents)
        && is_user_agent_blocked r.user_agent cfg.blocked_user_agents
    then done (write_error_response 403 "forbidden" "Access denied" id) w
    else valid
