-- ===== src/Middleware/Input/Tests.antt =====
-- The input validation of concrete requests.
use api_gateway_go.Base.{true, ◌≡◌, refl, codes, [], ◌∷◌, lower, to_lower}
use api_gateway_go.Router.Text.{infix?, prefix?}
use api_gateway_go.Config.Samples.{sample_security}
use api_gateway_go.Http.Samples.{get_admin, counting}
use api_gateway_go.Middleware.Input.{
  input_validation, limit_body, is_user_agent_blocked, blocks_agent,
}
use api_gateway_go.Middleware.Input.Laws.{
  IsMethodAllowed, IsPathShort, IsAgentBlocked, refusal, input_validation_lem,
}

crawler_blocked : is_user_agent_blocked (codes "GoogleBot/2.1") (codes "bot" ∷ []) ≡ true
unfolding is_user_agent_blocked blocks_agent infix? prefix? lower to_lower
crawler_blocked = refl

input_validation_lem_example :
    let result = input_validation sample_security counting get_admin 0 in
    (IsMethodAllowed sample_security get_admin
      → IsPathShort sample_security get_admin
      → ¬ IsAgentBlocked sample_security get_admin
      → result ≡ counting (limit_body 100 get_admin) 0)
    × (¬ IsMethodAllowed sample_security get_admin
        → result ≡ refusal get_admin 0 405 "method_not_allowed" "HTTP method not allowed")
    × (IsMethodAllowed sample_security get_admin
        → ¬ IsPathShort sample_security get_admin
        → result ≡ refusal get_admin 0 414 "uri_too_long" "Request URI exceeds maximum length")
    × (IsMethodAllowed sample_security get_admin
        → IsPathShort sample_security get_admin
        → IsAgentBlocked sample_security get_admin
        → result ≡ refusal get_admin 0 403 "forbidden" "Access denied")
input_validation_lem_example = input_validation_lem sample_security counting get_admin 0
