-- ===== src/Middleware/Security/Tests.antt =====
-- The security headers around a concrete handler.
use api_gateway_go.Base.{ℕ, ◌≡◌, refl, some, [], ◌∷◌, string_eq, lookup, insert, itoa, digits}
use api_gateway_go.Config.Samples.{sample_gateway}
use api_gateway_go.Http.{Handler, done, add_header, write_header, seen, answer, act}
use api_gateway_go.Http.Laws.{header_at_start}
use api_gateway_go.Http.Samples.{get_admin}
use api_gateway_go.Middleware.Security.{
  SecurityConfig, build_hsts_header, set_if, security_headers, security,
  new_security_config_from_config,
}
use api_gateway_go.Middleware.Security.Laws.{configured, security_lem}

abbrev headers : SecurityConfig
unfolding new_security_config_from_config
headers = new_security_config_from_config sample_gateway

hsts_built : build_hsts_header headers ≡ "max-age=60; includeSubDomains"
unfolding build_hsts_header itoa digits new_security_config_from_config
hsts_built = refl

-- A backend's answer has frame options of its own, which the proxy adds.
abbrev proxied : Handler ℕ
proxied r w = done (add_header "X-Frame-Options" "SAMEORIGIN" ∷ write_header 200 ∷ []) w

both_seen :
    lookup "X-Frame-Options" (seen (security headers proxied get_admin 0).actions).headers
    ≡ some ("DENY" ∷ "SAMEORIGIN" ∷ [])
unfolding security security_headers set_if new_security_config_from_config seen answer act lookup
    insert build_hsts_header
both_seen = refl

security_lem_example :
    lookup "X-Frame-Options" (seen (security headers proxied get_admin 0).actions).headers
    ≡ header_at_start "X-Frame-Options"
        (proxied get_admin 0).actions
        (configured headers "X-Frame-Options")
security_lem_example = security_lem headers proxied get_admin 0 "X-Frame-Options"
