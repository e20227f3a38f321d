-- ===== src/Middleware/Security.antt =====
-- internal/middleware/security.go: the security headers, and the redirect to HTTPS.
-- A maximal age is a natural number. `http.Redirect` is net/http's: only its status and its
-- `Location` header are kept. The names of headers are canonical: `X-XSS-Protection` is
-- X-Xss-Protection.
pub mod Laws
mod Tests
use Prim.Native.String.{◌++◌ as text_append}
use api_gateway_go.Base.{
  ℕ, Bool, true, false, Option, none, some, String, List, [], ◌∷◌, ◌++◌, Bytes, codes, ◌==◌,
  string_eq, bytes_eq, if◌then◌else◌, join, itoa, not,
}
use api_gateway_go.Config.{Config}
use api_gateway_go.Config
use api_gateway_go.Http.{
  Request, Action, set_header, write_header, Handler, Middleware, Run, before, done, header,
}

pub record SecurityConfig : Type 0 where
  pub enable_hsts : Bool
  pub hsts_max_age : ℕ
  pub hsts_include_subdomains : Bool
  pub hsts_preload : Bool
  pub content_security_policy : String
  pub frame_options : String
  pub content_type_nosniff : Bool
  pub xss_protection : Bool
  pub xss_block_mode : Bool
  pub referrer_policy : String
  pub permissions_policy : String

unfoldable pub build_hsts_header : SecurityConfig → String
build_hsts_header cfg = join "; " (
    (text_append "max-age=" (itoa cfg.hsts_max_age) ∷ [])
    ++ ((if cfg.hsts_include_subdomains then "includeSubDomains" ∷ [] else [])
        ++ (if cfg.hsts_preload then "preload" ∷ [] else [])))

-- `if test { w.Header().Set(name, value) }`
unfoldable pub set_if : Bool → String → String → List Action
set_if test name value = if test then set_header name value ∷ [] else []

-- The header calls of `Security`, in their order.
unfoldable pub security_headers : SecurityConfig → List Action
unfolding set_if build_hsts_header
security_headers cfg =
    set_if cfg.enable_hsts "Strict-Transport-Security" (build_hsts_header cfg)
    ++ (set_if (not (cfg.content_security_policy == "")) "Content-Security-Policy"
          cfg.content_security_policy
        ++ (set_if (not (cfg.frame_options == "")) "X-Frame-Options" cfg.frame_options
            ++ (set_if cfg.content_type_nosniff "X-Content-Type-Options" "nosniff"
                ++ (set_if cfg.xss_protection "X-Xss-Protection"
                      (if cfg.xss_block_mode then "1; mode=block" else "1")
                    ++ (set_if (not (cfg.referrer_policy == "")) "Referrer-Policy"
                          cfg.referrer_policy
                        ++ set_if (not (cfg.permissions_policy == "")) "Permissions-Policy"
                            cfg.permissions_policy)))))

-- `Security`
unfoldable pub security : {W : Type 0} → SecurityConfig → Middleware W
security cfg next r w = before (security_headers cfg) (next r w)

-- The loop of `isHealthCheckPath` over its list.
unfoldable pub is_health_check_path : Bytes → Bool
is_health_check_path path =
    if path == codes "/_health"
    then true
    else if path == codes "/_health/ready"
    then true
    else path == codes "/_health/live"

-- What `http.Redirect` does.
abbrev redirect : String → ℕ → List Action
redirect url status = set_header "Location" url ∷ write_header status ∷ []

-- `HTTPSRedirect`
unfoldable pub https_redirect : {W : Type 0} → Middleware W
unfolding header is_health_check_path
https_redirect next r w =
    if r.tls
    then next r w
    else if header "X-Forwarded-Proto" r == "https"
    then next r w
    else if is_health_check_path r.path
    then next r w
    else done (redirect (text_append "https://" (text_append r.host r.request_uri)) 301) w

unfoldable pub new_security_config_from_config : Config → SecurityConfig
new_security_config_from_config cfg =
    let s : Config.SecurityConfig = cfg.security in
    record {
      enable_hsts = s.enable_hsts;
      hsts_max_age = s.hsts_max_age;
      hsts_include_subdomains = s.hsts_include_subdomains;
      hsts_preload = s.hsts_preload;
      content_security_policy = s.content_security_policy;
      frame_options = s.frame_options;
      content_type_nosniff = s.content_type_nosniff;
      xss_protection = s.xss_protection;
      xss_block_mode = s.xss_block_mode;
      referrer_policy = s.referrer_policy;
      permissions_policy = s.permissions_policy;
    }
