-- ===== src/Config/Defaults.antt =====
-- `setDefaults` of internal/config/config.go, on the zero value of the configuration.
use api_gateway_go.Base.{ℕ, ◌*◌, pos, true, false, [], ◌∷◌, codes}
use api_gateway_go.Config.{
  Config, ServerConfig, LoggingConfig, AuthorizationConfig, RateLimitConfig, SecurityConfig,
  ObservabilityConfig,
}

abbrev second : ℕ
second = 1000000000

abbrev minute : ℕ
minute = 60000000000

server_defaults : ServerConfig
server_defaults = record {
  http_port = pos 8080;
  https_port = pos 8443;
  tls_enabled = false;
  tls_cert_file = "";
  tls_key_file = "";
  read_timeout = pos (30 * second);
  write_timeout = pos (30 * second);
  idle_timeout = 120 * second;
  handler_timeout = 30 * second;
  max_header_bytes = 1048576;
  shutdown_timeout = 30 * second;
  enable_http2 = true;
}

logging_defaults : LoggingConfig
logging_defaults = record { level = codes "info"; format = "json"; output = "stdout" }

authorization_defaults : AuthorizationConfig
authorization_defaults = record {
  enabled = true;
  cookie_name = "session_token";
  jwt_signing_algorithm = "RS256";
  jwt_public_key_file = "";
  jwt_shared_secret = "";
  clock_skew_tolerance = 5 * second;
  required_claims = [];
  revocation_list_url = "";
  revocation_list_cache = 30 * second;
  cache_auth_decisions = true;
  cache_decision_ttl = 5 * minute;
}

rate_limit_defaults : RateLimitConfig
rate_limit_defaults = record {
  enabled = true;
  backend = "memory";
  redis_addr = "";
  redis_password = "";
  redis_db = 0;
  failure_mode = "fail-closed";
  global_limits = [];
}

observability_defaults : ObservabilityConfig
observability_defaults = record {
  metrics_enabled = true;
  metrics_port = 9090;
  metrics_path = codes "/metrics";
  health_path = codes "/_health";
  readiness_path = codes "/_health/ready";
  liveness_path = codes "/_health/live";
  tracing_enabled = false;
  tracing_endpoint = "";
}

security_defaults : SecurityConfig
security_defaults = record {
  tls_min_version = "1.2";
  tls_cipher_suites = [];
  enable_https_redirect = false;
  enable_hsts = true;
  hsts_max_age = 31536000;
  hsts_include_subdomains = true;
  hsts_preload = false;
  content_security_policy = "default-src 'self'";
  frame_options = "DENY";
  content_type_nosniff = true;
  xss_protection = true;
  xss_block_mode = true;
  referrer_policy = "strict-origin-when-cross-origin";
  permissions_policy = "geolocation=(), microphone=(), camera=()";
  enforce_cookie_security = true;
  cookie_same_site = "Strict";
  max_request_body_size = 10485760;
  max_url_path_length = 2048;
  allowed_methods =
      codes "GET"
      ∷ codes "POST"
      ∷ codes "PUT"
      ∷ codes "DELETE"
      ∷ codes "PATCH"
      ∷ codes "OPTIONS"
      ∷ codes "HEAD"
      ∷ [];
  blocked_user_agents = [];
  hide_internal_errors = true;
  production_mode = false;
}

unfoldable pub defaults : Config
unfolding server_defaults logging_defaults authorization_defaults rate_limit_defaults
    observability_defaults security_defaults
defaults = record {
  server = server_defaults;
  logging = logging_defaults;
  authorization = authorization_defaults;
  rate_limit = rate_limit_defaults;
  security = security_defaults;
  routes = [];
  observability = observability_defaults;
}
