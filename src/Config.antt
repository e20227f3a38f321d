-- ===== src/Config.antt =====
-- internal/config/config.go: the configuration, its defaults, its validation and its loading.
-- A text that the program walks (a path pattern, a method, a key template, a log level) is a list of
-- bytes; one that it only compares is a `String`. Durations and sizes are natural numbers, where the
-- code does not test their sign; durations are nanoseconds. `SamplingRate`, a float that only the
-- logger reads, the logger's patterns and levels by component, and `TrustedProxies`, which nothing
-- reads, are left out.
pub mod Defaults
pub mod Validate
pub mod Load
pub mod Samples
use api_gateway_go.Base.{ℕ, ℤ, Bool, String, List, Bytes}

pub record ServerConfig : Type 0 where
  pub http_port : ℤ
  pub https_port : ℤ
  pub tls_enabled : Bool
  pub tls_cert_file : String
  pub tls_key_file : String
  pub read_timeout : ℤ
  pub write_timeout : ℤ
  pub idle_timeout : ℕ
  pub handler_timeout : ℕ
  pub max_header_bytes : ℕ
  pub shutdown_timeout : ℕ
  pub enable_http2 : Bool

pub record LoggingConfig : Type 0 where
  pub level : Bytes
  pub format : String
  pub output : String

pub record AuthorizationConfig : Type 0 where
  pub enabled : Bool
  pub cookie_name : String
  pub jwt_signing_algorithm : String
  pub jwt_public_key_file : String
  pub jwt_shared_secret : String
  pub clock_skew_tolerance : ℕ
  pub required_claims : List String
  pub revocation_list_url : String
  pub revocation_list_cache : ℕ
  pub cache_auth_decisions : Bool
  pub cache_decision_ttl : ℕ

pub record LimitDefinition : Type 0 where
  pub key : Bytes
  pub limit : ℕ
  pub window : String
  pub burst : ℕ

pub record RateLimitConfig : Type 0 where
  pub enabled : Bool
  pub backend : String
  pub redis_addr : String
  pub redis_password : String
  pub redis_db : ℕ
  pub failure_mode : String
  pub global_limits : List LimitDefinition

pub record RouteConfig : Type 0 where
  pub path_pattern : Bytes
  pub methods : List Bytes
  pub backend_url : Bytes
  pub timeout : ℕ
  pub auth_policy : String
  pub required_roles : List String
  pub rate_limits : List LimitDefinition
  pub strip_prefix : Bytes

pub record SecurityConfig : Type 0 where
  pub tls_min_version : String
  pub tls_cipher_suites : List String
  pub enable_https_redirect : Bool
  pub enable_hsts : Bool
  pub hsts_max_age : ℕ
  pub hsts_include_subdomains : Bool
  pub hsts_preload : Bool
  pub content_security_policy : String
  pub frame_options : String
  pub content_type_nosniff : Bool
  pub xss_protection : Bool
  pub xss_block_mode : Bool
  pub referrer_policy : String
  pub permissions_policy : String
  pub enforce_cookie_security : Bool
  pub cookie_same_site : String
  pub max_request_body_size : ℕ
  pub max_url_path_length : ℕ
  pub allowed_methods : List Bytes
  pub blocked_user_agents : List Bytes
  pub hide_internal_errors : Bool
  pub production_mode : Bool

pub record ObservabilityConfig : Type 0 where
  pub metrics_enabled : Bool
  pub metrics_port : ℕ
  pub metrics_path : Bytes
  pub health_path : Bytes
  pub readiness_path : Bytes
  pub liveness_path : Bytes
  pub tracing_enabled : Bool
  pub tracing_endpoint : String

pub record Config : Type 0 where
  pub server : ServerConfig
  pub logging : LoggingConfig
  pub authorization : AuthorizationConfig
  pub rate_limit : RateLimitConfig
  pub security : SecurityConfig
  pub routes : List RouteConfig
  pub observability : ObservabilityConfig
