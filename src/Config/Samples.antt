-- ===== src/Config/Samples.antt =====
-- A configuration with one route for administrators, and tokens that are signed with ES256.
use api_gateway_go.Base.{pos, true, false, [], ◌∷◌, codes}
use api_gateway_go.Config.{Config, SecurityConfig, RouteConfig}

abbrev pub sample_security : SecurityConfig
sample_security = record {
  tls_min_version = "1.2";
  tls_cipher_suites = [];
  enable_https_redirect = false;
  enable_hsts = true;
  hsts_max_age = 60;
  hsts_include_subdomains = true;
  hsts_preload = false;
  content_security_policy = "";
  frame_options = "DENY";
  content_type_nosniff = true;
  xss_protection = false;
  xss_block_mode = false;
  referrer_policy = "";
  permissions_policy = "";
  enforce_cookie_security = false;
  cookie_same_site = "";
  max_request_body_size = 100;
  max_url_path_length = 20;
  allowed_methods = codes "GET" ∷ [];
  blocked_user_agents = codes "bot" ∷ [];
  hide_internal_errors = true;
  production_mode = false;
}

abbrev pub admin_route : RouteConfig
admin_route = record {
  path_pattern = codes "/admin";
  methods = codes "GET" ∷ [];
  backend_url = codes "http://admin";
  timeout = 0;
  auth_policy = "role-based";
  required_roles = "admin" ∷ [];
  rate_limits = [];
  strip_prefix = [];
}

abbrev pub sample_gateway : Config
sample_gateway = record {
  server = record {
    http_port = pos 8080;
    https_port = pos 8443;
    tls_enabled = false;
    tls_cert_file = "";
    tls_key_file = "";
    read_timeout = pos 30;
    write_timeout = pos 30;
    idle_timeout = 120;
    handler_timeout = 30;
    max_header_bytes = 1048576;
    shutdown_timeout = 30;
    enable_http2 = true;
  };
  logging = record { level = codes "INFO"; format = "json"; output = "stdout" };
  authorization = record {
    enabled = true;
    cookie_name = "session";
    jwt_signing_algorithm = "ES256";
    jwt_public_key_file = "key.pem";
    jwt_shared_secret = "";
    clock_skew_tolerance = 5;
    required_claims = [];
    revocation_list_url = "";
    revocation_list_cache = 0;
    cache_auth_decisions = false;
    cache_decision_ttl = 0;
  };
  rate_limit = record {
    enabled = false;
    backend = "memory";
    redis_addr = "";
    redis_password = "";
    redis_db = 0;
    failure_mode = "fail-closed";
    global_limits = [];
  };
  security = sample_security;
  routes = admin_route ∷ [];
  observability = record {
    metrics_enabled = true;
    metrics_port = 9090;
    metrics_path = codes "/metrics";
    health_path = codes "/_health";
    readiness_path = codes "/_health/ready";
    liveness_path = codes "/_health/live";
    tracing_enabled = false;
    tracing_endpoint = "";
  };
}
