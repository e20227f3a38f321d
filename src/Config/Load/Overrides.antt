-- ===== src/Config/Load/Overrides.antt =====
-- Which fields `applyEnvOverrides` of internal/config/config.go changes, and to what.
use mathlib.Core.Path.{subst}
use api_gateway_go.Base.{ℤ, ◌≡◌, refl, ap, ◌∙◌, Bool, codes, string_eq}
use api_gateway_go.Config.{Config}
use api_gateway_go.Config.Load.{
  got, ◌>>=◌, Environment, if_parsed, set_server, set_authorization, set_rate_limit,
  override_tls_files, override_logging, override_keys, override_backend, apply_env_overrides,
}
use api_gateway_go.Config.Load.Texts.{
  chosen, text_of, Parsed, step, tls_files, logging, keys, backend, tls_override, key_override,
  limit_override,
}

module _ (env : Environment) where
  -- The configuration after all overrides, with the parsed values given.
  abbrev pub overridden : ℤ → ℤ → Bool → Bool → Bool → Config → Config
  overridden http_port https_port tls_enabled auth_enabled limit_enabled cfg = record cfg {
    server = record cfg.server {
      http_port = http_port;
      https_port = https_port;
      tls_enabled = tls_enabled;
      tls_cert_file = text_of (env.get "GATEWAY_TLS_CERT_FILE") cfg.server.tls_cert_file;
      tls_key_file = text_of (env.get "GATEWAY_TLS_KEY_FILE") cfg.server.tls_key_file;
    };
    logging = record {
      level = chosen (env.get "GATEWAY_LOG_LEVEL") codes cfg.logging.level;
      format = text_of (env.get "GATEWAY_LOG_FORMAT") cfg.logging.format;
      output = text_of (env.get "GATEWAY_LOG_OUTPUT") cfg.logging.output;
    };
    authorization = record cfg.authorization {
      enabled = auth_enabled;
      cookie_name = text_of (env.get "GATEWAY_AUTH_COOKIE_NAME") cfg.authorization.cookie_name;
      jwt_signing_algorithm =
          text_of (env.get "GATEWAY_JWT_SIGNING_ALGORITHM") cfg.authorization.jwt_signing_algorithm;
      jwt_public_key_file =
          text_of (env.get "GATEWAY_JWT_PUBLIC_KEY_FILE") cfg.authorization.jwt_public_key_file;
      jwt_shared_secret =
          text_of (env.get "GATEWAY_JWT_SHARED_SECRET") cfg.authorization.jwt_shared_secret;
    };
    rate_limit = record cfg.rate_limit {
      enabled = limit_enabled;
      backend = text_of (env.get "GATEWAY_RATELIMIT_BACKEND") cfg.rate_limit.backend;
      redis_addr = text_of (env.get "GATEWAY_REDIS_ADDR") cfg.rate_limit.redis_addr;
      redis_password = text_of (env.get "GATEWAY_REDIS_PASSWORD") cfg.rate_limit.redis_password;
    };
  }

abbrev after_limits : Environment → Bool → Config → Config
after_limits env b c = limit_override env (set_rate_limit c (record c.rate_limit { enabled = b }))

abbrev after_auth : Environment → Bool → Bool → Config → Config
after_auth env b b' c =
    after_limits env b'
      (key_override env (set_authorization c (record c.authorization { enabled = b })))

from_limits :
    (env : Environment) (c cfg' : Config)
    → (if_parsed "RATELIMIT_ENABLED" env.parse_bool
          (env.get "GATEWAY_RATELIMIT_ENABLED")
          (λ b. set_rate_limit c (record c.rate_limit { enabled = b }))
          c
        >>= (λ c7. got (override_backend env c7)))
      ≡ got cfg'
    → (b : Bool) × Parsed
        (env.get "GATEWAY_RATELIMIT_ENABLED")
        env.parse_bool
        c.rate_limit.enabled
        b
      × (cfg' ≡ after_limits env b c)
from_limits env c cfg' h =
    let (b, e, same) =
      step "RATELIMIT_ENABLED" env.parse_bool (env.get "GATEWAY_RATELIMIT_ENABLED")
        c.rate_limit.enabled (λ b. set_rate_limit c (record c.rate_limit { enabled = b })) c _ refl
        h in
    (b, e, cc (same, backend env (set_rate_limit c (record c.rate_limit { enabled = b }))))

from_auth :
    (env : Environment) (c cfg' : Config)
    → (if_parsed "AUTH_ENABLED" env.parse_bool
          (env.get "GATEWAY_AUTH_ENABLED")
          (λ b. set_authorization c (record c.authorization { enabled = b }))
          c
        >>= (λ c5.
            if_parsed "RATELIMIT_ENABLED" env.parse_bool
              (env.get "GATEWAY_RATELIMIT_ENABLED")
              (λ b.
                set_rate_limit
                  (override_keys env c5)
                  (record (override_keys env c5).rate_limit { enabled = b }))
              (override_keys env c5)
            >>= (λ c7. got (override_backend env c7))))
      ≡ got cfg'
    → (b : Bool) × (b' : Bool) × Parsed
        (env.get "GATEWAY_AUTH_ENABLED")
        env.parse_bool
        c.authorization.enabled
        b
      × Parsed (env.get "GATEWAY_RATELIMIT_ENABLED") env.parse_bool c.rate_limit.enabled b'
      × (cfg' ≡ after_auth env b b' c)
from_auth env c cfg' h =
    let (b, e, h') =
      step "AUTH_ENABLED" env.parse_bool (env.get "GATEWAY_AUTH_ENABLED") c.authorization.enabled
        (λ b. set_authorization c (record c.authorization { enabled = b })) c _ refl h in
    let c5 = set_authorization c (record c.authorization { enabled = b }) in
    let (b', e', same) = from_limits env (override_keys env c5) cfg' h' in
    (
      b,
      b',
      e,
      subst
          (λ c. Parsed (env.get "GATEWAY_RATELIMIT_ENABLED") env.parse_bool c.rate_limit.enabled b')
          (keys env c5) e',
      subst (λ c. cfg' ≡ after_limits env b' c) (keys env c5) same,
    )

-- Overrides that succeed change exactly the fields that a variable names: a text variable that is
-- set and not empty replaces its field, a number or truth value that is set and not empty replaces
-- it by what it parses to, and all else, the routes, the security and observability settings
-- included, stays as it was.
pub apply_env_overrides_lem :
    (env : Environment) (cfg cfg' : Config)
    → apply_env_overrides env cfg ≡ got cfg'
    → (http_port : ℤ) × (https_port : ℤ) × (tls : Bool) × (auth : Bool) × (limits : Bool) × Parsed
        (env.get "GATEWAY_HTTP_PORT")
        env.atoi
        cfg.server.http_port
        http_port
      × Parsed (env.get "GATEWAY_HTTPS_PORT") env.atoi cfg.server.https_port https_port
      × Parsed (env.get "GATEWAY_TLS_ENABLED") env.parse_bool cfg.server.tls_enabled tls
      × Parsed (env.get "GATEWAY_AUTH_ENABLED") env.parse_bool cfg.authorization.enabled auth
      × Parsed (env.get "GATEWAY_RATELIMIT_ENABLED") env.parse_bool cfg.rate_limit.enabled limits
      × (cfg' ≡ overridden env http_port https_port tls auth limits cfg)
unfolding apply_env_overrides
apply_env_overrides_lem env cfg cfg' h =
    let s = cfg.server in
    let (p1, e1, h1) =
      step "HTTP_PORT" env.atoi (env.get "GATEWAY_HTTP_PORT") s.http_port
        (λ p. set_server cfg (record s { http_port = p })) cfg _ refl h in
    let s1 = record s { http_port = p1 } in
    let c1 = set_server cfg s1 in
    let (p2, e2, h2) =
      step "HTTPS_PORT" env.atoi (env.get "GATEWAY_HTTPS_PORT") s.https_port
        (λ p. set_server c1 (record s1 { https_port = p })) c1 _ refl h1 in
    let s2 = record s1 { https_port = p2 } in
    let c2 = set_server cfg s2 in
    let (b3, e3, h3) =
      step "TLS_ENABLED" env.parse_bool (env.get "GATEWAY_TLS_ENABLED") s.tls_enabled
        (λ b. set_server c2 (record s2 { tls_enabled = b })) c2 _ refl h2 in
    let c3 = set_server cfg (record s2 { tls_enabled = b3 }) in
    let (b5, b7, e5, e7, same) =
      from_auth env (override_logging env (override_tls_files env c3)) cfg' h3 in
    let texts = ap (override_logging env) (tls_files env c3) ∙ logging env (tls_override env c3) in
    (
      p1,
      p2,
      b3,
      b5,
      b7,
      e1,
      e2,
      e3,
      subst (λ c. Parsed (env.get "GATEWAY_AUTH_ENABLED") env.parse_bool c.authorization.enabled b5)
          texts e5,
      subst
          (λ c. Parsed (env.get "GATEWAY_RATELIMIT_ENABLED") env.parse_bool c.rate_limit.enabled b7)
          texts e7,
      subst (λ c. cfg' ≡ after_auth env b5 b7 c) texts same,
    )
