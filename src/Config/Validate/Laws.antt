-- ===== src/Config/Validate/Laws.antt =====
-- Which configurations `Validate` of internal/config/config.go accepts.
use api_gateway_go.Base.{
  ℕ, suc, ◌≤◌, ◌<◌, ◌≡◌, ◌≢◌, ◌↔◌, ◌⊎◌, refl, ℤ, pos, negsuc, Bool, true, false, ◌||◌, Option, none,
  some, String, List, [], ◌∷◌, Bytes, string_eq, bytes_eq, bytes_beq_iff, eq_iff, arith, to_lower,
  All, Elem,
}
use api_gateway_go.Config.{
  Config, ServerConfig, LoggingConfig, AuthorizationConfig, RateLimitConfig, RouteConfig,
}
use api_gateway_go.Config.Validate.{
  ConfigError, refuse_if, and_then, not_positive, above_ports, one_of, one_of_bytes, valid_levels,
  valid_algorithms, valid_auth_policies, is_nil, validate_tls, validate_server, validate_logging,
  validate_authorization, validate_rate_limit, validate_route, validate_routes, validate,
}

abbrev pub IsPositive : ℤ → Type 0
IsPositive (pos n) = 0 < n
IsPositive (negsuc n) = ⊥

abbrev pub IsPort : ℤ → Type 0
IsPort (pos n) = (0 < n) × (n ≤ 65535)
IsPort (negsuc n) = ⊥

abbrev pub IsValidServer : (String → Bool) → ServerConfig → Type 0
IsValidServer missing c =
    IsPort c.http_port
    × IsPort c.https_port
    × (c.tls_enabled ≡ true
        → (c.tls_cert_file ≢ "")
          × (c.tls_key_file ≢ "")
          × (missing c.tls_cert_file ≡ false)
          × (missing c.tls_key_file ≡ false))
    × IsPositive c.read_timeout
    × IsPositive c.write_timeout

abbrev pub IsValidLogging : LoggingConfig → Type 0
IsValidLogging c =
    Elem (to_lower c.level) valid_levels × ((c.format ≡ "json") ⊎ (c.format ≡ "text"))

abbrev pub IsValidAuthorization : AuthorizationConfig → Type 0
IsValidAuthorization c =
    c.enabled ≡ true
    → (c.cookie_name ≢ "")
      × Elem c.jwt_signing_algorithm valid_algorithms
      × ((c.jwt_public_key_file ≢ "") ⊎ (c.jwt_shared_secret ≢ ""))

abbrev pub IsValidRateLimit : RateLimitConfig → Type 0
IsValidRateLimit c =
    c.enabled ≡ true
    → ((c.backend ≡ "memory") ⊎ ((c.backend ≡ "redis") × (c.redis_addr ≢ "")))
      × ((c.failure_mode ≡ "fail-open") ⊎ (c.failure_mode ≡ "fail-closed"))

abbrev pub IsValidRoute : RouteConfig → Type 0
IsValidRoute r =
    (r.path_pattern ≢ [])
    × (r.methods ≢ [])
    × (r.backend_url ≢ [])
    × ((r.auth_policy ≡ "") ⊎ Elem r.auth_policy valid_auth_policies)
    × (r.auth_policy ≡ "role-based" → r.required_roles ≢ [])

-- A valid configuration, written out.
pub record IsValid (missing : String → Bool) (c : Config) : Type 0 where
  pub server : IsValidServer missing c.server
  pub logging : IsValidLogging c.logging
  pub authorization : IsValidAuthorization c.authorization
  pub rate_limit : IsValidRateLimit c.rate_limit
  pub routes : All IsValidRoute c.routes

not_positive_iff : (z : ℤ) → (not_positive z ≡ false) ↔ IsPositive z
unfolding not_positive
not_positive_iff (pos n) = ground arith
not_positive_iff (negsuc n) = ground arith

IsPort-iff : (z : ℤ) → ((not_positive z || above_ports z) ≡ false) ↔ IsPort z
unfolding not_positive above_ports
IsPort-iff (pos n) = ground arith
IsPort-iff (negsuc n) = ground arith

one_of_iff : (s : String) (ts : List String) → (one_of s ts ≡ true) ↔ Elem s ts
unfolding one_of
one_of_iff s [] = ground arith
one_of_iff s (t ∷ ts) = ground (arith, one_of_iff s ts, eq_iff t s)

one_of_bytes_iff : (s : Bytes) (ts : List Bytes) → (one_of_bytes s ts ≡ true) ↔ Elem s ts
unfolding one_of_bytes
one_of_bytes_iff s [] = ground arith
one_of_bytes_iff s (t ∷ ts) = ground (arith, one_of_bytes_iff s ts, bytes_beq_iff t s)

is_nil_iff {ℓ} : {A : Type ℓ} (xs : List A) → (is_nil xs ≡ false) ↔ (xs ≢ [])
is_nil_iff [] = ((λ h. cc h), λ h. absurd (h refl))
is_nil_iff (x ∷ xs) = ((λ h e. cc e), λ h. refl)

refuse_if_iff :
    (test : Bool) (e : ConfigError) (rest : Option ConfigError)
    → (refuse_if test e rest ≡ none) ↔ ((test ≡ false) × (rest ≡ none))
unfolding refuse_if
refuse_if_iff test e rest = ground arith

and_then_iff :
    (o rest : Option ConfigError) → (and_then o rest ≡ none) ↔ ((o ≡ none) × (rest ≡ none))
unfolding and_then
and_then_iff none rest = ground arith
and_then_iff (some e) rest = ground arith

validate_server_iff :
    (missing : String → Bool) (c : ServerConfig)
    → (validate_server missing c ≡ none) ↔ IsValidServer missing c
unfolding validate_server validate_tls refuse_if and_then
validate_server_iff missing c = ground (
  arith,
  IsPort-iff c.http_port,
  IsPort-iff c.https_port,
  not_positive_iff c.read_timeout,
  not_positive_iff c.write_timeout,
  eq_iff c.tls_cert_file "",
  eq_iff c.tls_key_file "",
)

validate_logging_iff : (c : LoggingConfig) → (validate_logging c ≡ none) ↔ IsValidLogging c
unfolding validate_logging refuse_if
validate_logging_iff c = ground (
  arith,
  one_of_bytes_iff (to_lower c.level) valid_levels,
  eq_iff c.format "json",
  eq_iff c.format "text",
)

validate_authorization_iff :
    (c : AuthorizationConfig) → (validate_authorization c ≡ none) ↔ IsValidAuthorization c
unfolding validate_authorization refuse_if
validate_authorization_iff c = ground (
  arith,
  eq_iff c.cookie_name "",
  one_of_iff c.jwt_signing_algorithm valid_algorithms,
  eq_iff c.jwt_public_key_file "",
  eq_iff c.jwt_shared_secret "",
)

memory_not_redis : (s : String) → s ≡ "memory" → s ≡ "redis" → ⊥
memory_not_redis s e = rw e (λ h. cc h)

validate_rate_limit_iff :
    (c : RateLimitConfig) → (validate_rate_limit c ≡ none) ↔ IsValidRateLimit c
unfolding validate_rate_limit refuse_if
validate_rate_limit_iff c = ground (
  arith,
  memory_not_redis c.backend,
  eq_iff c.backend "memory",
  eq_iff c.backend "redis",
  eq_iff c.redis_addr "",
  eq_iff c.failure_mode "fail-open",
  eq_iff c.failure_mode "fail-closed",
)

validate_route_iff : (i : ℕ) (r : RouteConfig) → (validate_route i r ≡ none) ↔ IsValidRoute r
unfolding validate_route refuse_if
validate_route_iff i r = ground (
  arith,
  is_nil_iff r.path_pattern,
  is_nil_iff r.methods,
  is_nil_iff r.backend_url,
  is_nil_iff r.required_roles,
  eq_iff r.auth_policy "",
  one_of_iff r.auth_policy valid_auth_policies,
  eq_iff r.auth_policy "role-based",
)

validate_routes_iff :
    (i : ℕ) (rs : List RouteConfig) → (validate_routes i rs ≡ none) ↔ All IsValidRoute rs
unfolding validate_routes
validate_routes_iff i [] = ground arith
validate_routes_iff i (r ∷ rs) = ground (
  arith,
  and_then_iff (validate_route i r) (validate_routes (suc i) rs),
  validate_route_iff i r,
  validate_routes_iff (suc i) rs,
)

-- `Validate` accepts a configuration exactly when it is valid: ports in range, TLS files named and
-- present where TLS is on, positive timeouts, a known log level and format, a cookie name, a known
-- algorithm and some key where authorization is on, a known backend and failure mode where rate
-- limiting is on, and for each route a pattern, a method, a backend and a known policy, with a role
-- where the policy is role-based.
pub validate_iff :
    (missing : String → Bool) (c : Config) → (validate missing c ≡ none) ↔ IsValid missing c
unfolding validate
validate_iff missing c = ground (
  arith,
  validate_server_iff missing c.server,
  validate_logging_iff c.logging,
  validate_authorization_iff c.authorization,
  validate_rate_limit_iff c.rate_limit,
  validate_routes_iff 0 c.routes,
)
