-- ===== src/Config/Validate.antt =====
-- `Validate` of internal/config/config.go. A check gives the first error that it meets, `none` is
-- nil. `missing` says of which files `os.Stat` reports that they do not exist.
pub mod Laws
mod Tests
use api_gateway_go.Base.{
  ℕ, suc, ◌+◌, ℤ, pos, negsuc, Bool, true, false, not, ◌&&◌, ◌||◌, Option, none, some, String, List,
  [], ◌∷◌, Bytes, codes, ltb, leb, ◌==◌, string_eq, bytes_eq, if◌then◌else◌, to_lower,
}
use api_gateway_go.Config.{
  Config, ServerConfig, LoggingConfig, AuthorizationConfig, RateLimitConfig, RouteConfig,
}

-- One constructor for each message; the number is the route's index.
pub data ConfigError : Type 0 where
  invalid_http_port invalid_https_port no_cert_file no_key_file : ConfigError
  cert_file_missing key_file_missing read_timeout_not_positive write_timeout_not_positive :
      ConfigError
  invalid_log_level invalid_log_format : ConfigError
  no_cookie_name invalid_algorithm no_key : ConfigError
  invalid_backend no_redis_address invalid_failure_mode : ConfigError
  no_path_pattern no_methods no_backend_url invalid_auth_policy no_roles : ℕ → ConfigError

-- `if test { return err }`, and on to the rest.
unfoldable pub refuse_if : Bool → ConfigError → Option ConfigError → Option ConfigError
refuse_if test e rest = if test then some e else rest

-- One group of checks, and on to the rest if there is no error.
unfoldable pub and_then : Option ConfigError → Option ConfigError → Option ConfigError
and_then none rest = rest
and_then (some e) rest = some e

-- `n <= 0`
unfoldable pub not_positive : ℤ → Bool
not_positive (pos n) = not (ltb 0 n)
not_positive (negsuc n) = true

-- `n > 65535`
unfoldable pub above_ports : ℤ → Bool
above_ports (pos n) = ltb 65535 n
above_ports (negsuc n) = false

unfoldable pub one_of : String → List String → Bool
one_of s [] = false
one_of s (t ∷ ts) = t == s || one_of s ts

unfoldable pub one_of_bytes : Bytes → List Bytes → Bool
one_of_bytes s [] = false
one_of_bytes s (t ∷ ts) = t == s || one_of_bytes s ts

abbrev pub valid_levels : List Bytes
valid_levels = codes "debug" ∷ codes "info" ∷ codes "warn" ∷ codes "error" ∷ codes "fatal" ∷ []

abbrev pub valid_algorithms : List String
valid_algorithms =
    "RS256" ∷ "RS384" ∷ "RS512" ∷ "HS256" ∷ "HS384" ∷ "HS512" ∷ "ES256" ∷ "ES384" ∷ "ES512" ∷ []

abbrev pub valid_auth_policies : List String
valid_auth_policies = "public" ∷ "authenticated" ∷ "role-based" ∷ "permission-based" ∷ []

unfoldable pub validate_tls : (String → Bool) → ServerConfig → Option ConfigError
unfolding refuse_if
validate_tls missing c = refuse_if (c.tls_cert_file == "") no_cert_file (
    refuse_if (c.tls_key_file == "") no_key_file (
      refuse_if (missing c.tls_cert_file) cert_file_missing
        (refuse_if (missing c.tls_key_file) key_file_missing none)))

unfoldable pub validate_server : (String → Bool) → ServerConfig → Option ConfigError
unfolding refuse_if and_then validate_tls not_positive above_ports
validate_server missing c =
    refuse_if (not_positive c.http_port || above_ports c.http_port) invalid_http_port (
      refuse_if (not_positive c.https_port || above_ports c.https_port) invalid_https_port (
        and_then (if c.tls_enabled then validate_tls missing c else none) (
          refuse_if (not_positive c.read_timeout) read_timeout_not_positive
            (refuse_if (not_positive c.write_timeout) write_timeout_not_positive none))))

unfoldable pub validate_logging : LoggingConfig → Option ConfigError
unfolding refuse_if one_of_bytes
validate_logging c =
    refuse_if (not (one_of_bytes (to_lower c.level) valid_levels)) invalid_log_level
      (refuse_if (not (c.format == "json") && not (c.format == "text")) invalid_log_format none)

unfoldable pub validate_authorization : AuthorizationConfig → Option ConfigError
unfolding refuse_if one_of
validate_authorization c =
    if c.enabled
    then refuse_if (c.cookie_name == "") no_cookie_name (
        refuse_if (not (one_of c.jwt_signing_algorithm valid_algorithms)) invalid_algorithm
          (refuse_if (c.jwt_public_key_file == "" && c.jwt_shared_secret == "") no_key none))
    else none

unfoldable pub validate_rate_limit : RateLimitConfig → Option ConfigError
unfolding refuse_if
validate_rate_limit c =
    if c.enabled
    then refuse_if (not (c.backend == "memory") && not (c.backend == "redis")) invalid_backend (
        refuse_if (c.backend == "redis" && c.redis_addr == "") no_redis_address (
          refuse_if (not (c.failure_mode == "fail-open") && not (c.failure_mode == "fail-closed"))
            invalid_failure_mode none))
    else none

abbrev is_nil {ℓ} : {A : Type ℓ} → List A → Bool
is_nil [] = true
is_nil (x ∷ xs) = false

unfoldable pub validate_route : ℕ → RouteConfig → Option ConfigError
unfolding refuse_if one_of
validate_route i route = refuse_if (is_nil route.path_pattern) (no_path_pattern i) (
    refuse_if (is_nil route.methods) (no_methods i) (
      refuse_if (is_nil route.backend_url) (no_backend_url i) (
        refuse_if
          (not (route.auth_policy == "") && not (one_of route.auth_policy valid_auth_policies))
          (invalid_auth_policy i)
          (refuse_if (route.auth_policy == "role-based" && is_nil route.required_roles) (no_roles i)
            none))))

-- The loop over the routes, from the index `i` on.
unfoldable pub validate_routes : ℕ → List RouteConfig → Option ConfigError
unfolding and_then
validate_routes i [] = none
validate_routes i (route ∷ routes) =
    and_then (validate_route i route) (validate_routes (suc i) routes)

-- `Validate`
unfoldable pub validate : (String → Bool) → Config → Option ConfigError
unfolding and_then
validate missing c = and_then (validate_server missing c.server) (
    and_then (validate_logging c.logging) (
      and_then (validate_authorization c.authorization)
        (and_then (validate_rate_limit c.rate_limit) (validate_routes 0 c.routes))))
