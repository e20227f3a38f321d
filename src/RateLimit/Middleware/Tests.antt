-- ===== src/RateLimit/Middleware/Tests.antt =====
-- The theorems on the rate-limiting middleware at concrete routes and requests.
use api_gateway_go.Base.{
  not, ◌||◌, ◌==◌, string_eq, ℕ, ◌≡◌, ◌⊎◌, refl, true, false, Option, none, some, String, [], ◌∷◌,
  codes, Elem, arith,
}
use api_gateway_go.Config.{LimitDefinition, RateLimitConfig, RouteConfig}
use api_gateway_go.RateLimit.Float64.{whole}
use api_gateway_go.RateLimit.Limiter.{Storage, Memory, memory_storage}
use api_gateway_go.RateLimit.Middleware.{Request, ends_with_star, get_applicable_limits, rate_limit}
use api_gateway_go.RateLimit.Middleware.Laws.{IsParameterised, parameterised_limits_skipped}
use api_gateway_go.RateLimit.Middleware.Failure.{all_keyless, rate_limit_unreadable}
use api_gateway_go.RateLimit.Middleware.Charging.{Passes, Refused, reaches_next, rate_limit_lem}

abbrev get_user : Request
get_user = record {
  method = codes "GET";
  keyed = record {
    forwarded_for = [];
    real_ip = [];
    remote_addr = codes "10.0.0.7:80";
    user_id = [];
    path = codes "/users/7";
  };
}

abbrev strict : LimitDefinition
strict = record { key = codes "ip"; limit = 1; window = "1m"; burst = 0 }

abbrev user_route : RouteConfig
user_route = record {
  path_pattern = codes "/users/{id}";
  methods = codes "GET" ∷ [];
  backend_url = codes "http://users";
  timeout = 0;
  auth_policy = "";
  required_roles = [];
  rate_limits = strict ∷ [];
  strip_prefix = [];
}

abbrev limits_on : RateLimitConfig
limits_on = record {
  enabled = true;
  backend = "memory";
  redis_addr = "";
  redis_password = "";
  redis_db = 0;
  failure_mode = "fail-open";
  global_limits = strict ∷ [];
}

user_route-IsParameterised : IsParameterised user_route
unfolding ends_with_star
user_route-IsParameterised = (ground arith, refl)

plain_path : Elem b'{' (codes "/users/7") → ⊥
plain_path e = ground (e, arith)

parameterised_limits_skipped_example :
    get_applicable_limits get_user limits_on (user_route ∷ []) ≡ strict ∷ []
parameterised_limits_skipped_example =
    parameterised_limits_skipped get_user limits_on (user_route ∷ [])
      (user_route-IsParameterised, tt) plain_path

abbrev no_duration : String → Option ℕ
no_duration s = none

rate_limit_lem_example :
    let (outcome, s') =
      rate_limit whole (memory_storage ℕ) no_duration limits_on (user_route ∷ []) 5 get_user [] in
    let limits = get_applicable_limits get_user limits_on (user_route ∷ []) in
    ((reaches_next outcome ≡ true)
      × Passes whole (memory_storage ℕ) no_duration 5 "fail-open" get_user limits [] s')
    ⊎ ((reaches_next outcome ≡ false)
        × Refused whole (memory_storage ℕ) no_duration 5 "fail-open" get_user limits [] s')
rate_limit_lem_example =
    rate_limit_lem whole (memory_storage ℕ) no_duration 5 "fail-open" get_user limits_on
      (user_route ∷ []) [] refl refl

-- A storage that is down.
abbrev broken : Storage ℕ (Memory ℕ)
broken = record { read = λ now key s. none; write = λ now key state ttl s. (s, false) }

abbrev one_minute : String → Option ℕ
one_minute s = some 60000000000

rate_limit_unreadable_example :
    let (outcome, s') =
      rate_limit whole broken one_minute limits_on (user_route ∷ []) 5 get_user [] in
    (reaches_next outcome ≡ (
      not (limits_on.failure_mode == "fail-closed")
      || all_keyless get_user (get_applicable_limits get_user limits_on (user_route ∷ []))))
    × (s' ≡ [])
rate_limit_unreadable_example =
    rate_limit_unreadable whole broken one_minute 5 "fail-open" get_user (λ key s. refl) limits_on
      (user_route ∷ []) [] refl refl
