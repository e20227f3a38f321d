-- ===== src/RateLimit/Middleware.antt =====
-- internal/ratelimit/middleware.go: the limits of a request, checked one after the other.
-- The logs and metrics are left out; a response keeps its headers and, for a 429, the result in its
-- body. `Duration.Seconds()` cut to an integer is the division by 10⁹.
pub mod Laws
pub mod Charging
pub mod Failure
mod Tests
use api_gateway_go.Base.{
  ℕ, ◌/◌, Bool, true, false, not, ◌&&◌, ◌||◌, Option, none, some, String, List, [], ◌∷◌, ◌++◌,
  Bytes, eqb, ltb, ◌==◌, string_eq, bytes_eq, ℤ, if◌then◌else◌,
}
use api_gateway_go.Config.{LimitDefinition, RateLimitConfig, RouteConfig}
use api_gateway_go.Router.Text.{prefix?}
use api_gateway_go.RateLimit.Float64.{Float64}
use api_gateway_go.RateLimit.Key
use api_gateway_go.RateLimit.Limiter.{
  Storage, Result, Verdict, checked, invalid_window, storage_failed, limiter_allow,
}

pub record Request : Type 0 where
  pub method : Bytes
  pub keyed : Key.Request

-- The response headers that the middleware sets; `none` is a header that is not set.
pub record Headers : Type 0 where
  pub limit : Option ℕ
  pub remaining : Option ℤ
  pub reset : Option ℕ
  pub retry_after : Option ℕ
  pub content_type : Option String

abbrev pub no_headers : Headers
no_headers = record {
  limit = none;
  remaining = none;
  reset = none;
  retry_after = none;
  content_type = none;
}

-- What the client gets: the answer of the next handler, or a 429 with the details of a result.
pub data Outcome : Type 0 where
  next : Headers → Outcome
  too_many_requests : Headers → LimitDefinition → Option Result → Outcome

unfoldable pub ends_with_star : Bytes → Bool
ends_with_star [] = false
ends_with_star (b ∷ []) = eqb b b'*'
ends_with_star (b ∷ c ∷ s) = ends_with_star (c ∷ s)

unfoldable pub drop_last : Bytes → Bytes
drop_last [] = []
drop_last (b ∷ []) = []
drop_last (b ∷ c ∷ s) = b ∷ drop_last (c ∷ s)

unfoldable pub path_matches : Bytes → Bytes → Bool
path_matches pattern path =
    path == pattern || (ends_with_star pattern && prefix? (drop_last pattern) path)

unfoldable pub lists_method : Bytes → List Bytes → Bool
lists_method method [] = false
lists_method method (m ∷ methods) = m == method || lists_method method methods

-- `len(route.Methods) == 0`, or the loop over them.
abbrev pub allows_method : Bytes → List Bytes → Bool
allows_method method [] = true
allows_method method (m ∷ methods) = lists_method method (m ∷ methods)

-- `routeMatches`
unfoldable pub route_matches : Request → RouteConfig → Bool
route_matches r route =
    path_matches route.path_pattern r.keyed.path && allows_method r.method route.methods

-- The loop over the routes: the limits of the first that matches.
unfoldable pub route_limits : Request → List RouteConfig → List LimitDefinition
route_limits r [] = []
route_limits r (route ∷ routes) =
    if route_matches r route then route.rate_limits else route_limits r routes

-- `getApplicableLimits`
unfoldable pub get_applicable_limits :
    Request → RateLimitConfig → List RouteConfig → List LimitDefinition
get_applicable_limits r cfg routes = cfg.global_limits ++ route_limits r routes

abbrev pub seconds : ℕ → ℕ
seconds d = d / 1000000000

unfoldable pub add_rate_limit_headers : Result → Headers → Headers
add_rate_limit_headers result h = record h {
  limit = some result.limit;
  remaining = some result.remaining;
  reset = some (seconds result.reset);
  retry_after =
      (if not result.allowed && ltb 0 result.retry_after
        then some (seconds result.retry_after)
        else h.retry_after);
}

-- `writeRateLimitError`
unfoldable pub write_rate_limit_error : LimitDefinition → Option Result → Headers → Outcome
write_rate_limit_error limit_def none h =
    too_many_requests (record h { content_type = some "application/json" }) limit_def none
write_rate_limit_error limit_def (some result) h =
    too_many_requests
      (record h {
        content_type = some "application/json";
        retry_after =
            (if ltb 0 result.retry_after then some (seconds result.retry_after) else h.retry_after);
      })
      limit_def (some result)

-- One turn of the loop, once the limiter has answered: the headers to go on with, or the answer.
pub data Turn : Type 0 where
  continue : Headers → Turn
  return : Outcome → Turn

unfoldable pub on_error : String → LimitDefinition → Headers → Turn
unfolding write_rate_limit_error
on_error failure_mode limit_def h =
    if failure_mode == "fail-closed"
    then return (write_rate_limit_error limit_def none h)
    else continue h

unfoldable pub turn : String → LimitDefinition → Verdict → Headers → Turn
unfolding on_error
turn failure_mode limit_def invalid_window h = on_error failure_mode limit_def h
turn failure_mode limit_def (storage_failed result) h = on_error failure_mode limit_def h
turn failure_mode limit_def (checked result) h =
    let h' = add_rate_limit_headers result h in
    if result.allowed
    then continue h'
    else return (write_rate_limit_error limit_def (some result) h')

module _ (fl : Float64) {S : Type 0} (storage : Storage fl.F S)
    (parse_duration : String → Option ℕ) where
  -- The loop over the limits.
  unfoldable pub check_limits :
      ℕ → String → Request → List LimitDefinition → Headers → S → Outcome × S
  check_limits now failure_mode r [] h s = (next h, s)
  check_limits now failure_mode r (limit_def ∷ limits) h s =
      let (verdict, s') =
        limiter_allow fl storage parse_duration now failure_mode r.keyed limit_def s in
      elim (turn failure_mode limit_def verdict h) [
        | continue h' ↦ check_limits now failure_mode r limits h' s'
        | return answer ↦ (answer, s')
      ]

  -- `Middleware`
  unfoldable pub rate_limit : RateLimitConfig → List RouteConfig → ℕ → Request → S → Outcome × S
  rate_limit cfg routes now r s =
      if cfg.enabled
      then check_limits now cfg.failure_mode r (get_applicable_limits r cfg routes) no_headers s
      else (next no_headers, s)
