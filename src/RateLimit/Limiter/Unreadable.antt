-- ===== src/RateLimit/Limiter/Unreadable.antt =====
-- What internal/ratelimit/limiter.go does where the storage cannot be read.
use api_gateway_go.Base.{
  ℕ, ◌≡◌, refl, Option, none, some, String, ◌==◌, string_eq, bytes_eq, Bytes, if◌then◌else◌,
}
use api_gateway_go.Config.{LimitDefinition}
use api_gateway_go.RateLimit.Float64.{Float64}
use api_gateway_go.RateLimit.Key
use api_gateway_go.RateLimit.Key.{generate_key}
use api_gateway_go.RateLimit.Limiter.{
  Storage, checked, storage_failed, unlimited, rejected, bucket_for, get_bucket, decide,
  count_request, limiter_allow,
}
use api_gateway_go.RateLimit.Limiter.Laws.{limiter_allow-counted}

-- Where the key exists, the window parses and the storage cannot be read, the limiter stores
-- nothing: in the mode `fail-open` the request passes as if no limit were set, in any other mode it
-- is refused for the whole window.
pub limiter_allow-unreadable :
    (fl : Float64) {S : Type 0} (storage : Storage fl.F S) (parse_duration : String → Option ℕ)
    (now : ℕ) (mode : String) (r : Key.Request) (limit_def : LimitDefinition) (s : S) (key : Bytes)
    (window : ℕ)
    → generate_key limit_def.key r ≡ some key
    → parse_duration limit_def.window ≡ some window
    → storage.read now key s ≡ none
    → limiter_allow fl storage parse_duration now mode r limit_def s ≡ (
      (if mode == "fail-open"
          then checked (unlimited now limit_def)
          else storage_failed (rejected now window limit_def)),
      s,
    )
unfolding count_request get_bucket bucket_for decide
limiter_allow-unreadable fl storage parse_duration now mode r limit_def s key window hk hw down =
    rw (limiter_allow-counted fl storage parse_duration now mode r limit_def s key window hk hw)
      (rw down refl)
