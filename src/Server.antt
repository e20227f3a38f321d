-- ===== src/Server.antt =====
-- internal/server/server.go: the gateway, put together from its parts.
-- `New` reports the errors of its parts only in the log: the part is left out. Listening, signals and
-- the shutdown of the HTTP servers are net/http's and the operating system's.
pub mod Stages
pub mod Pipeline
pub mod Tls
pub mod Reach
pub mod Inner
pub mod Answers
pub mod Laws
pub mod Gates
pub mod Refused
pub mod Panic
mod Tests
use api_gateway_go.Base.{
  ℕ, Bool, true, false, Option, none, some, String, List, [], ◌∷◌, ◌==◌, string_eq, if◌then◌else◌,
}
use api_gateway_go.Config.{Config, RateLimitConfig, SecurityConfig}
use api_gateway_go.Router
use api_gateway_go.Router.{Router, RegexpLibrary, load_routes}
use api_gateway_go.Auth.Jwt.{Key}
use api_gateway_go.Auth.Extractor.{ExtractorConfig}
use api_gateway_go.Auth.Handler
use api_gateway_go.Auth.Handler.{new_middleware}
use api_gateway_go.Health
use api_gateway_go.Health.{Checker, rate_limiter_checker}

-- `NewLimiter`; false is its error. `redis` says whether the Redis storage can be made, which needs
-- an answer of the Redis server.
unfoldable pub new_limiter : (RateLimitConfig → Bool) → RateLimitConfig → Bool
new_limiter redis cfg =
    if cfg.backend == "memory" then true else if cfg.backend == "redis" then redis cfg else false

-- `rate_limiter` says whether the server has one.
pub record Server (W : Type 0) : Type 0 where
  pub config : Config
  pub health_manager : Health.Manager W
  pub router : Router
  pub rate_limiter : Bool
  pub auth_middleware : Option Handler.Middleware

abbrev pub limiter_of : (RateLimitConfig → Bool) → Config → Bool
limiter_of redis cfg = if cfg.rate_limit.enabled then new_limiter redis cfg.rate_limit else false

abbrev pub auth_of : (String → Option Key) → Config → ExtractorConfig → Option Handler.Middleware
auth_of read_pem cfg security =
    if cfg.authorization.enabled then new_middleware read_pem cfg.authorization security else none

-- `New`. `ping` is the limiter's, and `security` the configuration that the token extractor reads.
unfoldable pub new :
    {W : Type 0}
    → RegexpLibrary
    → (RateLimitConfig → Bool)
    → (String → Option Key)
    → ExtractorConfig
    → (W → Option String)
    → Config
    → Health.Manager W
    → Server W
new lib redis read_pem security ping cfg health =
    let limiter = limiter_of redis cfg in
    record {
      config = cfg;
      health_manager =
          (if limiter
            then Health.register "ratelimit" (rate_limiter_checker ping) health
            else health);
      router = (load_routes lib cfg.routes Router.new).0;
      rate_limiter = limiter;
      auth_middleware = auth_of read_pem cfg security;
    }
