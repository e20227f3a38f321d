-- ===== src/RateLimit/Limiter/Tests.antt =====
-- The theorems on the limiter at concrete limits and requests.
use api_gateway_go.Base.{
  ℕ, Option, none, some, String, [], codes, ◌==◌, string_eq, if◌then◌else◌, bytes_eq,
}
use api_gateway_go.Config.{LimitDefinition}
use api_gateway_go.Ttl
use api_gateway_go.RateLimit.Key
use api_gateway_go.RateLimit.Limiter.{Memory}

abbrev visitor : Key.Request
visitor = record {
  forwarded_for = [];
  real_ip = [];
  remote_addr = codes "10.0.0.7:80";
  user_id = [];
  path = codes "/";
}

-- Three requests a minute.
abbrev per_minute : LimitDefinition
per_minute = record { key = codes "ip"; limit = 3; window = "1m"; burst = 0 }

abbrev parse_minute : String → Option ℕ
parse_minute s = if s == "1m" then some 60000000000 else none

abbrev nobody : Memory ℕ
nobody = []
