-- ===== src/RateLimit/TokenBucket/Tests.antt =====
-- The theorems on token buckets at a concrete one, with whole numbers for `float64`.
use api_gateway_go.Base.{ℕ}
use api_gateway_go.RateLimit.TokenBucket.{TokenBucket}

-- Three of five tokens left, two more a second, at the time 10.
abbrev half_full : TokenBucket ℕ
half_full = record { capacity = 5; refill_rate = 2; tokens = 3; last_refill = 10 }
