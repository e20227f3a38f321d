-- ===== src/RateLimit/Limiter/Laws.antt =====
-- The limit that internal/ratelimit/limiter.go enforces.
use api_gateway_go.Base.{
  ℕ, zero, suc, ◌*◌, ◌≤◌, ◌≡◌, refl, Bool, false, Option, some, String, string_eq, bytes_eq, Bytes,
  if◌then◌else◌,
}
use api_gateway_go.Config.{LimitDefinition}
use api_gateway_go.RateLimit.Float64.{Float64, IsIeee, max_exact}
use api_gateway_go.RateLimit.TokenBucket.{BucketState}
use api_gateway_go.RateLimit.Key
use api_gateway_go.RateLimit.Key.{generate_key}
use api_gateway_go.RateLimit.Limiter.{
  max_int64, Storage, Memory, memory_storage, Verdict, checked, storage_failed, invalid_window,
  capacity_of, count_request, limiter_allow,
}

pub limiter_allow-counted :
    (fl : Float64) {S : Type 0} (storage : Storage fl.F S) (parse_duration : String → Option ℕ)
    (now : ℕ) (mode : String) (r : Key.Request) (limit_def : LimitDefinition) (s : S) (key : Bytes)
    (window : ℕ)
    → generate_key limit_def.key r ≡ some key
    → parse_duration limit_def.window ≡ some window
    → limiter_allow fl storage parse_duration now mode r limit_def s
      ≡ count_request fl storage now mode key limit_def window s
unfolding limiter_allow
limiter_allow-counted fl storage parse_duration now mode r limit_def s key window hk hw =
    rw (limiter_allow, hk, hw) refl

-- A limit that is counted in floating point and in 64-bit durations without a rounding, an
-- infinity or an overflow.
pub record IsCounted (limit_def : LimitDefinition) (window : ℕ) : Type 0 where
  pub capacity_exact : capacity_of limit_def ≤ max_exact
  pub limit_exact : limit_def.limit ≤ max_exact
  pub window_some : 1 ≤ window
  pub window_fits : window * 2 ≤ max_int64

module _ (fl : Float64) (ieee : IsIeee fl) where
  open fl use {F, of_ℕ}

  -- The state that a bucket of whole tokens saves.
  abbrev saved : ℕ → F → ℕ → ℕ → BucketState F
  saved c rate k now = record {
    capacity = of_ℕ c;
    refill_rate = rate;
    tokens = of_ℕ k;
    last_refill = now;
  }

  -- Whether the verdict lets the request pass.
  abbrev pub passes : Verdict → Bool
  passes (checked result) = result.allowed
  passes invalid_window = false
  passes (storage_failed result) = false

  abbrev rate_of : LimitDefinition → ℕ → F
  rate_of limit_def window = fl.div (of_ℕ limit_def.limit) (fl.seconds window)

  -- The counter of a key: the tokens left where the key has none, or has one saved at `now`.
  abbrev Holds : ℕ → Bytes → LimitDefinition → ℕ → ℕ → Option (BucketState F) → Type 0
  Holds now key limit_def window k found =
      found ≡ some (saved (capacity_of limit_def) (rate_of limit_def window) k now)

  -- How many of `n` requests that come at one instant are allowed.
  pub allowed_requests :
      (String → Option ℕ) → ℕ → String → Key.Request → LimitDefinition → ℕ → Memory F → ℕ
  allowed_requests parse_duration now mode r limit_def zero ms = 0
  allowed_requests parse_duration now mode r limit_def (suc n) ms =
      let (verdict, ms') =
        limiter_allow fl (memory_storage F) parse_duration now mode r limit_def ms in
      let rest = allowed_requests parse_duration now mode r limit_def n ms' in
      if passes verdict then suc rest else rest
