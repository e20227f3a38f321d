-- ===== src/RateLimit/TokenBucket.antt =====
-- internal/ratelimit/tokenbucket.go: the token bucket. The methods read the clock at `now`.
pub mod Laws
mod Tests
use api_gateway_go.Base.{ℕ, ◌+◌, Bool, true, false, ℤ, if◌then◌else◌}
use api_gateway_go.RateLimit.Float64.{Float64}

pub record TokenBucket (F : Type 0) : Type 0 where
  pub capacity : F
  pub refill_rate : F
  pub tokens : F
  pub last_refill : ℕ

pub record BucketState (F : Type 0) : Type 0 where
  pub capacity : F
  pub refill_rate : F
  pub tokens : F
  pub last_refill : ℕ

module _ (fl : Float64) where
  open fl use {F, of_ℕ, add, sub, mul, div, le, elapsed, duration, floor}

  unfoldable pub new_token_bucket : ℕ → ℕ → F → TokenBucket F
  new_token_bucket now capacity refill_rate = record {
    capacity = of_ℕ capacity;
    refill_rate = refill_rate;
    tokens = of_ℕ capacity;
    last_refill = now;
  }

  unfoldable pub new_token_bucket_from_state : ℕ → F → F → ℕ → TokenBucket F
  new_token_bucket_from_state capacity refill_rate tokens last_refill = record {
    capacity = of_ℕ capacity;
    refill_rate = refill_rate;
    tokens = tokens;
    last_refill = last_refill;
  }

  -- `math.Min`
  abbrev pub min : F → F → F
  min a b = if le a b then a else b

  unfoldable pub refill : ℕ → TokenBucket F → TokenBucket F
  refill now tb = record tb {
    tokens = min tb.capacity (add tb.tokens (mul (elapsed now tb.last_refill) tb.refill_rate));
    last_refill = now;
  }

  unfoldable pub allow : ℕ → ℕ → TokenBucket F → TokenBucket F × Bool
  allow now n tb =
      let full = refill now tb in
      if le (of_ℕ n) full.tokens
      then (record full { tokens = sub full.tokens (of_ℕ n) }, true)
      else (full, false)

  unfoldable pub remaining : ℕ → TokenBucket F → TokenBucket F × ℤ
  remaining now tb = let full = refill now tb in (full, floor full.tokens)

  -- `Reset`: when the bucket will be full again.
  unfoldable pub reset : ℕ → TokenBucket F → TokenBucket F × ℕ
  reset now tb =
      let full = refill now tb in
      (
        full,
        if le full.capacity full.tokens
            then now
            else now + duration (div (sub full.capacity full.tokens) full.refill_rate),
      )

  unfoldable pub get_state : ℕ → TokenBucket F → TokenBucket F × BucketState F
  get_state now tb =
      let full = refill now tb in
      (
        full,
        record {
          capacity = full.capacity;
          refill_rate = full.refill_rate;
          tokens = full.tokens;
          last_refill = full.last_refill;
        },
      )
