-- ===== src/RateLimit/TokenBucket/Laws.antt =====
-- The bounds of a token bucket, and the size of a burst.
use api_gateway_go.Base.{
  ℕ, zero, suc, ◌-◌, ◌≤◌, ◌≡◌, refl, ap, inl, inr, true, arith, leb, le→leb, if◌then◌else◌,
  Bool-cases,
}
use api_gateway_go.RateLimit.Float64.{Float64, IsIeee, max_exact}
use api_gateway_go.RateLimit.TokenBucket.{TokenBucket, min, new_token_bucket, refill, allow}

-- The tokens lie between 0 and the capacity; the rate is not negative; the clock has not been set
-- back since the last refill.
pub record IsValid (fl : Float64) (now : ℕ) (tb : TokenBucket fl.F) : Type 0 where
  pub tokens_zero : fl.le (fl.of_ℕ 0) tb.tokens ≡ true
  pub tokens_capacity : fl.le tb.tokens tb.capacity ≡ true
  pub rate_zero : fl.le (fl.of_ℕ 0) tb.refill_rate ≡ true
  pub clock : tb.last_refill ≤ now

module _ (fl : Float64) (ieee : IsIeee fl) where
  open fl use {F, of_ℕ, add, sub, mul, div, le, elapsed, floor}

  min-le_left : (a b : F) → le (min fl a b) a ≡ true
  min-le_left a b = ground (arith, ieee.le_refl a, ieee.le_total a b)

  min-le_right : (a b : F) → le (min fl a b) b ≡ true
  min-le_right a b = ground (arith, ieee.le_refl b)

  min-glb : (a b c : F) → le c a ≡ true → le c b ≡ true → le c (min fl a b) ≡ true
  min-glb a b c h k = ground arith

  refill-tokens :
      (now : ℕ) (tb : TokenBucket F)
      → IsValid fl now tb
      → le tb.tokens (refill fl now tb).tokens ≡ true
  unfolding refill
  refill-tokens now tb v =
      min-glb tb.capacity (add tb.tokens (mul (elapsed now tb.last_refill) tb.refill_rate))
        tb.tokens v.tokens_capacity
        (ieee.zero_add_le tb.tokens (mul (elapsed now tb.last_refill) tb.refill_rate) (
          ieee.zero_mul_le (elapsed now tb.last_refill) tb.refill_rate
            (ieee.zero_elapsed_le now tb.last_refill v.clock) v.rate_zero))

  refill-IsValid :
      (now : ℕ) (tb : TokenBucket F) → IsValid fl now tb → IsValid fl now (refill fl now tb)
  refill-IsValid now tb v = record {
    tokens_zero =
        ieee.le_trans (of_ℕ 0) tb.tokens (refill fl now tb).tokens v.tokens_zero
          (refill-tokens now tb v);
    tokens_capacity = (unfold refill in min-le_left _ _);
    rate_zero = (unfold refill in v.rate_zero);
    clock = (unfold refill in omega arith);
  }

  -- Whatever the clock says, a refill never leaves more tokens than the capacity; if the clock has
  -- not been set back, it takes none away from a bucket that is within its bounds.
  pub refill_bounds :
      (now : ℕ) (tb : TokenBucket F)
      → (le (refill fl now tb).tokens tb.capacity ≡ true)
        × (IsValid fl now tb
            → (le tb.tokens (refill fl now tb).tokens ≡ true) × IsValid fl now (refill fl now tb))
  refill_bounds now tb =
      ((unfold refill in min-le_left _ _), λ v. (refill-tokens now tb v, refill-IsValid now tb v))

  -- Finite and not negative.
  abbrev pub IsRate : F → Type 0
  IsRate rate = (fl.is_finite rate ≡ true) × (le (of_ℕ 0) rate ≡ true)

  -- A bucket of whole tokens, refilled at `now`.
  abbrev pub bucket : ℕ → F → ℕ → ℕ → TokenBucket F
  bucket capacity rate tokens now = record {
    capacity = of_ℕ capacity;
    refill_rate = rate;
    tokens = of_ℕ tokens;
    last_refill = now;
  }

  min-of_ℕ : (c k : ℕ) → c ≤ max_exact → k ≤ c → min fl (of_ℕ c) (of_ℕ k) ≡ of_ℕ k
  min-of_ℕ c k small fits = elim (Bool-cases (leb c k)) [
    | inl full ↦ let same : c ≡ k = ground arith in rw same (ground arith)
    | inr part ↦ rw (ieee.of_ℕ-le c k small (omega arith)) (rw part refl)
  ]

  pub refill-bucket :
      (c k now : ℕ) (rate : F)
      → IsRate rate
      → c ≤ max_exact
      → k ≤ c
      → refill fl now (bucket c rate k now) ≡ bucket c rate k now
  unfolding refill
  refill-bucket c k now rate usable small fits = rw (ieee.elapsed_self now) (
      rw (ieee.zero_mul rate usable.0 usable.1) (
        rw (ieee.add_zero (of_ℕ k))
          (ap (λ t. record (bucket c rate k now) { tokens = t }) (min-of_ℕ c k small fits))))

  pub allow-bucket :
      (c k now : ℕ) (rate : F)
      → IsRate rate
      → c ≤ max_exact
      → k ≤ c
      → allow fl now 1 (bucket c rate k now) ≡ (bucket c rate (k - 1) now, leb 1 k)
  unfolding allow
  allow-bucket c zero now rate usable small fits =
      rw (refill-bucket c 0 now rate usable small fits)
        (rw (ieee.of_ℕ-le 1 0 (omega arith) (omega arith)))
  allow-bucket c (suc k) now rate usable small fits =
      rw (refill-bucket c (suc k) now rate usable small fits) (
        rw (ieee.of_ℕ-le 1 (suc k) (omega arith) (omega arith)) (
          rw (le→leb 1 (suc k) (omega arith))
            (rw (ieee.of_ℕ-sub (suc k) 1 (omega arith) (omega arith)))))

  -- How many of `n` requests for one token that come at one instant are allowed.
  pub allowed_count : ℕ → ℕ → TokenBucket F → ℕ
  allowed_count now zero tb = 0
  allowed_count now (suc n) tb =
      let (tb', allowed) = allow fl now 1 tb in
      if allowed then suc (allowed_count now n tb') else allowed_count now n tb'

  allowed_count-bucket :
      (c k now n : ℕ) (rate : F)
      → IsRate rate
      → c ≤ max_exact
      → k ≤ c
      → allowed_count now n (bucket c rate k now) ≡ (if leb n k then n else k)
  unfolding allowed_count
  allowed_count-bucket c k now zero rate usable small fits = ground arith
  allowed_count-bucket c k now (suc n) rate usable small fits =
      rw (allow-bucket c k now rate usable small fits)
        (ground (arith, allowed_count-bucket c (k - 1) now n rate usable small))

  -- A new bucket of a capacity of at most 2^53 allows, of any number of requests that come at the
  -- instant of its creation, as many as its capacity, whatever its refill rate is, if that is finite
  -- and not negative.
  pub burst :
      (c now n : ℕ) (rate : F)
      → IsRate rate
      → c ≤ max_exact
      → allowed_count now n (new_token_bucket fl now c rate) ≡ (if leb n c then n else c)
  unfolding new_token_bucket
  burst c now n rate usable small = allowed_count-bucket c c now n rate usable small (omega arith)
