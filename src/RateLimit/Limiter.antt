-- ===== src/RateLimit/Limiter.antt =====
-- internal/ratelimit/limiter.go, storage.go and memory.go: one limit of one request.
-- A storage backend is a parameter, `Storage`; the in-memory one is modelled, Redis is not.
-- `time.ParseDuration` is the parameter `parse_duration`. One request reads the clock once.
-- Limits, bursts and windows are not negative; a window of zero is, with an infinite rate.
pub mod Laws
pub mod Unreadable
mod Tests
use api_gateway_go.Base.{
  ℕ, ◌+◌, ◌-◌, ◌*◌, Bool, true, false, Option, none, some, String, ◌==◌, string_eq, bytes_eq, Bytes,
  eqb, leb, ◌%◌, ℤ, pos, negsuc, if◌then◌else◌,
}
use api_gateway_go.Config.{LimitDefinition}
use api_gateway_go.Ttl
use api_gateway_go.Ttl.{Store}
use api_gateway_go.RateLimit.Float64.{Float64}
use api_gateway_go.RateLimit.TokenBucket.{
  TokenBucket, BucketState, new_token_bucket, new_token_bucket_from_state, allow, remaining, reset,
  get_state,
}
use api_gateway_go.RateLimit.Key
use api_gateway_go.RateLimit.Key.{generate_key}

abbrev pub max_int64 : ℕ
max_int64 = 9223372036854775807

-- `window*2`, a `time.Duration` of 64 bits.
unfoldable pub doubled : ℕ → ℤ
doubled window =
    let d = (window * 2) % 18446744073709551616 in
    if leb d max_int64 then pos d else negsuc (18446744073709551615 - d)

-- The interface `Storage`: `read` gives `none` for an error and `some none` for a missing key;
-- the flag of `write` is false for an error.
pub record Storage (F S : Type 0) : Type 0 where
  pub read : ℕ → Bytes → S → Option (Option (BucketState F))
  pub write : ℕ → Bytes → BucketState F → ℤ → S → S × Bool

-- `MemoryStorage`: `Get` and `Set` never fail.
abbrev pub Memory : Type 0 → Type 0
Memory F = Store Bytes (BucketState F)

module _ {F : Type 0} where
  unfoldable pub memory_get : ℕ → Bytes → Memory F → Option (BucketState F)
  memory_get now key ms = Ttl.get now key ms

  -- An entry with a negative duration has expired when it is set.
  unfoldable pub memory_set : ℕ → Bytes → BucketState F → ℤ → Memory F → Memory F
  memory_set now key state (pos ttl) ms = Ttl.set now key state ttl ms
  memory_set now key state (negsuc n) ms = Ttl.set (now - (n + 1)) key state 0 ms

  -- One tick of `cleanupLoop`.
  unfoldable pub memory_cleanup : ℕ → Memory F → Memory F
  memory_cleanup now ms = Ttl.cleanup now ms

abbrev pub memory_storage : (F : Type 0) → Storage F (Memory F)
memory_storage F = record {
  read = λ now key ms. some (memory_get now key ms);
  write = λ now key state ttl ms. (memory_set now key state ttl ms, true);
}

pub record Result : Type 0 where
  pub allowed : Bool
  pub limit : ℕ
  pub remaining : ℤ
  pub reset : ℕ
  pub retry_after : ℕ

-- What `Allow` returns: a result; an error for a window that does not parse; or a result with the
-- error of the storage.
pub data Verdict : Type 0 where
  checked : Result → Verdict
  invalid_window : Verdict
  storage_failed : Result → Verdict

-- The result where no counter is consulted.
abbrev pub unlimited : ℕ → LimitDefinition → Result
unlimited now limit_def = record {
  allowed = true;
  limit = limit_def.limit;
  remaining = pos limit_def.limit;
  reset = now;
  retry_after = 0;
}

abbrev pub rejected : ℕ → ℕ → LimitDefinition → Result
rejected now window limit_def = record {
  allowed = false;
  limit = limit_def.limit;
  remaining = pos 0;
  reset = now + window;
  retry_after = window;
}

-- `capacity := limitDef.Burst`, or the limit where no burst is set.
abbrev pub capacity_of : LimitDefinition → ℕ
capacity_of limit_def = if eqb limit_def.burst 0 then limit_def.limit else limit_def.burst

module _ (fl : Float64) {S : Type 0} (storage : Storage fl.F S) where
  open fl use {F}

  -- What `getBucket` does once the storage has answered.
  unfoldable pub bucket_for :
      Option (Option (BucketState F)) → ℕ → Bytes → ℕ → F → ℕ → S → Option (TokenBucket F) × S
  bucket_for none now key capacity refill_rate window s = (none, s)
  bucket_for (some (some state)) now key capacity refill_rate window s =
      (some (new_token_bucket_from_state fl capacity refill_rate state.tokens state.last_refill), s)
  bucket_for (some none) now key capacity refill_rate window s =
      let (bucket, initial) = get_state fl now (new_token_bucket fl now capacity refill_rate) in
      let (s', stored) = storage.write now key initial (doubled window) s in
      (if stored then some bucket else none, s')

  unfoldable pub get_bucket : ℕ → Bytes → ℕ → F → ℕ → S → Option (TokenBucket F) × S
  unfolding bucket_for
  get_bucket now key capacity refill_rate window s =
      bucket_for (storage.read now key s) now key capacity refill_rate window s

  -- The calls on the bucket, in their order: the result, and the state to be saved.
  unfoldable pub consult : ℕ → LimitDefinition → TokenBucket F → Result × BucketState F
  consult now limit_def bucket =
      let (after_allow, allowed) = allow fl now 1 bucket in
      let (after_remaining, left) = remaining fl now after_allow in
      let (after_reset, full_at) = reset fl now after_remaining in
      let (saved, state) = get_state fl now after_reset in
      (
        record {
          allowed = allowed;
          limit = limit_def.limit;
          remaining = left;
          reset = full_at;
          retry_after = if allowed then 0 else full_at - now;
        },
        state,
      )

  -- From the bucket on. An error of the last write is ignored.
  unfoldable pub decide :
      ℕ → String → Bytes → LimitDefinition → ℕ → Option (TokenBucket F) → S → Verdict × S
  decide now failure_mode key limit_def window none s = (
    if failure_mode == "fail-open"
        then checked (unlimited now limit_def)
        else storage_failed (rejected now window limit_def),
    s,
  )
  decide now failure_mode key limit_def window (some bucket) s =
      let (result, state) = consult now limit_def bucket in
      (checked result, (storage.write now key state (doubled window) s).0)

  -- With a key and a parsed window.
  unfoldable pub count_request : ℕ → String → Bytes → LimitDefinition → ℕ → S → Verdict × S
  count_request now failure_mode key limit_def window s =
      let rate = fl.div (fl.of_ℕ limit_def.limit) (fl.seconds window) in
      let (bucket, s') = get_bucket now key (capacity_of limit_def) rate window s in
      decide now failure_mode key limit_def window bucket s'

  -- `Allow`
  unfoldable pub limiter_allow :
      (String → Option ℕ) → ℕ → String → Key.Request → LimitDefinition → S → Verdict × S
  limiter_allow parse_duration now failure_mode r limit_def s =
      elim (generate_key limit_def.key r) [
        | none ↦ (checked (unlimited now limit_def), s)
        | some key ↦ elim (parse_duration limit_def.window) [
          | none ↦ (invalid_window, s)
          | some window ↦ count_request now failure_mode key limit_def window s
        ]
      ]
