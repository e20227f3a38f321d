-- ===== src/Proxy.antt =====
-- internal/proxy/proxy.go: the URL of the backend request, and the retries.
-- The parsed backend URL is given by its parts. The client's exchange is a parameter: `reply n` is
-- what `client.Do` gives at the attempt `n`. Waiting is recorded, not done; log lines are left out.
-- A delay is a plain number: the product is not cut to 64 bits.
pub mod Laws
pub mod Headers
pub mod Forward
mod Tests
use api_gateway_go.Base.{
  ℕ, zero, suc, ◌+◌, ◌*◌, ◌-◌, ◌^◌, Bool, true, false, not, ◌&&◌, ◌||◌, List, [], ◌∷◌, ◌++◌, Bytes,
  codes, ◌==◌, bytes_eq, if◌then◌else◌,
}
use api_gateway_go.Router.Text.{prefix?, infix?}

pub record Url : Type 0 where
  pub scheme : Bytes
  pub host : Bytes
  pub path : Bytes
  pub raw_query : Bytes

-- `strings.TrimPrefix`, where the text is known to start with the prefix.
unfoldable pub trim_prefix : Bytes → Bytes → Bytes
trim_prefix [] s = s
trim_prefix (a ∷ p) [] = []
trim_prefix (a ∷ p) (b ∷ s) = trim_prefix p s

-- A slash in front, unless there is one.
unfoldable pub rooted : Bytes → Bytes
rooted path = if prefix? (codes "/") path then path else b'/' ∷ path

unfoldable pub strip : Bytes → Bytes → Bytes
strip strip_prefix path =
    if not (strip_prefix == []) && prefix? strip_prefix path
    then rooted (trim_prefix strip_prefix path)
    else path

-- `buildTargetURL`
unfoldable pub build_target_url : Url → Bytes → Bytes → Bytes → Url
build_target_url backend strip_prefix path raw_query = record {
  scheme = backend.scheme;
  host = backend.host;
  path =
      (if not (backend.path == []) && not (backend.path == codes "/")
        then backend.path ++ strip strip_prefix path
        else strip strip_prefix path);
  raw_query = raw_query;
}

-- What `isRetryable` asks of an error.
pub record Error : Type 0 where
  pub is_net_error : Bool
  pub is_deadline : Bool
  pub text : Bytes

unfoldable pub is_retryable : Error → Bool
is_retryable e =
    e.is_net_error
    || (e.is_deadline
        || (infix? (codes "connection refused") e.text || infix? (codes "no such host") e.text))

pub data Reply (R : Type 0) : Type 0 where
  response : R → Reply R
  failed : Error → Reply R

-- What `forwardWithRetry` returns: a response, an error that is not retryable, or the last error
-- once the retries are exceeded.
pub data Outcome (R : Type 0) : Type 0 where
  forwarded : R → Outcome R
  refused : Error → Outcome R
  exceeded : Error → Outcome R

-- The result, the delays that were waited, and how many requests were sent.
pub record Run (R : Type 0) : Type 0 where
  pub outcome : Outcome R
  pub delays : List ℕ
  pub sent : ℕ

-- The delay in front of the attempt `attempt`, which is not the first.
unfoldable pub backoff : ℕ → ℕ → ℕ
backoff retry_delay attempt = retry_delay * 2 ^ (attempt - 1)

module _ {R : Type 0} (reply : ℕ → Reply R) (retry_delay : ℕ) where
  -- The loop from the exchange at `attempt` on, with `left` retries after it.
  unfoldable pub attempts : ℕ → ℕ → Run R
  attempts attempt zero = elim (reply attempt) [
    | response r ↦ record { outcome = forwarded r; delays = []; sent = 1 }
    | failed e ↦ record {
      outcome = if is_retryable e then exceeded e else refused e;
      delays = [];
      sent = 1;
    }
  ]
  attempts attempt (suc left) =
      let later = attempts (attempt + 1) left in
      elim (reply attempt) [
        | response r ↦ record { outcome = forwarded r; delays = []; sent = 1 }
        | failed e ↦
            if is_retryable e
            then record {
              outcome = later.outcome;
              delays = backoff retry_delay (attempt + 1) ∷ later.delays;
              sent = suc later.sent;
            }
            else record { outcome = refused e; delays = []; sent = 1 }
      ]

  -- `forwardWithRetry`, for `MaxRetries` not negative.
  unfoldable pub forward_with_retry : ℕ → Run R
  forward_with_retry max_retries = attempts 0 max_retries
