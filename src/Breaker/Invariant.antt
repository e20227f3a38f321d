-- ===== src/Breaker/Invariant.antt =====
-- What holds of a breaker between critical sections, in every interleaving of requests.
use api_gateway_go.Base.{ℕ, ◌≤◌, ◌<◌, ◌≡◌, List, [], ◌∷◌, some, arith, String}
use api_gateway_go.Breaker.{Breaker, Config, closed, half_open, new}
use api_gateway_go.Breaker.Execute.{Event, step, run}

pub record IsValid (c : Config) (cb : Breaker) : Type 0 where
  pub config_kept : cb.config ≡ c
  pub failures_below : cb.state ≡ closed → cb.failures < c.failure_threshold
  pub probes_within : cb.state ≡ half_open → cb.half_open_requests ≤ c.max_requests

pub step-IsValid :
    (c : Config) (e : Event) (cb : Breaker)
    → 0 < c.failure_threshold
    → IsValid c cb
    → IsValid c (step e cb)
unfolding step
step-IsValid c (Event.begin now) cb p v = ground arith
step-IsValid c (Event.finish out now) cb p v = ground arith
step-IsValid c (Event.clear now) cb p v = ground arith

run-IsValid_from :
    (c : Config) (es : List Event) (cb : Breaker)
    → 0 < c.failure_threshold
    → IsValid c cb
    → IsValid c (run es cb)
unfolding run
run-IsValid_from c [] cb p v = v
run-IsValid_from c (e ∷ es) cb p v = run-IsValid_from c es (step e cb) p (step-IsValid c e cb p v)

-- With a positive failure threshold, whatever requests check in, finish and interleave, and
-- whenever the breaker is reset: its configuration never changes, while closed it has counted fewer
-- failures than the threshold, and while half-open it has counted at most `MaxRequests` requests.
pub run-new-IsValid :
    (name : String) (c : Config) (born : ℕ) (es : List Event)
    → 0 < c.failure_threshold
    → IsValid c (run es (new name (some c) born))
unfolding new
run-new-IsValid name c born es p = run-IsValid_from c es (new name (some c) born) p (ground arith)
