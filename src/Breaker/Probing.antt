-- ===== src/Breaker/Probing.antt =====
-- The half-open state of internal/circuitbreaker/circuitbreaker.go: how many probes it admits, and
-- whether it ends.
use api_gateway_go.Base.{
  ℕ, suc, ◌+◌, ◌≤◌, ◌<◌, ◌≡◌, refl, List, [], ◌∷◌, map, arith, leb, if◌then◌else◌, length,
}
use api_gateway_go.Breaker.{
  Breaker, closed, opened, half_open, Admission, admitted, circuit_open, success, before_request,
  after_request,
}
use api_gateway_go.Breaker.Execute.{Event, step, run}

abbrev pub count_if : Admission → ℕ → ℕ
count_if admitted n = suc n
count_if circuit_open n = n

-- How many of the requests that check in at the given times are admitted, while none finishes.
unfoldable pub admissions : List ℕ → Breaker → ℕ
admissions [] cb = 0
admissions (t ∷ ts) cb =
    let (cb', verdict) = before_request t cb in count_if verdict (admissions ts cb')

abbrev pub Elapsed : Breaker → ℕ → Type 0
Elapsed cb t = cb.last_state_change + cb.config.timeout ≤ t

admissions-half_open :
    (ts : List ℕ) (cb : Breaker)
    → cb.state ≡ half_open
    → cb.half_open_requests ≤ cb.config.max_requests
    → admissions ts cb + cb.half_open_requests ≡ (
        if leb (cb.half_open_requests + length ts) cb.config.max_requests
        then cb.half_open_requests + length ts
        else cb.config.max_requests)
unfolding admissions before_request
admissions-half_open [] cb h p = ground arith
admissions-half_open (t ∷ ts) cb h p =
    ground (arith, admissions-half_open ts (before_request t cb).0)

-- Once the timeout is over, an open breaker admits `MaxRequests + 1` concurrent requests: the one
-- that makes it half-open is not counted. All further ones are refused.
pub opened_admissions :
    (t : ℕ) (ts : List ℕ) (cb : Breaker)
    → cb.state ≡ opened
    → Elapsed cb t
    → admissions (t ∷ ts) cb ≡ (
        if leb (length ts) cb.config.max_requests
        then suc (length ts)
        else suc cb.config.max_requests)
unfolding admissions before_request
opened_admissions t ts cb o e = ground (arith, admissions-half_open ts (before_request t cb).0)

-- A half-open breaker whose quota is used up refuses every request, at whatever time, and does not
-- change by refusing it.
pub half_open_exhausted :
    (ts : List ℕ) (cb : Breaker)
    → cb.state ≡ half_open
    → cb.config.max_requests ≤ cb.half_open_requests
    → (admissions ts cb ≡ 0) × (run (map Event.begin ts) cb ≡ cb)
unfolding admissions run step
half_open_exhausted [] cb h p = (refl, refl)
half_open_exhausted (t ∷ ts) cb h p = ground (arith, half_open_exhausted ts cb h p)

-- `Execute` with a protected function that succeeds, at one instant.
unfoldable pub probe : ℕ → Breaker → Breaker
probe now cb =
    let (checked, verdict) = before_request now cb in
    elim verdict [ admitted ↦ after_request success now checked | circuit_open ↦ checked ]

unfoldable pub probes : List ℕ → Breaker → Breaker
probes [] cb = cb
probes (t ∷ ts) cb = probes ts (probe t cb)

probes-half_open_stuck :
    (ts : List ℕ) (cb : Breaker)
    → cb.config.max_requests + 1 < cb.config.success_threshold
    → cb.state ≡ half_open
    → cb.half_open_requests ≤ cb.config.max_requests
    → cb.successes ≡ cb.half_open_requests + 1
    → (probes ts cb).state ≡ half_open
unfolding probes probe before_request after_request
probes-half_open_stuck [] cb small h p s = h
probes-half_open_stuck (t ∷ ts) cb small h p s =
    ground (arith, probes-half_open_stuck ts (probe t cb))

-- With `SuccessThreshold` above `MaxRequests + 1`, an open breaker whose timeout is over and that
-- has counted no success never closes by probes made one after the other: a backend that answers
-- every request it gets leaves it half-open.
pub opened_starved :
    (t : ℕ) (ts : List ℕ) (cb : Breaker)
    → cb.config.max_requests + 1 < cb.config.success_threshold
    → cb.state ≡ opened
    → cb.successes ≡ 0
    → Elapsed cb t
    → (probes (t ∷ ts) cb).state ≡ half_open
unfolding probes probe before_request after_request
opened_starved t ts cb small o s e = ground (arith, probes-half_open_stuck ts (probe t cb))

probes-closed : (ts : List ℕ) (cb : Breaker) → cb.state ≡ closed → (probes ts cb).state ≡ closed
unfolding probes probe before_request after_request
probes-closed [] cb c = c
probes-closed (t ∷ ts) cb c = ground (arith, probes-closed ts (probe t cb))

probes-half_open :
    (ts : List ℕ) (cb : Breaker)
    → cb.config.success_threshold ≤ cb.config.max_requests + 1
    → cb.state ≡ half_open
    → cb.successes ≡ cb.half_open_requests + 1
    → cb.successes < cb.config.success_threshold
    → (probes ts cb).state
      ≡ (if leb cb.config.success_threshold (cb.successes + length ts) then closed else half_open)
unfolding probes probe before_request after_request
probes-half_open [] cb small h p s = ground arith
probes-half_open (t ∷ ts) cb small h p s =
    ground (arith, probes-half_open ts (probe t cb), probes-closed ts (probe t cb))

-- With `SuccessThreshold` between 1 and `MaxRequests + 1`, an open breaker whose timeout is over
-- and that has counted no success recovers under successful probes made one after the other: it
-- closes at the `SuccessThreshold`-th of them, and not before.
pub opened_recovers :
    (t : ℕ) (ts : List ℕ) (cb : Breaker)
    → 0 < cb.config.success_threshold
    → cb.config.success_threshold ≤ cb.config.max_requests + 1
    → cb.state ≡ opened
    → cb.successes ≡ 0
    → Elapsed cb t
    → (probes (t ∷ ts) cb).state
      ≡ (if leb cb.config.success_threshold (length (t ∷ ts)) then closed else half_open)
unfolding probes probe before_request after_request
opened_recovers t ts cb p small o s e =
    ground (arith, probes-half_open ts (probe t cb), probes-closed ts (probe t cb))

run-late_success :
    (ts : List ℕ) (cb : Breaker)
    → cb.state ≡ opened
    → (run (map (Event.finish success) ts) cb) ≡ record cb { successes = cb.successes + length ts }
unfolding run step
run-late_success [] cb o = ground arith
run-late_success (t ∷ ts) cb o =
    ground (arith, run-late_success ts (step (Event.finish success t) cb))

-- Successes reported while the breaker is open are counted: where the count before, these successes
-- and one probe together reach `SuccessThreshold`, that single probe after the timeout closes the
-- breaker.
pub late_successes_close :
    (late : List ℕ) (t : ℕ) (cb : Breaker)
    → cb.state ≡ opened
    → Elapsed cb t
    → cb.config.success_threshold ≤ cb.successes + length late + 1
    → (probe t (run (map (Event.finish success) late) cb)).state ≡ closed
unfolding probe before_request after_request
late_successes_close late t cb o e h = ground (arith, run-late_success late cb o)
