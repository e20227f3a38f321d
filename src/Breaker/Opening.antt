-- ===== src/Breaker/Opening.antt =====
-- When the breaker of internal/circuitbreaker/circuitbreaker.go opens, and what it does while open.
use api_gateway_go.Base.{
  ℕ, ◌+◌, ◌≤◌, ◌<◌, ◌≡◌, refl, List, [], ◌∷◌, map, arith, leb, if◌then◌else◌, length, All,
}
use api_gateway_go.Breaker.{
  Breaker, closed, opened, half_open, admitted, circuit_open, success, failure, before_request,
}
use api_gateway_go.Breaker.Execute.{Event, step, run}

abbrev pub fail_at : ℕ → Event
fail_at = Event.finish failure

abbrev pub check_at : ℕ → Event
check_at = Event.begin

-- Failures reported to an open breaker leave it open, and do not restart its timeout.
run-fail_opened :
    (ts : List ℕ) (cb : Breaker)
    → cb.state ≡ opened
    → ((run (map fail_at ts) cb).state ≡ opened)
      × ((run (map fail_at ts) cb).last_state_change ≡ cb.last_state_change)
unfolding run step
run-fail_opened [] cb o = ground arith
run-fail_opened (t ∷ ts) cb o = ground (arith, run-fail_opened ts (step (fail_at t) cb))

-- A closed breaker that has counted fewer failures than the threshold opens at the failure that
-- brings the count to the threshold, not before, and then stays open under further failures.
pub run-fail_opens :
    (ts : List ℕ) (cb : Breaker)
    → cb.state ≡ closed
    → cb.failures < cb.config.failure_threshold
    → (run (map fail_at ts) cb).state
      ≡ (if leb cb.config.failure_threshold (cb.failures + length ts) then opened else closed)
unfolding run step
run-fail_opens [] cb c below = ground arith
run-fail_opens (t ∷ ts) cb c below =
    ground
      (arith, run-fail_opened ts (step (fail_at t) cb), run-fail_opens ts (step (fail_at t) cb))

-- With a positive failure threshold, one success wipes the count of a closed breaker: it takes a
-- full threshold of failures to open it again.
pub run-success-fail_opens :
    (now : ℕ) (ts : List ℕ) (cb : Breaker)
    → cb.state ≡ closed
    → 0 < cb.config.failure_threshold
    → (run (Event.finish success now ∷ map fail_at ts) cb).state
      ≡ (if leb cb.config.failure_threshold (length ts) then opened else closed)
unfolding run step
run-success-fail_opens now ts cb c p =
    ground (arith, run-fail_opens ts (step (Event.finish success now) cb))

-- While the timeout of an open breaker runs, every request is refused and nothing changes.
run-check_opened :
    (ts : List ℕ) (cb : Breaker)
    → cb.state ≡ opened
    → All (λ t. t < cb.last_state_change + cb.config.timeout) ts
    → run (map check_at ts) cb ≡ cb
unfolding run step
run-check_opened [] cb o h = refl
run-check_opened (t ∷ ts) cb o (h, hs) = ground (arith, run-check_opened ts cb o hs)

refused_before :
    (ts : List ℕ) (cb : Breaker)
    → cb.state ≡ opened
    → All (λ t. t < cb.last_state_change + cb.config.timeout) ts
    → All (λ t. (before_request t cb).1 ≡ circuit_open) ts
unfolding before_request
refused_before [] cb o h = tt
refused_before (t ∷ ts) cb o (h, hs) = (ground arith, refused_before ts cb o hs)

opened-before_request :
    (now : ℕ) (cb : Breaker)
    → cb.state ≡ opened
    → cb.last_state_change + cb.config.timeout ≤ now
    → ((before_request now cb).1 ≡ admitted)
      × ((before_request now cb).0.state ≡ half_open)
      × ((before_request now cb).0.half_open_requests ≡ 0)
unfolding before_request
opened-before_request now cb o h = ground arith

-- An open breaker refuses every request of the timeout that follows its opening, staying as it is,
-- and admits the first one after it, which makes it half-open with an empty count of probes.
pub opened_timeout :
    (ts : List ℕ) (now : ℕ) (cb : Breaker)
    → cb.state ≡ opened
    → All (λ t. t < cb.last_state_change + cb.config.timeout) ts
    → cb.last_state_change + cb.config.timeout ≤ now
    → (run (map check_at ts) cb ≡ cb)
      × (All (λ t. (before_request t cb).1 ≡ circuit_open) ts)
      × ((before_request now (run (map check_at ts) cb)).1 ≡ admitted)
      × ((before_request now (run (map check_at ts) cb)).0.state ≡ half_open)
      × ((before_request now (run (map check_at ts) cb)).0.half_open_requests ≡ 0)
opened_timeout ts now cb o before after =
    let same = run-check_opened ts cb o before in
    let (verdict, state, count) = opened-before_request now cb o after in
    (same, refused_before ts cb o before, rw same verdict, rw same state, rw same count)

-- A failed probe opens the breaker again, with a timeout that starts at that moment.
pub half_open-fail :
    (now : ℕ) (cb : Breaker)
    → cb.state ≡ half_open
    → ((step (fail_at now) cb).state ≡ opened)
      × ((step (fail_at now) cb).last_state_change ≡ now)
      × ((step (fail_at now) cb).successes ≡ 0)
unfolding step
half_open-fail now cb h = ground arith
