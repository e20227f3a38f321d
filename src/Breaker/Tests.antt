-- ===== src/Breaker/Tests.antt =====
-- The theorems on internal/circuitbreaker/circuitbreaker.go at concrete breakers.
use api_gateway_go.Base.{
  ℕ, ◌+◌, ◌≡◌, refl, none, some, [], ◌∷◌, All, map, length, leb, if◌then◌else◌, arith,
}
use api_gateway_go.Breaker.{
  State, closed, opened, half_open, Config, Breaker, new, admitted, circuit_open, before_request,
  failure,
}
use api_gateway_go.Breaker.Execute.{begin, finish, run}
use api_gateway_go.Breaker.Invariant.{IsValid, run-new-IsValid}
use api_gateway_go.Breaker.Opening.{run-fail_opens, opened_timeout, fail_at, check_at}
use api_gateway_go.Breaker.Probing.{probes, opened_starved, opened_recovers}

-- Two failures open it, two successes close it, two probes are counted.
abbrev small : Config
small = record { failure_threshold = 2; success_threshold = 2; timeout = 10; max_requests = 2 }

-- More successes asked for than probes are admitted.
abbrev starving : Config
starving = record { failure_threshold = 1; success_threshold = 5; timeout = 10; max_requests = 2 }

abbrev breaker_in : State → Config → ℕ → Breaker
breaker_in s c requests = record {
  name = "backend";
  config = c;
  state = s;
  failures = 0;
  successes = 0;
  last_failure_time = none;
  last_state_change = 100;
  half_open_requests = requests;
}

run-new-IsValid_example :
    IsValid small
      (run (finish failure 1 ∷ finish failure 2 ∷ begin 20 ∷ []) (new "backend" (some small) 0))
run-new-IsValid_example =
    run-new-IsValid "backend" small 0 (finish failure 1 ∷ finish failure 2 ∷ begin 20 ∷ [])
      (omega arith)

run-fail_opens_example :
    (run (map fail_at (101 ∷ 102 ∷ [])) (breaker_in closed small 0)).state
    ≡ (if leb 2 (0 + length {A = ℕ} (101 ∷ 102 ∷ [])) then opened else closed)
run-fail_opens_example =
    run-fail_opens (101 ∷ 102 ∷ []) (breaker_in closed small 0) refl (omega arith)

opened_timeout_example :
    (run (map check_at (105 ∷ [])) (breaker_in opened small 0) ≡ breaker_in opened small 0)
    × (All (λ t. (before_request t (breaker_in opened small 0)).1 ≡ circuit_open) (105 ∷ []))
    × ((before_request 110 (run (map check_at (105 ∷ [])) (breaker_in opened small 0))).1
        ≡ admitted)
    × ((before_request 110 (run (map check_at (105 ∷ [])) (breaker_in opened small 0))).0.state
        ≡ half_open)
    × ((before_request 110
          (run (map check_at (105 ∷ [])) (breaker_in opened small 0))).0.half_open_requests
        ≡ 0)
opened_timeout_example =
    opened_timeout (105 ∷ []) 110 (breaker_in opened small 0) refl (omega arith, tt) (omega arith)

opened_starved_example :
    (probes (110 ∷ 111 ∷ 112 ∷ 113 ∷ []) (breaker_in opened starving 0)).state ≡ half_open
opened_starved_example =
    opened_starved 110 (111 ∷ 112 ∷ 113 ∷ []) (breaker_in opened starving 0) (omega arith) refl refl
      (omega arith)

opened_recovers_example :
    (probes (110 ∷ 111 ∷ []) (breaker_in opened small 0)).state
    ≡ (if leb 2 (length {A = ℕ} (110 ∷ 111 ∷ [])) then closed else half_open)
opened_recovers_example =
    opened_recovers 110 (111 ∷ []) (breaker_in opened small 0) (omega arith) (omega arith) refl refl
      (omega arith)
