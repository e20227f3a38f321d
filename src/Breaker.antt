-- ===== src/Breaker.antt =====
-- internal/circuitbreaker/circuitbreaker.go: the circuit breaker of one backend.
-- A method that mutates `*CircuitBreaker` under its mutex takes the record and returns the new one.
-- `now` is the reading of `time.Now()` in that critical section, in nanoseconds; a duration is a
-- natural number, so a negative `Timeout` is not covered. The counters are plain numbers: an `int`
-- has 64 bits and is raised by one for each request. Metrics and log lines are left out.
pub mod Execute
pub mod Invariant
pub mod Opening
pub mod Probing
mod Tests
use api_gateway_go.Base.{
  ℕ, ◌+◌, ◌*◌, Bool, true, false, Option, none, some, String, leb, if◌then◌else◌,
}

pub data State : Type 0 where
  closed opened half_open : State

-- `State.String`, the label used by metrics and logs.
unfoldable pub state_string : State → String
state_string closed = "closed"
state_string opened = "open"
state_string half_open = "half-open"

pub record Config : Type 0 where
  pub failure_threshold : ℕ
  pub success_threshold : ℕ
  pub timeout : ℕ
  pub max_requests : ℕ

abbrev pub second : ℕ
second = 1000000000

unfoldable pub default_config : Config
default_config = record {
  failure_threshold = 5;
  success_threshold = 2;
  timeout = 60 * second;
  max_requests = 3;
}

pub record Breaker : Type 0 where
  pub name : String
  pub config : Config
  pub state : State
  pub failures : ℕ
  pub successes : ℕ
  pub last_failure_time : Option ℕ
  pub last_state_change : ℕ
  pub half_open_requests : ℕ

-- `New`; a nil configuration is replaced by the default one.
unfoldable pub new : String → Option Config → ℕ → Breaker
unfolding default_config
new name config now = record {
  name = name;
  config = elim config [ none ↦ default_config | some c ↦ c ];
  state = closed;
  failures = 0;
  successes = 0;
  last_failure_time = none;
  last_state_change = now;
  half_open_requests = 0;
}

-- `cb.state == newState`
unfoldable pub same_state : State → State → Bool
same_state closed closed = true
same_state opened opened = true
same_state half_open half_open = true
same_state _ _ = false

unfoldable pub set_state : ℕ → State → Breaker → Breaker
unfolding same_state
set_state now new_state cb =
    if same_state cb.state new_state
    then cb
    else record cb { state = new_state; last_state_change = now }

-- The result of `beforeRequest`: nil, or `ErrCircuitOpen`.
pub data Admission : Type 0 where
  admitted circuit_open : Admission

-- The `switch` of `beforeRequest`. `time.Since(last) >= timeout` is `last + timeout <= now`.
unfoldable pub before_request_in : State → ℕ → Breaker → Breaker × Admission
unfolding set_state
before_request_in closed now cb = (cb, admitted)
before_request_in opened now cb =
    if leb (cb.last_state_change + cb.config.timeout) now
    then (record (set_state now half_open cb) { half_open_requests = 0 }, admitted)
    else (cb, circuit_open)
before_request_in half_open now cb =
    if leb cb.config.max_requests cb.half_open_requests
    then (cb, circuit_open)
    else (record cb { half_open_requests = cb.half_open_requests + 1 }, admitted)

unfoldable pub before_request : ℕ → Breaker → Breaker × Admission
unfolding before_request_in
before_request now cb = before_request_in cb.state now cb

-- The `switch` of `onFailure`, after the counters are updated.
unfoldable pub fail_in : State → ℕ → Breaker → Breaker
unfolding set_state
fail_in closed now cb =
    if leb cb.config.failure_threshold cb.failures then set_state now opened cb else cb
fail_in half_open now cb = set_state now opened cb
fail_in opened now cb = cb

unfoldable pub on_failure : ℕ → Breaker → Breaker
unfolding fail_in
on_failure now cb =
    let counted = record cb {
      failures = cb.failures + 1;
      successes = 0;
      last_failure_time = some now;
    } in
    fail_in counted.state now counted

-- The `switch` of `onSuccess`, after the counter is updated.
unfoldable pub succeed_in : State → ℕ → Breaker → Breaker
unfolding set_state
succeed_in closed now cb = record cb { failures = 0 }
succeed_in half_open now cb =
    if leb cb.config.success_threshold cb.successes
    then record (set_state now closed cb) { failures = 0; half_open_requests = 0 }
    else cb
succeed_in opened now cb = cb

unfoldable pub on_success : ℕ → Breaker → Breaker
unfolding succeed_in
on_success now cb =
    let counted = record cb { successes = cb.successes + 1 } in succeed_in counted.state now counted

-- What the protected function returned: nil or an error.
pub data Outcome : Type 0 where
  success failure : Outcome

unfoldable pub after_request : Outcome → ℕ → Breaker → Breaker
unfolding on_failure on_success
after_request failure now cb = on_failure now cb
after_request success now cb = on_success now cb

unfoldable pub reset : ℕ → Breaker → Breaker
reset now cb = record cb {
  state = closed;
  failures = 0;
  successes = 0;
  half_open_requests = 0;
  last_state_change = now;
}

-- The view of `GetStats`.
pub record Stats : Type 0 where
  pub name : String
  pub state : State
  pub failures : ℕ
  pub successes : ℕ
  pub last_failure_time : Option ℕ
  pub last_state_change : ℕ

unfoldable pub get_stats : Breaker → Stats
get_stats cb = record {
  name = cb.name;
  state = cb.state;
  failures = cb.failures;
  successes = cb.successes;
  last_failure_time = cb.last_failure_time;
  last_state_change = cb.last_state_change;
}
