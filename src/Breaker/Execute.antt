-- ===== src/Breaker/Execute.antt =====
-- `CircuitBreaker.Execute` of internal/circuitbreaker/circuitbreaker.go, and the requests that reach
-- one breaker as a sequence of critical sections. Other requests may take the mutex between the two
-- sections of one request, so an interleaving is any list of events.
use api_gateway_go.Base.{ℕ, ◌+◌, ◌≤◌, ◌<◌, ◌≡◌, ◌↔◌, ◌⊎◌, List, [], ◌∷◌, Option, none, some, arith}
use api_gateway_go.Breaker.{
  Breaker, opened, half_open, admitted, circuit_open, Outcome, before_request, after_request, reset,
}

-- `Execute`, with no other request in between. `fn` acts on the state `S` of its environment;
-- `none` is `ErrCircuitOpen`, `some` what `fn` returned.
unfoldable pub execute {ℓ} :
    {S : Type ℓ} → (S → Outcome × S) → ℕ → ℕ → Breaker → S → Breaker × S × Option Outcome
execute fn start end cb s =
    let (checked, verdict) = before_request start cb in
    let (out, t) = fn s in
    elim verdict [
      | circuit_open ↦ (checked, s, none)
      | admitted ↦ (after_request out end checked, t, some out)
    ]

-- One critical section: the check of a request, the record of a result, or the operator's reset.
pub data Event : Type 0 where
  begin : ℕ → Event
  finish : Outcome → ℕ → Event
  clear : ℕ → Event

unfoldable pub step : Event → Breaker → Breaker
unfolding before_request after_request reset
step (begin now) cb = (before_request now cb).0
step (finish out now) cb = after_request out now cb
step (clear now) cb = reset now cb

unfoldable pub run : List Event → Breaker → Breaker
run [] cb = cb
run (e ∷ es) cb = run es (step e cb)

-- A refused request does not run the protected function, reports `ErrCircuitOpen` and leaves the
-- breaker as it was. A request is refused exactly when the breaker is open with its timeout not yet
-- over, or half-open with its quota used up.
pub execute-refused {ℓ} :
    {S : Type ℓ} (fn : S → Outcome × S) (start end : ℕ) (cb : Breaker) (s : S)
    → let (cb', s', result) = execute fn start end cb s in
      ((result ≡ none) ↔ (
        ((cb.state ≡ opened) × (start < cb.last_state_change + cb.config.timeout))
        ⊎ ((cb.state ≡ half_open) × (cb.config.max_requests ≤ cb.half_open_requests))))
      × (result ≡ none → (cb' ≡ cb) × (s' ≡ s))
unfolding execute before_request
execute-refused fn start end cb s = ground arith
