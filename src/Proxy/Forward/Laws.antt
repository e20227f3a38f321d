-- ===== src/Proxy/Forward/Laws.antt =====
-- The proxy, the retries and the circuit breaker together.
use mathlib.Core.Path.{subst}
use api_gateway_go.Base.{
  ℕ, ◌+◌, ◌-◌, ◌≡◌, ◌≢◌, ◌⊎◌, refl, ap, inl, inr, Bool, true, false, Option, none, some, String,
  Bytes, lookup, string_eq, arith,
}
use api_gateway_go.Breaker
use api_gateway_go.Breaker.{
  Admission, admitted, before_request, after_request, default_config, success, failure,
}
use api_gateway_go.Breaker.Execute.{execute}
use api_gateway_go.Manager.{Manager, get}
use api_gateway_go.Manager.Laws.{get-update}
use api_gateway_go.Proxy.{
  Url, Error, Reply, Outcome, forwarded, refused, exceeded, forward_with_retry, is_retryable,
}
use api_gateway_go.Proxy.Laws.{Ends, forward_with_retry_lem}
use api_gateway_go.Proxy.Headers.{Headers}
use api_gateway_go.Proxy.Forward.{
  Inbound, Outbound, Response, End, answered, invalid_url, not_created, circuit_open,
  request_failed, nil_response, unknown, timeout, wrapped, error_type, returned_error, verdict,
  finish, write_response, conclude, protected, outbound, guarded, forward,
}

-- An error that is not retried has no type of its own.
error_type-unknown : (e : Error) → is_retryable e ≡ false → error_type e ≡ unknown
unfolding is_retryable error_type
error_type-unknown e final = ground arith

wrapped-timeout : (e : Error) → error_type (wrapped e) ≢ timeout
unfolding wrapped error_type
wrapped-timeout e = ground arith

Admission-cases : (a : Admission) → (a ≡ admitted) ⊎ (a ≡ Breaker.circuit_open)
Admission-cases admitted = inl refl
Admission-cases Breaker.circuit_open = inr refl

module _ (exchange : ℕ → Reply Response) (max_retries retry_delay : ℕ) where
  Outcome-cases :
      (o : Outcome Response)
      → ((resp : Response) × (o ≡ forwarded resp))
        ⊎ (((e : Error) × (o ≡ refused e)) ⊎ ((e : Error) × (o ≡ exceeded e)))
  Outcome-cases (forwarded resp) = inl (resp, refl)
  Outcome-cases (refused e) = inr (inl (e, refl))
  Outcome-cases (exceeded e) = inr (inr (e, refl))

  refused-final :
      (e : Error)
      → (forward_with_retry exchange retry_delay max_retries).outcome ≡ refused e
      → is_retryable e ≡ false
  refused-final e h =
      let run = forward_with_retry exchange retry_delay max_retries in
      let (one, most, again, ends, waited) =
        forward_with_retry_lem exchange retry_delay max_retries in
      (subst (Ends exchange (max_retries + 1 - run.sent) (run.sent - 1)) h ends).1

-- How a request ends and which breaker is kept, for the breaker `cb` and the outcome of the retries.
abbrev pub Told :
    Headers → ℕ → ℕ → Breaker.Breaker → Outcome Response → Option Breaker.Breaker → End → Type 0
Told dst start end cb outcome kept circuit_open =
    ((before_request start cb).1 ≡ Breaker.circuit_open) × (kept ≡ some cb)
Told dst start end cb outcome kept (answered a) =
    ((before_request start cb).1 ≡ admitted)
    × (kept ≡ some (after_request success end (before_request start cb).0))
    × ((resp : Response) × (outcome ≡ forwarded resp) × (a ≡ write_response dst resp))
Told dst start end cb outcome kept (request_failed t e) =
    ((before_request start cb).1 ≡ admitted)
    × (kept ≡ some (after_request failure end (before_request start cb).0))
    × (t ≢ timeout)
    × (((outcome ≡ refused e) × (t ≡ unknown))
        ⊎ ((cause : Error) × (outcome ≡ exceeded cause) × (e ≡ wrapped cause)))
Told dst start end cb outcome kept invalid_url = ⊥
Told dst start end cb outcome kept not_created = ⊥
Told dst start end cb outcome kept nil_response = ⊥

refused_kept :
    (start : ℕ) (cb : Breaker.Breaker)
    → (before_request start cb).1 ≡ Breaker.circuit_open
    → (before_request start cb).0 ≡ cb
unfolding before_request
refused_kept start cb shut = ground arith

module _ (exchange : Outbound → ℕ → Reply Response) (max_retries retry_delay : ℕ) where
  executed :
      (out : Outbound) (dst : Headers) (start end : ℕ) (cb : Breaker.Breaker)
      → let (cb', left, result) =
          execute (protected exchange max_retries retry_delay out) start end cb none in
        Told dst start end cb
          (forward_with_retry (exchange out) retry_delay max_retries).outcome
          (some cb')
          (conclude dst result left)
  unfolding execute protected conclude finish returned_error verdict
  executed out dst start end cb =
      let o = (forward_with_retry (exchange out) retry_delay max_retries).outcome in
      elim (Admission-cases (before_request start cb).1) [
        | inr shut ↦ rw (execute, shut, conclude) (shut, ap some (refused_kept start cb shut))
        | inl free ↦ elim (Outcome-cases (exchange out) max_retries retry_delay o) [
          | inl (resp, h) ↦
              rw (execute, free, protected, h, conclude, finish) (free, refl, (resp, refl, refl))
          | inr (inl (e, h)) ↦
              let final = refused-final (exchange out) max_retries retry_delay e h in
              let plain = error_type-unknown e final in
              rw (execute, free, protected, h, conclude, finish, plain)
                (free, refl, (λ same. ground (arith, same)), inl (refl, refl))
          | inr (inr (e, h)) ↦
              rw (execute, free, protected, h, conclude, finish)
                (free, refl, wrapped-timeout e, inr (e, refl, refl))
        ]
      ]

  module _ (parse : String → Option Url) (creates : String → Url → Bool)
      (inject : Headers → Headers) (split_host_port : Bytes → Option Bytes) where
    -- A request whose backend URL parses and whose backend request is created ends in one of three
    -- ways. The breaker of its backend refuses it: the breaker is kept as it was, and there is the
    -- error "circuit breaker open". Or it is admitted and the retries give a response: the breaker
    -- records a success, whatever the status of the response is, and the answer is that response with
    -- the header of the gateway. Or it is admitted and the retries give an error: the breaker records
    -- one failure for all of them, and the error counts in the metrics as "unknown" if it is not a
    -- retryable one, and never as a timeout. The breaker in the map under the URL is then that one,
    -- and those of other backends are as before.
    pub forward_lem :
        (r : Inbound) (dst : Headers) (now start end : ℕ) (m : Manager) (backend : Url)
        (other : String)
        → parse r.backend_url ≡ some backend
        → creates r.method (outbound inject split_host_port r backend).url ≡ true
        → other ≢ r.backend_url
        → let out = outbound inject split_host_port r backend in
          let (m', result) =
            forward exchange max_retries retry_delay parse creates inject split_host_port r dst now
              start end m in
          let cb = (get r.backend_url (some default_config) now m).0 in
          let run = forward_with_retry (exchange out) retry_delay max_retries in
          (lookup other m'.breakers ≡ lookup other m.breakers)
          × Told dst start end cb run.outcome (lookup r.backend_url m'.breakers) result
    unfolding forward guarded
    forward_lem r dst now start end m backend other parsed created ne =
        let out = outbound inject split_host_port r backend in
        let cb = (get r.backend_url (some default_config) now m).0 in
        let made = (execute (protected exchange max_retries retry_delay out) start end cb none).0 in
        let (mine, others) = get-update r.backend_url other (some default_config) now made m ne in
        rw (forward, parsed, created, guarded) (others, rw mine (executed out dst start end cb))
