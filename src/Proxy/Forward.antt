-- ===== src/Proxy/Forward.antt =====
-- `Proxy.Forward` of internal/proxy/proxy.go: the retries under the circuit breaker of the backend.
-- `url.Parse`, `http.NewRequestWithContext` and the client are parameters; the timeout of the route
-- is part of the context that the client's exchange runs in. No other request comes in between.
-- The injection of the
-- trace context into the headers is a parameter. Spans and log lines are left out, and the error of a copy of the body, which is only logged.
pub mod Laws
mod Tests
use api_gateway_go.Base.{
  ℕ, Bool, true, false, ◌++◌, Option, none, some, String, List, [], Bytes, codes, Dict, insert,
  lookup, string_eq, bytes_eq, if◌then◌else◌,
}
use api_gateway_go.Breaker
use api_gateway_go.Breaker.{Breaker, default_config, success, failure}
use api_gateway_go.Breaker.Execute.{execute}
use api_gateway_go.Manager.{Manager, get, update}
use api_gateway_go.Router.Text.{infix?}
use api_gateway_go.Proxy.{
  Url, build_target_url, Error, Reply, Outcome, forwarded, refused, exceeded, Run,
  forward_with_retry,
}
use api_gateway_go.Proxy.Headers.{Headers, Request, backend_headers, copy_response_headers}

-- What `Forward` reads of the client's request and of the route.
pub record Inbound : Type 0 where
  pub method : String
  pub path : Bytes
  pub raw_query : Bytes
  pub body : Bytes
  pub request : Request
  pub backend_url : String
  pub strip_prefix : Bytes

-- The request that `createBackendRequest` makes, with the trace context injected; its `Host` is that of the URL.
pub record Outbound : Type 0 where
  pub method : String
  pub url : Url
  pub headers : Headers
  pub body : Bytes

pub record Response : Type 0 where
  pub status : ℕ
  pub headers : Headers
  pub body : Bytes

-- The `errorType` of the metrics.
pub data ErrorType : Type 0 where
  unknown timeout connection_refused dns_error : ErrorType

-- What `Forward` does in the end: it writes an answer, or it returns one of its errors.
pub data End : Type 0 where
  answered : Response → End
  invalid_url not_created circuit_open : End
  request_failed : ErrorType → Error → End
  -- the panic on a response that was never set
  nil_response : End

-- The error for the last one when the retries are exceeded: a new value.
unfoldable pub wrapped : Error → Error
wrapped e = record {
  is_net_error = false;
  is_deadline = false;
  text = codes "max retries exceeded: " ++ e.text;
}

-- The error that `forwardWithRetry` returns.
unfoldable pub returned_error : Outcome Response → Option Error
unfolding wrapped
returned_error (forwarded r) = none
returned_error (refused e) = some e
returned_error (exceeded e) = some (wrapped e)

unfoldable pub error_type : Error → ErrorType
error_type e =
    if e.is_deadline
    then timeout
    else if infix? (codes "connection refused") e.text
    then connection_refused
    else if infix? (codes "no such host") e.text
    then dns_error
    else unknown

-- What the breaker is told.
unfoldable pub verdict : Option Error → Breaker.Outcome
verdict none = success
verdict (some e) = failure

-- The answer: the headers of the response besides those that are set, its status and its body.
unfoldable pub write_response : Headers → Response → Response
unfolding copy_response_headers
write_response dst r = record r { headers = copy_response_headers r.headers dst }

unfoldable pub finish : Headers → Outcome Response → End
unfolding error_type write_response wrapped
finish dst (forwarded r) = answered (write_response dst r)
finish dst (refused e) = request_failed (error_type e) e
finish dst (exceeded e) = request_failed (error_type (wrapped e)) (wrapped e)

-- After `Execute`, for what it returned and the run that the protected function left.
unfoldable pub conclude : Headers → Option Breaker.Outcome → Option (Run Response) → End
unfolding finish
conclude dst none left = circuit_open
conclude dst (some out) none = nil_response
conclude dst (some out) (some run) = finish dst run.outcome

unfoldable pub outbound : (Headers → Headers) → (Bytes → Option Bytes) → Inbound → Url → Outbound
unfolding backend_headers build_target_url
outbound inject split_host_port r backend = record {
  method = r.method;
  url = build_target_url backend r.strip_prefix r.path r.raw_query;
  headers = inject (backend_headers split_host_port r.request);
  body = r.body;
}

module _ (exchange : Outbound → ℕ → Reply Response) (max_retries retry_delay : ℕ) where
  -- The function that the breaker protects: it leaves its run in `resp` and `execErr`.
  unfoldable pub protected :
      Outbound → Option (Run Response) → Breaker.Outcome × Option (Run Response)
  unfolding verdict forward_with_retry
  protected out before =
      let run = forward_with_retry (exchange out) retry_delay max_retries in
      (verdict (returned_error run.outcome), some run)

  -- From `circuitBreakers.Get` on, with the clock at `Get`, at the check and at the record.
  unfoldable pub guarded : Outbound → String → Headers → ℕ → ℕ → ℕ → Manager → Manager × End
  unfolding get execute protected conclude update default_config
  guarded out name dst now start end m =
      let (cb, m') = get name (some default_config) now m in
      let (cb', left, result) = execute (protected out) start end cb none in
      (update name (λ old. cb') m', conclude dst result left)

  module _ (parse : String → Option Url) (creates : String → Url → Bool)
      (inject : Headers → Headers) (split_host_port : Bytes → Option Bytes) where
    -- `Forward`, with the headers that the answer has so far.
    unfoldable pub forward : Inbound → Headers → ℕ → ℕ → ℕ → Manager → Manager × End
    unfolding outbound guarded
    forward r dst now start end m = elim (parse r.backend_url) [
      | none ↦ (m, invalid_url)
      | some backend ↦
          let out = outbound inject split_host_port r backend in
          if creates r.method out.url
          then guarded out r.backend_url dst now start end m
          else (m, not_created)
    ]
