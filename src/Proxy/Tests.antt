-- ===== src/Proxy/Tests.antt =====
-- The proxy at concrete requests.
use api_gateway_go.Base.{
  ltb, if◌then◌else◌, ℕ, ◌+◌, ◌*◌, ◌-◌, ◌^◌, ◌≤◌, ◌<◌, ◌≡◌, refl, true, false, [], Bytes, codes,
  bytes_beq,
}
use api_gateway_go.Router.Text.{prefix?, infix?}
use api_gateway_go.Proxy.{
  Url, trim_prefix, rooted, strip, build_target_url, Error, Reply, response, failed, is_retryable,
  forward_with_retry,
}
use api_gateway_go.Proxy.Laws.{sum, Retried, Ends, forward_with_retry_lem}

abbrev users_backend : Url
users_backend = record {
  scheme = codes "http";
  host = codes "users";
  path = codes "/v1";
  raw_query = [];
}

users_path :
    (build_target_url users_backend (codes "/api") (codes "/api/7") (codes "x=1")).path
    ≡ codes "/v1/7"
unfolding build_target_url strip rooted trim_prefix prefix? bytes_beq
users_path = refl

abbrev refused_connection : Error
refused_connection = record {
  is_net_error = false;
  is_deadline = false;
  text = codes "dial: connection refused";
}

-- The backend answers at the third attempt.
abbrev slow_start : ℕ → Reply Bytes
slow_start n = if ltb n 2 then failed refused_connection else response (codes "ok")

refused_is_retryable : is_retryable refused_connection ≡ true
unfolding is_retryable infix? prefix?
refused_is_retryable = refl

forward_with_retry_lem_example :
    let run = forward_with_retry slow_start 100 3 in
    (1 ≤ run.sent)
    × (run.sent ≤ 3 + 1)
    × ((n : ℕ) → n + 1 < run.sent → Retried slow_start n)
    × Ends slow_start (3 + 1 - run.sent) (run.sent - 1) run.outcome
    × (sum run.delays ≡ 100 * 2 ^ (run.sent - 1) - 100)
forward_with_retry_lem_example = forward_with_retry_lem slow_start 100 3
