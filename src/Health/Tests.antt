-- ===== src/Health/Tests.antt =====
-- The health report of concrete checks.
use api_gateway_go.Base.{ℕ, ◌≡◌, ◌↔◌, ◌⊎◌, refl, none, String, [], ◌∷◌, string_eq, lookup}
use api_gateway_go.Http.{seen}
use api_gateway_go.Http.Samples.{get_admin}
use api_gateway_go.Health.{
  Manager, status_healthy, status_unhealthy, status_degraded, check_all, run_checks, update,
  readiness_handler, health_handler,
}
use api_gateway_go.Health.Laws.{Reports, result_or, check_all_lem}

-- Redis is degraded, the limiter is down.
abbrev checks : Manager ℕ
checks = record {
  checks =
      ("redis", λ w. record { name = "redis"; status = status_degraded; error = "" })
      ∷ ("ratelimit", λ w. record { name = "ratelimit"; status = status_unhealthy; error = "down" })
      ∷ [];
}

worst_status : (check_all "now" 0 checks).status ≡ status_unhealthy
unfolding check_all run_checks update
worst_status = refl

check_all_lem_example :
    let response = check_all "now" 0 checks in
    let ready = (seen (readiness_handler "now" checks get_admin 0).actions).status in
    ((name : String) → lookup name response.checks ≡ result_or 0 none (lookup name checks.checks))
    × ((response.status ≡ status_unhealthy) ↔ Reports 0 status_unhealthy checks.checks)
    × ((response.status ≡ status_degraded)
        ↔ ((¬ Reports 0 status_unhealthy checks.checks) × Reports 0 status_degraded checks.checks))
    × ((response.status ≡ status_healthy) ↔ (ready ≡ 200))
    × ((ready ≡ 200) ↔ (
        (¬ Reports 0 status_unhealthy checks.checks) × (¬ Reports 0 status_degraded checks.checks)))
    × ((ready ≡ 200) ⊎ (ready ≡ 503))
    × ((seen (health_handler "now" checks get_admin 0).actions).status ≡ 200)
unfolding lookup
check_all_lem_example = check_all_lem "now" 0 checks get_admin (tt, (tt, tt))
