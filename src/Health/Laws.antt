-- ===== src/Health/Laws.antt =====
-- What the health report says of the checks.
use api_gateway_go.Base.{
  ℕ, ◌≡◌, ◌≢◌, ◌↔◌, ◌⊎◌, inr, refl, ◌∙◌, Option, none, some, String, [], ◌∷◌, Dict, lookup, insert,
  lookup-insert, Unique, eq_iff, ◌==◌, string_eq, arith, if◌then◌else◌, Any,
}
use api_gateway_go.Http.{Request, seen, answer, act}
use api_gateway_go.Health.{
  Status, status_healthy, status_unhealthy, status_degraded, Check, Checker, Manager, update,
  run_checks, check_all, report, readiness_handler, health_handler,
}

names_differ :
    (status_unhealthy ≢ status_degraded)
    × (status_unhealthy ≢ status_healthy)
    × (status_degraded ≢ status_healthy)
names_differ = (
  ground (arith, eq_iff status_unhealthy status_degraded),
  ground (arith, eq_iff status_unhealthy status_healthy),
  ground (arith, eq_iff status_degraded status_healthy),
)

abbrev Known : Status → Type 0
Known s = (s ≡ status_unhealthy) ⊎ (s ≡ status_degraded) ⊎ (s ≡ status_healthy)

update_lem :
    (s before : Status)
    → Known before
    → Known (update s before)
      × ((update s before ≡ status_unhealthy)
          ↔ ((before ≡ status_unhealthy) ⊎ (s ≡ status_unhealthy)))
      × ((update s before ≡ status_degraded) ↔ (
          (before ≢ status_unhealthy)
          × (s ≢ status_unhealthy)
          × ((before ≡ status_degraded) ⊎ (s ≡ status_degraded))))
unfolding update
update_lem s before known = ground (
  arith,
  names_differ,
  eq_iff s status_unhealthy,
  eq_iff s status_degraded,
  eq_iff before status_healthy,
)

module _ {W : Type 0} (w : W) where
  -- Some check reports this status.
  abbrev pub Reports : Status → Dict String (Checker W) → Type 0
  Reports status checks =
      Any (λ ((name, checker) : String × Checker W). (checker w).status ≡ status) checks

  -- The worst of the statuses that the checks report and of the status before.
  abbrev Worst : Status → Dict String (Checker W) → Status → Type 0
  Worst before checks overall =
      ((overall ≡ status_unhealthy)
        ↔ ((before ≡ status_unhealthy) ⊎ Reports status_unhealthy checks))
      × ((overall ≡ status_degraded) ↔ (
          (before ≢ status_unhealthy)
          × (¬ Reports status_unhealthy checks)
          × ((before ≡ status_degraded) ⊎ Reports status_degraded checks)))
      × Known overall

  run_checks-status :
      (checks : Dict String (Checker W)) (before : Status) (results : Dict String Check)
      → Known before
      → Worst before checks (run_checks w checks before results).0
  unfolding run_checks
  run_checks-status [] before results known = ground (arith, names_differ)
  run_checks-status ((name, checker) ∷ rest) before results known =
      let check = checker w in
      let (known', bad, worse) = update_lem check.status before known in
      let (bad', worse', known'') =
        run_checks-status rest (update check.status before) (insert name check results) known' in
      (ground arith, ground arith, known'')

  abbrev pub result_or : Option Check → Option (Checker W) → Option Check
  result_or old none = old
  result_or old (some checker) = some (checker w)

  run_checks-results :
      (checks : Dict String (Checker W)) (before : Status) (results : Dict String Check)
      (asked : String)
      → Unique checks
      → lookup asked (run_checks w checks before results).1
        ≡ result_or (lookup asked results) (lookup asked checks)
  unfolding run_checks lookup
  run_checks-results [] before results asked unique = refl
  run_checks-results ((name, checker) ∷ rest) before results asked (absent, unique) =
      run_checks-results rest (update (checker w).status before) (insert name (checker w) results)
        asked unique
      ∙ ground (arith, lookup-insert name asked (checker w) results, eq_iff name asked)

-- A health report has the result of every registered check and no other. Its status is "unhealthy"
-- exactly if some check says so, "degraded" exactly if some check says so and none is "unhealthy",
-- and "healthy" otherwise, in whatever order the checks run. The readiness probe answers 200 exactly
-- if no check says "unhealthy" or "degraded", and else 503; the health page always answers 200.
pub check_all_lem :
    {W : Type 0} (now : String) (w : W) (m : Manager W) (r : Request)
    → Unique m.checks
    → let response = check_all now w m in
      let ready = (seen (readiness_handler now m r w).actions).status in
      ((name : String) → lookup name response.checks ≡ result_or w none (lookup name m.checks))
      × ((response.status ≡ status_unhealthy) ↔ Reports w status_unhealthy m.checks)
      × ((response.status ≡ status_degraded)
          ↔ ((¬ Reports w status_unhealthy m.checks) × Reports w status_degraded m.checks))
      × ((response.status ≡ status_healthy) ↔ (ready ≡ 200))
      × ((ready ≡ 200)
          ↔ ((¬ Reports w status_unhealthy m.checks) × (¬ Reports w status_degraded m.checks)))
      × ((ready ≡ 200) ⊎ (ready ≡ 503))
      × ((seen (health_handler now m r w).actions).status ≡ 200)
unfolding check_all readiness_handler health_handler report seen lookup answer act
check_all_lem now w m r unique =
    let status = (run_checks w m.checks status_healthy []).0 in
    let ready_iff : (status ≡ status_healthy)
        ↔ (◌≡◌ {A = ℕ} (if status == status_healthy then 200 else 503) 200) =
      ground (arith, eq_iff status status_healthy) in
    let (bad, worse, known) = run_checks-status w m.checks status_healthy [] (inr (inr refl)) in
    (
      λ name. run_checks-results w m.checks status_healthy [] name unique,
      ground (arith, names_differ),
      ground (arith, names_differ),
      ready_iff,
      ground (arith, names_differ, ready_iff),
      ground arith,
      refl,
    )
