-- ===== src/Health.antt =====
-- internal/health/health.go: health checks, and the handlers that report them.
-- A checker reads the state `W` of the gateway and what it depends on. The order in which a Go map is
-- walked is not fixed; here it is that of the association list. A timestamp is a text that is given.
pub mod Laws
mod Tests
use api_gateway_go.Base.{
  ℕ, Bool, true, false, ◌&&◌, Option, none, some, String, List, [], ◌∷◌, ◌++◌, map, Dict, insert,
  delete_if, leb, ltb, ◌==◌, string_eq, if◌then◌else◌,
}
use api_gateway_go.Http.{
  Action, set_header, write_header, write, json, Value, text, objects, Handler, Run, done,
}

abbrev pub Status : Type 0
Status = String

abbrev pub status_healthy : Status
status_healthy = "healthy"

abbrev pub status_unhealthy : Status
status_unhealthy = "unhealthy"

abbrev pub status_degraded : Status
status_degraded = "degraded"

pub record Check : Type 0 where
  pub name : String
  pub status : Status
  pub error : String

pub record Response : Type 0 where
  pub status : Status
  pub timestamp : String
  pub checks : Dict String Check

abbrev pub Checker : Type 0 → Type 0
Checker W = W → Check

pub record Manager (W : Type 0) : Type 0 where
  pub checks : Dict String (Checker W)

unfoldable pub new_manager : {W : Type 0} → Manager W
new_manager = record { checks = [] }

unfoldable pub register : {W : Type 0} → String → Checker W → Manager W → Manager W
register name checker m = record { checks = insert name checker m.checks }

unfoldable pub unregister : {W : Type 0} → String → Manager W → Manager W
unregister name m = record { checks = delete_if (λ key checker. key == name) m.checks }

-- How one result changes the status so far.
unfoldable pub update : Status → Status → Status
update status overall =
    if status == status_unhealthy
    then status_unhealthy
    else if status == status_degraded && overall == status_healthy
    then status_degraded
    else overall

-- The loop of `Check`, with the status and the results so far.
unfoldable pub run_checks :
    {W : Type 0}
    → W
    → Dict String (Checker W)
    → Status
    → Dict String Check
    → Status × Dict String Check
unfolding update
run_checks w [] overall results = (overall, results)
run_checks w ((name, checker) ∷ rest) overall results =
    let check = checker w in
    run_checks w rest (update check.status overall) (insert name check results)

-- `Check`
unfoldable pub check_all : {W : Type 0} → String → W → Manager W → Response
unfolding run_checks
check_all now w m =
    let (status, results) = run_checks w m.checks status_healthy [] in
    record { status = status; timestamp = now; checks = results }

-- The JSON of a response; `omitempty` leaves out empty errors and an empty map.
abbrev check_fields : Check → List (String × String)
check_fields c =
    ("name", c.name)
    ∷ ("status", c.status)
    ∷ (if c.error == "" then [] else ("error", c.error) ∷ [])

abbrev checks_field : Dict String Check → List (String × Value)
checks_field [] = []
checks_field (c ∷ cs) =
    ("checks", objects (map (λ (name, check). (name, check_fields check)) (c ∷ cs))) ∷ []

unfoldable pub encode : Response → List (String × Value)
encode r = ("status", text r.status) ∷ ("timestamp", text r.timestamp) ∷ checks_field r.checks

unfoldable pub report : ℕ → Response → List Action
unfolding encode
report status r =
    set_header "Content-Type" "application/json"
    ∷ write_header status
    ∷ write (json (encode r))
    ∷ []

unfoldable pub liveness_handler : {W : Type 0} → String → Handler W
unfolding report
liveness_handler now r w =
    done (report 200 (record { status = status_healthy; timestamp = now; checks = [] })) w

unfoldable pub readiness_handler : {W : Type 0} → String → Manager W → Handler W
unfolding report check_all
readiness_handler now m r w =
    let response = check_all now w m in
    done (report (if response.status == status_healthy then 200 else 503) response) w

unfoldable pub health_handler : {W : Type 0} → String → Manager W → Handler W
unfolding report check_all
health_handler now m r w = done (report 200 (check_all now w m)) w

unfoldable pub config_checker : {W : Type 0} → (W → Bool) → Checker W
config_checker is_valid w =
    if is_valid w
    then record { name = "config"; status = status_healthy; error = "" }
    else record { name = "config"; status = status_unhealthy; error = "configuration is invalid" }

-- A checker that pings, with the error's text; `none` is nil.
abbrev pinged : String → Option String → Check
pinged name none = record { name = name; status = status_healthy; error = "" }
pinged name (some e) = record { name = name; status = status_unhealthy; error = e }

unfoldable pub redis_checker : {W : Type 0} → (W → Option String) → Checker W
redis_checker ping w = pinged "redis" (ping w)

-- `fetch` is the client's `Get` with the checker's timeout: the status of the answer, or an error.
pub data Fetched : Type 0 where
  failed : String → Fetched
  answered : ℕ → Fetched

abbrev fetched : String → Fetched → Check
fetched name (failed e) = record { name = name; status = status_unhealthy; error = e }
fetched name (answered status) =
    if leb 200 status && ltb status 300
    then record { name = name; status = status_healthy; error = "" }
    else record { name = name; status = status_unhealthy; error = "non-2xx status code" }

unfoldable pub http_checker : {W : Type 0} → String → (W → Fetched) → Checker W
http_checker name fetch w = fetched name (fetch w)

-- `ping` is the limiter's `Ping` under a timeout of two seconds.
unfoldable pub rate_limiter_checker : {W : Type 0} → (W → Option String) → Checker W
rate_limiter_checker ping w = pinged "ratelimit" (ping w)
