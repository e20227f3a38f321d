-- ===== src/RateLimit/Middleware/Charging.antt =====
-- In which order the limits of a request are charged.
use api_gateway_go.Base.{
  ℕ, ◌≡◌, refl, ◌⊎◌, inl, inr, ap, Bool, true, false, not, Option, none, some, String, List, [],
  ◌∷◌, ◌++◌, ◌==◌, string_eq, bytes_eq, Bool-cases,
}
use api_gateway_go.Config.{LimitDefinition, RateLimitConfig, RouteConfig}
use api_gateway_go.RateLimit.Float64.{Float64}
use api_gateway_go.RateLimit.Limiter.{
  Storage, Verdict, checked, invalid_window, storage_failed, limiter_allow,
}
use api_gateway_go.RateLimit.Middleware.{
  Request, Headers, no_headers, Outcome, next, too_many_requests, get_applicable_limits,
  add_rate_limit_headers, write_rate_limit_error, continue, return, on_error, turn, check_limits,
  rate_limit,
}

-- Whether the loop goes on after this answer of the limiter.
unfoldable pub tolerates : String → Verdict → Bool
tolerates failure_mode (checked result) = result.allowed
tolerates failure_mode invalid_window = not (failure_mode == "fail-closed")
tolerates failure_mode (storage_failed result) = not (failure_mode == "fail-closed")

unfoldable pub reaches_next : Outcome → Bool
reaches_next (next h) = true
reaches_next (too_many_requests h limit_def result) = false

pub turn-tolerates :
    (mode : String) (limit_def : LimitDefinition) (verdict : Verdict) (h : Headers)
    → ((tolerates mode verdict ≡ true)
        × ((h' : Headers) × (turn mode limit_def verdict h ≡ continue h')))
      ⊎ ((tolerates mode verdict ≡ false)
          × ((answer : Outcome) × (turn mode limit_def verdict h ≡ return answer)
              × (reaches_next answer ≡ false)))
unfolding tolerates turn on_error write_rate_limit_error reaches_next
turn-tolerates mode limit_def (checked result) h = elim (Bool-cases result.allowed) [
  | inl is_on ↦ inl (is_on, (add_rate_limit_headers result h, rw is_on refl))
  | inr is_off ↦ inr (
    is_off,
    (
      write_rate_limit_error limit_def (some result) (add_rate_limit_headers result h),
      rw is_off refl,
      refl,
    ),
  )
]
turn-tolerates mode limit_def invalid_window h = elim (Bool-cases (mode == "fail-closed")) [
  | inl is_on ↦ inr (rw is_on (refl, (write_rate_limit_error limit_def none h, refl, refl)))
  | inr is_off ↦ inl (rw is_off (refl, (h, refl)))
]
turn-tolerates mode limit_def (storage_failed result) h =
    elim (Bool-cases (mode == "fail-closed")) [
      | inl is_on ↦ inr (rw is_on (refl, (write_rate_limit_error limit_def none h, refl, refl)))
      | inr is_off ↦ inl (rw is_off (refl, (h, refl)))
    ]

module _ (fl : Float64) {S : Type 0} (storage : Storage fl.F S) (parse_duration : String → Option ℕ)
    (now : ℕ) (mode : String) (r : Request) where
  abbrev pub asked : LimitDefinition → S → Verdict × S
  asked limit_def s = limiter_allow fl storage parse_duration now mode r.keyed limit_def s

  -- The limits are asked in their order, each is met or its error tolerated, and the storage goes
  -- from the first state to the second.
  pub data Passes : List LimitDefinition → S → S → Type 0 where
    done : (s : S) → Passes [] s s
    met :
        {limits : List LimitDefinition} {s' : S} (limit_def : LimitDefinition) (s : S)
        → tolerates mode (asked limit_def s).0 ≡ true
        → Passes limits (asked limit_def s).1 s'
        → Passes (limit_def ∷ limits) s s'

  -- A limit in the list ends the loop: the limits before it are met and charged, it is charged too,
  -- and those after it are not.
  abbrev pub Refused : List LimitDefinition → S → S → Type 0
  Refused limits s s' =
      (before : List LimitDefinition) × (limit_def : LimitDefinition) × (after : List
        LimitDefinition)
      × (reached : S) × (limits ≡ before ++ limit_def ∷ after)
      × Passes before s reached
      × (tolerates mode (asked limit_def reached).0 ≡ false)
      × (s' ≡ (asked limit_def reached).1)

  pub check_limits-continue :
      (limit_def : LimitDefinition) (limits : List LimitDefinition) (h h' : Headers) (s : S)
      → turn mode limit_def (asked limit_def s).0 h ≡ continue h'
      → check_limits fl storage parse_duration now mode r (limit_def ∷ limits) h s
        ≡ check_limits fl storage parse_duration now mode r limits h' (asked limit_def s).1
  unfolding check_limits
  check_limits-continue limit_def limits h h' s e = rw (check_limits, e) refl

  pub check_limits-return :
      (limit_def : LimitDefinition) (limits : List LimitDefinition) (h : Headers) (answer : Outcome)
      (s : S)
      → turn mode limit_def (asked limit_def s).0 h ≡ return answer
      → check_limits fl storage parse_duration now mode r (limit_def ∷ limits) h s
        ≡ (answer, (asked limit_def s).1)
  unfolding check_limits
  check_limits-return limit_def limits h answer s e = rw (check_limits, e) refl

  check_limits_lem :
      (limits : List LimitDefinition) (h : Headers) (s : S)
      → let (outcome, s') = check_limits fl storage parse_duration now mode r limits h s in
        ((reaches_next outcome ≡ true) × Passes limits s s')
        ⊎ ((reaches_next outcome ≡ false) × Refused limits s s')
  unfolding reaches_next check_limits
  check_limits_lem [] h s = inl (refl, done s)
  check_limits_lem (limit_def ∷ limits) h s =
      elim (turn-tolerates mode limit_def (asked limit_def s).0 h) [
        | inl (ok, (h', e)) ↦
            rw (check_limits-continue limit_def limits h h' s e)
              (elim (check_limits_lem limits h' (asked limit_def s).1) [
                | inl (passed, p) ↦ inl (passed, met limit_def s ok p)
                | inr (stopped, (before, last, after, reached, split, p, bad, final)) ↦ inr (
                  stopped,
                  (
                    limit_def ∷ before,
                    last,
                    after,
                    reached,
                    ap (λ t. limit_def ∷ t) split,
                    met limit_def s ok p,
                    bad,
                    final,
                  ),
                )
              ])
        | inr (bad, (answer, e, stopped)) ↦
            rw (check_limits-return limit_def limits h answer s e)
              (inr (stopped, ([], limit_def, limits, s, refl, done s, bad, refl)))
      ]

  -- With rate limiting on, a request either reaches the next handler, and then every applicable
  -- limit was asked once, in order, and met or its error tolerated; or it gets a 429 at the first
  -- limit that was not, and the limits before that one have been charged all the same.
  pub rate_limit_lem :
      (cfg : RateLimitConfig) (routes : List RouteConfig) (s : S)
      → cfg.enabled ≡ true
      → cfg.failure_mode ≡ mode
      → let (outcome, s') = rate_limit fl storage parse_duration cfg routes now r s in
        let limits = get_applicable_limits r cfg routes in
        ((reaches_next outcome ≡ true) × Passes limits s s')
        ⊎ ((reaches_next outcome ≡ false) × Refused limits s s')
  unfolding rate_limit get_applicable_limits
  rate_limit_lem cfg routes s on same =
      rw on (rw same (check_limits_lem (get_applicable_limits r cfg routes) no_headers s))
