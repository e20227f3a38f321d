-- ===== src/RateLimit/Middleware/Failure.antt =====
-- What a request meets when the storage of the counters cannot be read.
use api_gateway_go.Base.{
  ℕ, ◌≡◌, refl, inl, inr, Bool, true, false, not, Option, none, some, String, List, [], ◌∷◌, Bytes,
  ◌==◌, string_eq, bytes_eq, arith, Option-cases, ◌&&◌, ◌||◌, eq_iff, ◌∙◌,
}
use api_gateway_go.Config.{LimitDefinition, RateLimitConfig, RouteConfig}
use api_gateway_go.RateLimit.Float64.{Float64}
use api_gateway_go.RateLimit.Key.{generate_key}
use api_gateway_go.RateLimit.Limiter.Unreadable.{limiter_allow-unreadable}
use api_gateway_go.RateLimit.Limiter.{Storage, checked, invalid_window, unlimited, limiter_allow}
use api_gateway_go.RateLimit.Middleware.Charging.{
  asked, tolerates, reaches_next, turn-tolerates, check_limits-continue, check_limits-return,
}
use api_gateway_go.RateLimit.Middleware.{
  Request, Headers, no_headers, get_applicable_limits, check_limits, rate_limit,
}

-- Whether the template of the limit gives no key for the request.
abbrev pub is_keyless : Request → LimitDefinition → Bool
is_keyless r limit_def = elim (generate_key limit_def.key r.keyed) [
  | none ↦ true
  | some key ↦ false
]

abbrev pub all_keyless : Request → List LimitDefinition → Bool
all_keyless r [] = true
all_keyless r (limit_def ∷ limits) = is_keyless r limit_def && all_keyless r limits

open_not_closed : (mode : String) → (mode == "fail-open") ≡ true → (mode == "fail-closed") ≡ false
open_not_closed mode h = rw ((eq_iff mode "fail-open").0 h) refl

is_keyless-none :
    (r : Request) (limit_def : LimitDefinition)
    → generate_key limit_def.key r.keyed ≡ none
    → is_keyless r limit_def ≡ true
is_keyless-none r limit_def h = rw (is_keyless, h) refl

is_keyless-some :
    (r : Request) (limit_def : LimitDefinition) (key : Bytes)
    → generate_key limit_def.key r.keyed ≡ some key
    → is_keyless r limit_def ≡ false
is_keyless-some r limit_def key h = rw (is_keyless, h) refl

module _ (fl : Float64) {S : Type 0} (storage : Storage fl.F S) (parse_duration : String → Option ℕ)
    (now : ℕ) (mode : String) (r : Request) where
  asked-keyless :
      (limit_def : LimitDefinition) (s : S)
      → generate_key limit_def.key r.keyed ≡ none
      → limiter_allow fl storage parse_duration now mode r.keyed limit_def s
        ≡ (checked (unlimited now limit_def), s)
  unfolding limiter_allow
  asked-keyless limit_def s h = rw (limiter_allow, h) refl

  asked-invalid :
      (limit_def : LimitDefinition) (s : S) (key : Bytes)
      → generate_key limit_def.key r.keyed ≡ some key
      → parse_duration limit_def.window ≡ none
      → limiter_allow fl storage parse_duration now mode r.keyed limit_def s ≡ (invalid_window, s)
  unfolding limiter_allow
  asked-invalid limit_def s key h bad = rw (limiter_allow, h, bad) refl

module _ (fl : Float64) {S : Type 0} (storage : Storage fl.F S) (parse_duration : String → Option ℕ)
    (now : ℕ) (mode : String) (r : Request)
    (down : (key : Bytes) (s : S) → storage.read now key s ≡ none) where
  asked_unreadable :
      (limit_def : LimitDefinition) (s : S)
      → let (verdict, s') = asked fl storage parse_duration now mode r limit_def s in
        (tolerates mode verdict ≡ (not (mode == "fail-closed") || is_keyless r limit_def))
        × (s' ≡ s)
  unfolding tolerates
  asked_unreadable limit_def s = elim (Option-cases (generate_key limit_def.key r.keyed)) [
    | inl missing ↦
        rw (asked-keyless fl storage parse_duration now mode r limit_def s missing)
          (rw (is_keyless-none r limit_def missing) (ground arith, refl))
    | inr (key, found) ↦ elim (Option-cases (parse_duration limit_def.window)) [
      | inl bad ↦
          rw (asked-invalid fl storage parse_duration now mode r limit_def s key found bad)
            (rw (is_keyless-some r limit_def key found) (ground arith, refl))
      | inr (window, good) ↦
          rw
            (limiter_allow-unreadable fl storage parse_duration now mode r.keyed limit_def s key
              window found good (down key s))
            (rw (is_keyless-some r limit_def key found)
              (ground (arith, open_not_closed mode), refl))
    ]
  ]

  check_limits_unreadable :
      (limits : List LimitDefinition) (h : Headers) (s : S)
      → let (outcome, s') = check_limits fl storage parse_duration now mode r limits h s in
        (reaches_next outcome ≡ (not (mode == "fail-closed") || all_keyless r limits)) × (s' ≡ s)
  unfolding reaches_next check_limits
  check_limits_unreadable [] h s = (ground arith, refl)
  check_limits_unreadable (limit_def ∷ limits) h s =
      let (tolerated, same) = asked_unreadable limit_def s in
      elim (turn-tolerates mode limit_def (asked fl storage parse_duration now mode r limit_def s).0
        h) [
          | inl (ok, (h', e)) ↦
              let (later, kept) =
                check_limits_unreadable limits h'
                  (asked fl storage parse_duration now mode r limit_def s).1 in
              rw
                (check_limits-continue fl storage parse_duration now mode r limit_def limits h h' s
                  e)
                (ground (arith, ok, tolerated, later), kept ∙ same)
          | inr (bad, (answer, e, stopped)) ↦
              rw
                (check_limits-return fl storage parse_duration now mode r limit_def limits h answer
                  s e)
                (ground (arith, bad, tolerated, stopped), same)
        ]

  -- With rate limiting on and a storage that cannot be read, the storage is left alone, and a
  -- request reaches the next handler unless the failure mode is `fail-closed` and some applicable
  -- limit has a key for it: every other mode lets all requests pass.
  pub rate_limit_unreadable :
      (cfg : RateLimitConfig) (routes : List RouteConfig) (s : S)
      → cfg.enabled ≡ true
      → cfg.failure_mode ≡ mode
      → let (outcome, s') = rate_limit fl storage parse_duration cfg routes now r s in
        (reaches_next outcome
          ≡ (not (mode == "fail-closed") || all_keyless r (get_applicable_limits r cfg routes)))
        × (s' ≡ s)
  unfolding rate_limit get_applicable_limits
  rate_limit_unreadable cfg routes s on same =
      rw on (rw same (check_limits_unreadable (get_applicable_limits r cfg routes) no_headers s))
