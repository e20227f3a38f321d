-- ===== src/Auth/Policy/Cache.antt =====
-- The decision cache of internal/auth/policy.go: when it is transparent, and when it is stale.
use api_gateway_go.Base.{
  ℕ, ◌+◌, ◌≤◌, ◌≡◌, refl, inl, inr, Option, none, some, String, ◌==◌, string_eq, arith, eq_iff,
  Option-cases, Bool-cases,
}
use api_gateway_go.Ttl.Laws.{get-set}
use api_gateway_go.Auth.Context.{UserContext}
use api_gateway_go.Auth.Policy.{
  Policy, Decision, PolicyCache, PolicyEvaluator, evaluate, evaluate_policy, evaluate_cached,
  evaluate_user, build_cache_key, cache_get, cache_set,
}

-- Every readable entry under the key of a policy and a user in use is that pair's evaluation.
abbrev pub Coherent : (Policy → UserContext → Type 0) → PolicyCache → Type 0
Coherent Used pc =
    (now : ℕ) (policy : Policy) (user : UserContext) (d : Decision)
    → Used policy user
    → cache_get now (build_cache_key policy user) pc ≡ some d
    → d ≡ evaluate_policy policy (some user)

abbrev pub OptionCoherent : (Policy → UserContext → Type 0) → Option PolicyCache → Type 0
OptionCoherent Used none = Unit
OptionCoherent Used (some pc) = Coherent Used pc

module _ (now later : ℕ) (pc : PolicyCache) (p : Policy) (u : UserContext) where
  evaluate_cached_miss :
      cache_get now (build_cache_key p u) pc ≡ none
      → evaluate_cached now later pc p u ≡ (
        evaluate_policy p (some u),
        cache_set later (build_cache_key p u) (evaluate_policy p (some u)) pc,
      )
  unfolding evaluate_cached
  evaluate_cached_miss misses = rw (misses, evaluate_cached)

  evaluate_cached_hit :
      (d : Decision)
      → cache_get now (build_cache_key p u) pc ≡ some d
      → evaluate_cached now later pc p u ≡ (d, pc)
  unfolding evaluate_cached
  evaluate_cached_hit d hits = rw (hits, evaluate_cached)

module _ (Used : Policy → UserContext → Type 0)
    (keyed : (p p' : Policy) (u u' : UserContext)
      → Used p u
      → Used p' u'
      → build_cache_key p u ≡ build_cache_key p' u'
      → evaluate_policy p (some u) ≡ evaluate_policy p' (some u')) where
  cache_set-Coherent :
      (later : ℕ) (pc : PolicyCache) (p : Policy) (u : UserContext)
      → Used p u
      → Coherent Used pc
      → Coherent Used (cache_set later (build_cache_key p u) (evaluate_policy p (some u)) pc)
  unfolding cache_get cache_set
  cache_set-Coherent later pc p u used co now p' u' d used' hit =
      let same =
        get-set (build_cache_key p u) (build_cache_key p' u') (evaluate_policy p (some u)) later
          pc.ttl now pc.cache in
      elim (Bool-cases (build_cache_key p u == build_cache_key p' u')) [
        | inl hits ↦
            let key = (eq_iff (build_cache_key p u) (build_cache_key p' u')).0 hits in
            ground (arith, same, keyed p p' u u' used used' key)
        | inr misses ↦ co now p' u' d used' (ground (arith, same))
      ]

  evaluate_cached-Coherent :
      (now later : ℕ) (pc : PolicyCache) (p : Policy) (u : UserContext)
      → Used p u
      → Coherent Used pc
      → ((evaluate_cached now later pc p u).0 ≡ evaluate_policy p (some u))
        × Coherent Used (evaluate_cached now later pc p u).1
  evaluate_cached-Coherent now later pc p u used co =
      elim (Option-cases (cache_get now (build_cache_key p u) pc)) [
        | inl misses ↦
            rw (evaluate_cached_miss now later pc p u misses)
              (refl, cache_set-Coherent later pc p u used co)
        | inr (d, hits) ↦
            rw (evaluate_cached_hit now later pc p u d hits) (co now p u d used hits, co)
      ]

  evaluate_user-Coherent :
      (now later : ℕ) (o : Option PolicyCache) (p : Policy) (u : UserContext)
      → Used p u
      → OptionCoherent Used o
      → ((evaluate_user now later o p u).0 ≡ evaluate_policy p (some u))
        × OptionCoherent Used (evaluate_user now later o p u).1.cache
  unfolding evaluate_user
  evaluate_user-Coherent now later none p u used co = (refl, tt)
  evaluate_user-Coherent now later (some pc) p u used co =
      evaluate_cached-Coherent now later pc p u used co

  -- The cache is transparent, as long as any two pairs of a policy and a user that are in use and
  -- have the same key are evaluated alike: from a coherent cache `Evaluate` gives what
  -- `evaluatePolicy` gives, whatever has expired, and leaves a coherent cache.
  pub evaluate-transparent :
      (now later : ℕ) (pe : PolicyEvaluator) (p : Policy) (u : UserContext)
      → Used p u
      → OptionCoherent Used pe.cache
      → ((evaluate now later pe p (some u)).0 ≡ evaluate_policy p (some u))
        × OptionCoherent Used (evaluate now later pe p (some u)).1.cache
  unfolding evaluate
  evaluate-transparent now later pe p u used co =
      evaluate_user-Coherent now later pe.cache p u used co

abbrev pub with_cache : PolicyCache → PolicyEvaluator
with_cache pc = record { cache = some pc }

cache_get-cache_set :
    (key : String) (d : Decision) (later again : ℕ) (pc : PolicyCache)
    → again ≤ later + pc.ttl
    → cache_get again key (cache_set later key d pc) ≡ some d
unfolding cache_get cache_set
cache_get-cache_set key d later again pc alive =
    ground (arith, get-set key key d later pc.ttl again pc.cache, eq_iff key key)

-- The key holds the user's identifier and not the roles: where a decision was taken with nothing
-- cached, another user context with the same identifier gets that decision for the lifetime of the
-- entry, whatever its own roles and permissions.
pub evaluate_stale :
    (now later again : ℕ) (pc : PolicyCache) (p : Policy) (u u' : UserContext)
    → u'.user_id ≡ u.user_id
    → cache_get now (build_cache_key p u) pc ≡ none
    → again ≤ later + pc.ttl
    → let pe' = (evaluate now later (with_cache pc) p (some u)).1 in
      (evaluate again again pe' p (some u')).0 ≡ evaluate_policy p (some u)
evaluate_stale now later again pc p u u' same misses alive =
    let key = build_cache_key p u in
    let pc' = cache_set later key (evaluate_policy p (some u)) pc in
    let one_key : build_cache_key p u' ≡ key = (unfold build_cache_key in rw same) in
    let hits : cache_get again (build_cache_key p u') pc' ≡ some (evaluate_policy p (some u)) =
      rw one_key (cache_get-cache_set key (evaluate_policy p (some u)) later again pc alive) in
    (unfold evaluate evaluate_user in
      rw (evaluate_cached_miss now later pc p u misses)
        (rw (evaluate_cached_hit again again pc' p u' (evaluate_policy p (some u)) hits)))
