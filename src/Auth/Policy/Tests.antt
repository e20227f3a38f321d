-- ===== src/Auth/Policy/Tests.antt =====
-- The theorems on policies at a concrete user and policy.
use api_gateway_go.Base.{◌≡◌, ◌↔◌, refl, true, none, some, string_eq, arith, lookup}
use api_gateway_go.Ttl
use api_gateway_go.Auth.Context.{UserContext, new_user_context}
use api_gateway_go.Auth.Policy.{Policy, evaluate_policy, build_cache_key, cache_get, evaluate}
use api_gateway_go.Auth.Policy.Laws.{Grants, evaluate_policy_iff}
use api_gateway_go.Auth.Policy.Cache.{
  OptionCoherent, evaluate-transparent, evaluate_stale, with_cache,
}
use api_gateway_go.Auth.Samples.{ann, ann_demoted, admins_only, empty_cache}

evaluate_policy_iff_example :
    ((evaluate_policy admins_only (some ann)).allowed ≡ true) ↔ Grants admins_only (some ann)
evaluate_policy_iff_example = evaluate_policy_iff admins_only (some ann)

nothing_cached : cache_get 5 (build_cache_key admins_only ann) empty_cache ≡ none
unfolding cache_get Ttl.get lookup
nothing_cached = refl

same_user : ann_demoted.user_id ≡ ann.user_id
unfolding new_user_context
same_user = refl

evaluate_stale_example :
    let pe' = (evaluate 5 6 (with_cache empty_cache) admins_only (some ann)).1 in
    (evaluate 300 300 pe' admins_only (some ann_demoted)).0 ≡ evaluate_policy admins_only (some ann)
evaluate_stale_example =
    evaluate_stale 5 6 300 empty_cache admins_only ann ann_demoted same_user nothing_cached
      (omega arith)

-- Only one user and one policy are in use.
abbrev OnlyAnn : Policy → UserContext → Type 0
OnlyAnn p u = (p ≡ admins_only) × (u ≡ ann)

one_key :
    (p p' : Policy) (u u' : UserContext)
    → OnlyAnn p u
    → OnlyAnn p' u'
    → build_cache_key p u ≡ build_cache_key p' u'
    → evaluate_policy p (some u) ≡ evaluate_policy p' (some u')
one_key p p' u u' (hp, hu) (hp', hu') same = rw hp (rw hu (rw hp' (rw hu' refl)))

empty-Coherent : OptionCoherent OnlyAnn (some empty_cache)
unfolding cache_get Ttl.get lookup
empty-Coherent now policy user d used found = ground (found, arith)

evaluate-transparent_example :
    ((evaluate 5 6 (record { cache = some empty_cache }) admins_only (some ann)).0
      ≡ evaluate_policy admins_only (some ann))
    × OptionCoherent OnlyAnn
        (evaluate 5 6 (record { cache = some empty_cache }) admins_only (some ann)).1.cache
evaluate-transparent_example =
    evaluate-transparent OnlyAnn one_key 5 6 (record { cache = some empty_cache }) admins_only ann
      (refl, refl) empty-Coherent
