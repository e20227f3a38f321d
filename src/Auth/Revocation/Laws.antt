-- ===== src/Auth/Revocation/Laws.antt =====
-- How long an answer of the revocation service is believed.
use api_gateway_go.Base.{
  ℕ, ◌+◌, ◌≡◌, refl, Bool, true, false, Option, none, some, String, string_eq, arith, eq_iff, ltb,
  if◌then◌else◌, ◌∙◌,
}
use api_gateway_go.Ttl.Laws.{get-set}
use api_gateway_go.Auth.Revocation.{
  RevocationCache, RevocationChecker, HttpResult, cache_get, cache_set, check_revocation_list,
  ask_cached, is_revoked, revocation_url,
}

cache_get-cache_set :
    (session_id : String) (revoked : Bool) (later again : ℕ) (cache : RevocationCache)
    → cache_get again session_id (cache_set later session_id revoked cache)
      ≡ (if ltb (later + cache.ttl) again then none else some revoked)
unfolding cache_get cache_set
cache_get-cache_set session_id revoked later again cache = ground (
  arith,
  get-set session_id session_id revoked later cache.ttl again cache.cache,
  eq_iff session_id session_id,
)

-- The verdict: what the cache says, or else the service.
abbrev or_ask : Option Bool → Option Bool → Option Bool
or_ask none fresh = fresh
or_ask (some revoked) fresh = some revoked

or_ask_if :
    (over : Bool) (revoked : Bool) (fresh : Option Bool)
    → or_ask (if over then none else some revoked) fresh ≡ (if over then fresh else some revoked)
or_ask_if true revoked fresh = refl
or_ask_if false revoked fresh = refl

is_revoked_verdict :
    (now later : ℕ) (rc : RevocationChecker) (cache : RevocationCache)
    (service : String → HttpResult) (session_id : String)
    → rc.enabled ≡ true
    → rc.cache ≡ some cache
    → (is_revoked now later rc service session_id).0
      ≡ or_ask
          (cache_get now session_id cache)
          (check_revocation_list (service (revocation_url rc session_id)))
unfolding is_revoked ask_cached
is_revoked_verdict now later rc cache service session_id on cached = ground arith

is_revoked_remembers :
    (now later : ℕ) (rc : RevocationChecker) (cache : RevocationCache)
    (service : String → HttpResult) (session_id : String) (revoked : Bool)
    → rc.enabled ≡ true
    → rc.cache ≡ some cache
    → cache_get now session_id cache ≡ none
    → check_revocation_list (service (revocation_url rc session_id)) ≡ some revoked
    → (is_revoked now later rc service session_id).1
      ≡ record rc { cache = some (cache_set later session_id revoked cache) }
unfolding is_revoked ask_cached
is_revoked_remembers now later rc cache service session_id revoked on cached missing answered =
    ground arith

-- With checking and its cache enabled, a first check of a session that is not in the cache takes
-- the service's answer. If that is an answer and not an error, a second check repeats it until the
-- lifetime of the entry is over, whatever the service says by then; after it the second check asks
-- again.
pub is_revoked_lifetime :
    (now later again last : ℕ) (rc : RevocationChecker) (cache : RevocationCache)
    (session_id : String) (first second : String → HttpResult)
    → rc.enabled ≡ true
    → rc.cache ≡ some cache
    → cache_get now session_id cache ≡ none
    → let answer = check_revocation_list (first (revocation_url rc session_id)) in
      let fresh = check_revocation_list (second (revocation_url rc session_id)) in
      let (verdict, rc') = is_revoked now later rc first session_id in
      (verdict ≡ answer)
      × ((revoked : Bool)
          → answer ≡ some revoked
          → (is_revoked again last rc' second session_id).0
            ≡ (if ltb (later + cache.ttl) again then fresh else some revoked))
unfolding revocation_url
is_revoked_lifetime now later again last rc cache session_id first second on cached missing = (
  is_revoked_verdict now later rc cache first session_id on cached ∙ rw missing,
  λ revoked answered.
      rw
        (is_revoked_remembers now later rc cache first session_id revoked on cached missing
          answered)
        (is_revoked_verdict again last
            (record rc { cache = some (cache_set later session_id revoked cache) })
            (cache_set later session_id revoked cache) second session_id on refl
          ∙ rw (cache_get-cache_set session_id revoked later again cache) (
              or_ask_if (ltb (later + cache.ttl) again) revoked
                (check_revocation_list (second (revocation_url rc session_id))))),
)
