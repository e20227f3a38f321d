-- ===== src/Auth/Revocation.antt =====
-- internal/auth/revocation.go: whether a session has been revoked.
-- The answer of the revocation service to the HTTP request is a parameter of the check.
pub mod Laws
mod Tests
use api_gateway_go.Base.{
  ℕ, ◌+◌, Bool, true, false, not, ◌&&◌, Option, none, some, String, [], ◌==◌, string_eq, eqb, ltb,
  concat, ◌∷◌, if◌then◌else◌,
}
use api_gateway_go.Config.{AuthorizationConfig}
use api_gateway_go.Ttl
use api_gateway_go.Ttl.{Store}

pub record RevocationCache : Type 0 where
  pub cache : Store String Bool
  pub ttl : ℕ

unfoldable pub cache_get : ℕ → String → RevocationCache → Option Bool
cache_get now session_id rc = Ttl.get now session_id rc.cache

unfoldable pub cache_set : ℕ → String → Bool → RevocationCache → RevocationCache
cache_set now session_id revoked rc = record rc {
  cache = Ttl.set now session_id revoked rc.ttl rc.cache;
}

-- One tick of the loop of `cleanup`.
unfoldable pub cache_cleanup : ℕ → RevocationCache → RevocationCache
cache_cleanup now rc = record rc { cache = Ttl.cleanup now rc.cache }

pub record RevocationChecker : Type 0 where
  pub url : String
  pub cache : Option RevocationCache
  pub enabled : Bool

unfoldable pub new_revocation_checker : AuthorizationConfig → RevocationChecker
new_revocation_checker cfg =
    let enabled = not (cfg.revocation_list_url == "") in
    record {
      url = cfg.revocation_list_url;
      cache =
          if enabled && ltb 0 cfg.revocation_list_cache
          then some (record { cache = []; ttl = cfg.revocation_list_cache })
          else none;
      enabled = enabled;
    }

unfoldable pub revocation_url : RevocationChecker → String → String
revocation_url rc session_id = concat (rc.url ∷ "?session_id=" ∷ session_id ∷ [])

-- The HTTP exchange: it fails, or answers with a status and a body, which decodes or does not.
pub data HttpResult : Type 0 where
  unreachable : HttpResult
  response : ℕ → Option Bool → HttpResult

abbrev pub status_ok : ℕ
status_ok = 200

-- `checkRevocationList`; `none` is an error.
unfoldable pub check_revocation_list : HttpResult → Option Bool
check_revocation_list unreachable = none
check_revocation_list (response status body) = if eqb status status_ok then body else none

-- The result of `IsRevoked`: `none` is an error.
unfoldable pub ask_cached :
    ℕ
    → ℕ
    → RevocationCache
    → (String → HttpResult)
    → String
    → String
    → Option Bool × RevocationCache
ask_cached now later cache service url session_id = elim (cache_get now session_id cache) [
  | some revoked ↦ (some revoked, cache)
  | none ↦ elim (check_revocation_list (service url)) [
    | none ↦ (none, cache)
    | some revoked ↦ (some revoked, cache_set later session_id revoked cache)
  ]
]

unfoldable pub ask :
    ℕ
    → ℕ
    → Option RevocationCache
    → (String → HttpResult)
    → String
    → String
    → Option Bool × Option RevocationCache
ask now later none service url session_id = (check_revocation_list (service url), none)
ask now later (some cache) service url session_id =
    let (revoked, cache') = ask_cached now later cache service url session_id in
    (revoked, some cache')

-- `IsRevoked`; the cache is read at `now` and written at `later`.
unfoldable pub is_revoked :
    ℕ → ℕ → RevocationChecker → (String → HttpResult) → String → Option Bool × RevocationChecker
unfolding ask
is_revoked now later rc service session_id =
    let (revoked, cache') =
      ask now later rc.cache service (revocation_url rc session_id) session_id in
    if rc.enabled then (revoked, record rc { cache = cache' }) else (some false, rc)
