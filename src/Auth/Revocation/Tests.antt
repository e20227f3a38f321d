-- ===== src/Auth/Revocation/Tests.antt =====
-- The theorem on revocation checks at a concrete checker.
use api_gateway_go.Base.{
  ◌+◌, ◌≡◌, refl, Bool, true, false, none, some, String, [], string_eq, ltb, if◌then◌else◌, lookup,
}
use api_gateway_go.Ttl
use api_gateway_go.Auth.Revocation.{
  RevocationCache, RevocationChecker, HttpResult, response, unreachable, cache_get,
  check_revocation_list, revocation_url, is_revoked,
}
use api_gateway_go.Auth.Revocation.Laws.{is_revoked_lifetime}

abbrev no_answers : RevocationCache
no_answers = record { cache = []; ttl = 60 }

abbrev checker : RevocationChecker
checker = record { url = "http://revoked"; cache = some no_answers; enabled = true }

abbrev not_revoked : String → HttpResult
not_revoked url = response 200 (some false)

abbrev down : String → HttpResult
down url = unreachable

no_session : cache_get 5 "s1" no_answers ≡ none
unfolding cache_get Ttl.get lookup
no_session = refl

is_revoked_lifetime_example :
    let said = check_revocation_list (not_revoked (revocation_url checker "s1")) in
    let fresh = check_revocation_list (down (revocation_url checker "s1")) in
    let (verdict, rc') = is_revoked 5 6 checker not_revoked "s1" in
    (verdict ≡ said)
    × ((revoked : Bool)
        → said ≡ some revoked
        → (is_revoked 66 67 rc' down "s1").0 ≡ (if ltb (6 + 60) 66 then fresh else some revoked))
is_revoked_lifetime_example =
    is_revoked_lifetime 5 6 66 67 checker no_answers "s1" not_revoked down refl refl no_session
