-- ===== src/Auth/Extractor/Laws.antt =====
-- Which requests yield a session token.
use api_gateway_go.Base.{
  ◌≡◌, ◌≢◌, refl, inl, inr, true, false, none, some, String, List, [], ◌∷◌, ◌++◌, ◌==◌, string_eq,
  arith, eq_iff, Option-cases, All, ◌∙◌, if◌then◌else◌,
}
use api_gateway_go.Auth.Errors.{error_of, ok, err}
use api_gateway_go.Auth.Extractor.{
  ExtractorConfig, Cookie, unset, sent_cookie, request_cookie, extract_token,
  validate_cookie_security,
}

request_cookie_bare :
    (name : String) (cookies : List (String × String)) (cookie : Cookie)
    → request_cookie name cookies ≡ some cookie
    → (cookie.secure ≡ false) × (cookie.http_only ≡ false) × (cookie.same_site ≡ unset)
unfolding request_cookie
request_cookie_bare name [] cookie h = cc
request_cookie_bare name ((n, value) ∷ rest) cookie h =
    ground (arith, request_cookie_bare name rest cookie)

-- With `EnforceCookieSecurity` no request yields a token, whatever cookies it sends: the flags that
-- are checked are never part of what a client sends.
pub extract_token_enforced :
    (te : ExtractorConfig) (cookies : List (String × String))
    → te.enforce_cookie_security ≡ true
    → (token : String) → extract_token te cookies ≢ ok token
unfolding extract_token validate_cookie_security
extract_token_enforced te cookies on token h =
    elim (Option-cases (request_cookie te.cookie_name cookies)) [
      | inl missing ↦ ground arith
      | inr (cookie, found) ↦
          ground (arith, request_cookie_bare te.cookie_name cookies cookie found)
    ]

request_cookie_first :
    (name : String) (before after : List (String × String)) (value : String)
    → name ≢ ""
    → All (λ c. c.0 ≢ name) before
    → (request_cookie name (before ++ (name, value) ∷ after) ≡ some (sent_cookie name value))
      × (request_cookie name before ≡ none)
unfolding request_cookie
request_cookie_first name [] after value named absent =
    (ground (arith, eq_iff name "", eq_iff name name), refl)
request_cookie_first name ((n, v) ∷ before) after value named (differs, absent) = ground (
  arith,
  eq_iff name "",
  eq_iff n name,
  request_cookie_first name before after value named absent,
)

validate_lenient :
    (te : ExtractorConfig) (cookie : Cookie)
    → te.enforce_cookie_security ≡ false
    → validate_cookie_security te cookie ≡ ok cookie
unfolding validate_cookie_security
validate_lenient te cookie off = rw off

extract_token_found :
    (te : ExtractorConfig) (cookies : List (String × String)) (n value : String)
    → te.enforce_cookie_security ≡ false
    → request_cookie te.cookie_name cookies ≡ some (sent_cookie n value)
    → extract_token te cookies
      ≡ (if value == "" then err (error_of "missing_token" "Session token is empty") else ok value)
unfolding extract_token
extract_token_found te cookies n value off found =
    rw (found, extract_token) (rw (validate_lenient te (sent_cookie n value) off) refl)

extract_token_missing :
    (te : ExtractorConfig) (cookies : List (String × String))
    → request_cookie te.cookie_name cookies ≡ none
    → extract_token te cookies
      ≡ err (error_of "missing_token" "Session token is required for this resource")
unfolding extract_token
extract_token_missing te cookies missing = rw (missing, extract_token)

-- Without enforcement, for a configured name that is not empty: the token is the value of the first
-- cookie of that name if the value is not empty; an empty value there, and a request without such a
-- cookie, are both a "missing_token", with different messages.
pub extract_token_lenient :
    (te : ExtractorConfig) (before after : List (String × String)) (value : String)
    → te.enforce_cookie_security ≡ false
    → te.cookie_name ≢ ""
    → All (λ c. c.0 ≢ te.cookie_name) before
    → (value ≢ "" → extract_token te (before ++ (te.cookie_name, value) ∷ after) ≡ ok value)
      × (extract_token te (before ++ (te.cookie_name, "") ∷ after)
          ≡ err (error_of "missing_token" "Session token is empty"))
      × (extract_token te before
          ≡ err (error_of "missing_token" "Session token is required for this resource"))
extract_token_lenient te before after value off named absent =
    let first = request_cookie_first te.cookie_name before after in
    (
      (λ filled.
          extract_token_found te _ te.cookie_name value off (first value named absent).0
          ∙ ground (arith, eq_iff value "")),
      extract_token_found te _ te.cookie_name "" off (first "" named absent).0
          ∙ ground (arith, eq_iff "" ""),
      extract_token_missing te before (first value named absent).1,
    )
