-- ===== src/Auth/Extractor.antt =====
-- internal/auth/extractor.go: the session token is read from a cookie.
-- A request holds the pairs of its `Cookie` headers. `net/http` fills nothing but the name and the
-- value of a cookie that a client sends, so its flags are false and `SameSite` is the zero value,
-- which is none of the named constants. `Request.Cookie` fails with `ErrNoCookie` only.
pub mod Laws
mod Tests
use api_gateway_go.Base.{
  Bool, true, false, not, ◌&&◌, Option, none, some, String, List, [], ◌∷◌, ◌++◌, ◌==◌, string_eq,
  concat, if◌then◌else◌,
}
use api_gateway_go.Auth.Errors.{ValidationError, error_of, Result, ok, err, ◌>>=◌}

pub data SameSite : Type 0 where
  unset default_mode lax_mode strict_mode none_mode : SameSite

pub record Cookie : Type 0 where
  pub name : String
  pub value : String
  pub secure : Bool
  pub http_only : Bool
  pub same_site : SameSite

abbrev pub sent_cookie : String → String → Cookie
sent_cookie name value = record {
  name = name;
  value = value;
  secure = false;
  http_only = false;
  same_site = unset;
}

-- `Request.Cookie`: the first cookie of that name; an empty name finds none.
unfoldable pub request_cookie : String → List (String × String) → Option Cookie
request_cookie name [] = none
request_cookie name ((n, value) ∷ rest) =
    let later = request_cookie name rest in
    if name == "" then none else if n == name then some (sent_cookie n value) else later

pub record ExtractorConfig : Type 0 where
  pub cookie_name : String
  pub enforce_cookie_security : Bool
  pub cookie_same_site : String

unfoldable pub same_site_to_string : SameSite → String
same_site_to_string default_mode = "Default"
same_site_to_string lax_mode = "Lax"
same_site_to_string strict_mode = "Strict"
same_site_to_string none_mode = "None"
same_site_to_string unset = "Unknown"

unfoldable pub parse_same_site : String → SameSite
parse_same_site s =
    if s == "Strict"
    then strict_mode
    else if s == "Lax"
    then lax_mode
    else if s == "None"
    then none_mode
    else default_mode

-- `==` and `!= SameSiteDefaultMode` on the constants.
abbrev same : SameSite → SameSite → Bool
same unset unset = true
same default_mode default_mode = true
same lax_mode lax_mode = true
same strict_mode strict_mode = true
same none_mode none_mode = true
same _ _ = false

-- The two lists that `validateCookieSecurity` fills.
pub record Issues : Type 0 where
  pub warnings : List String
  pub errors : List String

abbrev note : Bool → String → Issues → Issues
note as_error msg issues =
    if as_error
    then record issues { errors = issues.errors ++ msg ∷ [] }
    else record issues { warnings = issues.warnings ++ msg ∷ [] }

check_secure : ExtractorConfig → Cookie → Issues → Issues
check_secure te cookie issues =
    if not cookie.secure
    then note te.enforce_cookie_security "Secure flag not set" issues
    else issues

check_http_only : ExtractorConfig → Cookie → Issues → Issues
check_http_only te cookie issues =
    if not cookie.http_only
    then note te.enforce_cookie_security "HttpOnly flag not set" issues
    else issues

mismatch : ExtractorConfig → Cookie → String
mismatch te cookie = concat (
    "SameSite attribute mismatch (expected: "
    ∷ te.cookie_same_site
    ∷ ", got: "
    ∷ same_site_to_string cookie.same_site
    ∷ ")"
    ∷ [])

check_same_site : ExtractorConfig → Cookie → Issues → Issues
unfolding mismatch
check_same_site te cookie issues =
    let expected = parse_same_site te.cookie_same_site in
    if same cookie.same_site expected
    then issues
    else note (te.enforce_cookie_security && not (same expected default_mode)) (mismatch te cookie)
        issues

unfoldable pub cookie_issues : ExtractorConfig → Cookie → Issues
unfolding check_secure check_http_only check_same_site
cookie_issues te cookie =
    check_same_site te cookie
      (check_http_only te cookie (check_secure te cookie (record { warnings = []; errors = [] })))

abbrev some_error : List String → Bool
some_error [] = false
some_error (x ∷ xs) = true

unfoldable pub validate_cookie_security : ExtractorConfig → Cookie → Result Cookie
unfolding cookie_issues
validate_cookie_security te cookie =
    if te.enforce_cookie_security && some_error (cookie_issues te cookie).errors
    then err
        (error_of "invalid_cookie_security" "Session cookie does not meet security requirements")
    else ok cookie

unfoldable pub extract_token : ExtractorConfig → List (String × String) → Result String
extract_token te cookies = elim (request_cookie te.cookie_name cookies) [
  | none ↦ err (error_of "missing_token" "Session token is required for this resource")
  | some cookie ↦
      if cookie.value == ""
      then err (error_of "missing_token" "Session token is empty")
      else do valid ← validate_cookie_security te cookie; ok valid.value
]
