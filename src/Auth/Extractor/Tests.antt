-- ===== src/Auth/Extractor/Tests.antt =====
-- The theorems on the extraction of the session token at concrete cookies.
use api_gateway_go.Base.{◌≢◌, refl, true, false, String, List, [], ◌∷◌, string_eq}
use api_gateway_go.Auth.Errors.{ok}
use api_gateway_go.Auth.Extractor.{ExtractorConfig, extract_token}
use api_gateway_go.Auth.Extractor.Laws.{extract_token_enforced}

abbrev enforcing : ExtractorConfig
enforcing = record {
  cookie_name = "session";
  enforce_cookie_security = true;
  cookie_same_site = "Strict";
}

abbrev lenient : ExtractorConfig
lenient = record enforcing { enforce_cookie_security = false }

abbrev theme_cookie : List (String × String)
theme_cookie = ("theme", "dark") ∷ []

extract_token_enforced_example : extract_token enforcing (("session", "abc") ∷ []) ≢ ok "abc"
extract_token_enforced_example =
    extract_token_enforced enforcing (("session", "abc") ∷ []) refl "abc"
