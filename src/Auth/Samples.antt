-- ===== src/Auth/Samples.antt =====
-- Concrete values for internal/auth: a configuration, a user, and a JWT library that behaves as
-- documented.
use api_gateway_go.Base.{
  ℕ, ◌≡◌, refl, true, false, Option, none, some, [], ◌∷◌, string_eq, leb, if◌then◌else◌, arith,
}
use api_gateway_go.Config.{AuthorizationConfig}
use api_gateway_go.Auth.Context.{Claims, UserContext, new_user_context}
use api_gateway_go.Auth.Jwt.{
  Key, JwtLibrary, IsDocumented, Parsed, parse_error, parsed, TokenValidator,
}
use api_gateway_go.Auth.Policy.{Policy, PolicyCache}

abbrev pub sample_config : AuthorizationConfig
sample_config = record {
  enabled = true;
  cookie_name = "session";
  jwt_signing_algorithm = "HS256";
  jwt_public_key_file = "";
  jwt_shared_secret = "secret";
  clock_skew_tolerance = 30;
  required_claims = "user_id" ∷ [];
  revocation_list_url = "";
  revocation_list_cache = 0;
  cache_auth_decisions = true;
  cache_decision_ttl = 300;
}

abbrev pub sample_validator : TokenValidator
sample_validator = record {
  config = sample_config;
  public_key = none;
  hmac_key = some (Key.hmac_key "secret");
}

-- The claims of every good token: they end at 1000.
abbrev pub ann_claims : Claims
ann_claims = record {
  expires_at = some 1000;
  not_before = none;
  user_id = "ann";
  session_id = "s1";
  roles = "admin" ∷ [];
  permissions = [];
}

abbrev pub ann : UserContext
ann = new_user_context ann_claims

-- The same user after losing the role.
abbrev pub ann_demoted : UserContext
ann_demoted = new_user_context (record ann_claims { roles = [] })

abbrev pub admins_only : Policy
admins_only = record { type = "role-based"; roles = "admin" ∷ []; permissions = []; logic = "OR" }

abbrev pub empty_cache : PolicyCache
empty_cache = record { cache = []; ttl = 300 }

-- A library for which every token is signed with HS256, and has these claims.
abbrev answer : ℕ → Option Key → Parsed
answer now none = parse_error false
answer now (some key) = if leb now 1000 then parsed true (some ann_claims) else parse_error true

abbrev pub sample_library : JwtLibrary
sample_library = record {
  alg_of = λ token. "HS256";
  signed_by = λ token key. true;
  parse_with_claims = λ now key_func token. answer now (key_func "HS256");
}

answer-key :
    (now : ℕ) (key : Option Key) (claims : Option Claims)
    → answer now key ≡ parsed true claims
    → (k : Key) × (key ≡ some k) × (true ≡ true)
answer-key now none claims h = absurd (ground (h, arith))
answer-key now (some key) claims h = (key, refl, refl)

pub sample_library-IsDocumented : IsDocumented sample_library
sample_library-IsDocumented = record {
  key_needed = λ now key_func token claims h. answer-key now (key_func "HS256") claims h;
}
