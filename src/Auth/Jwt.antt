-- ===== src/Auth/Jwt.antt =====
-- internal/auth/jwt.go: validation of session tokens.
-- `github.com/golang-jwt/jwt/v5` is a parameter: `JwtLibrary.parse_with_claims` is
-- `jwt.ParseWithClaims` at a clock reading, and `alg_of` the algorithm that a token's header names.
-- The reading of a PEM file is a parameter of `load_signing_key`. Log lines are left out.
pub mod Laws
pub mod Keys
mod Tests
use api_gateway_go.Base.{
  ℕ, ◌+◌, ◌≤◌, ◌≡◌, ◌≢◌, Bool, true, false, ◌||◌, Option, none, some, String, List, [], ◌∷◌, ◌==◌,
  string_eq, ltb, concat, if◌then◌else◌,
}
use api_gateway_go.Config.{AuthorizationConfig}
use api_gateway_go.Auth.Context.{Claims}
use api_gateway_go.Auth.Errors.{ValidationError, error_of, Result, ok, err, ◌>>=◌, ◌>>◌}

-- Keys are opaque to this package.
pub data Key : Type 0 where
  rsa_key : String → Key
  hmac_key : String → Key

-- What `ParseWithClaims` gives: an error, which may be `ErrTokenExpired`, or a token with its
-- `Valid` flag and its claims (`none` where they are of another type).
pub data Parsed : Type 0 where
  parse_error : Bool → Parsed
  parsed : Bool → Option Claims → Parsed

pub record JwtLibrary : Type 0 where
  pub alg_of : String → String
  -- whether the signature of a token verifies under a key
  pub signed_by : String → Key → Bool
  pub parse_with_claims : ℕ → (String → Option Key) → String → Parsed

-- What the package documents: a token is accepted only if its signature verifies under the key that
-- the key function gives for the algorithm of the token.
pub record IsDocumented (lib : JwtLibrary) : Type 0 where
  pub key_needed :
      (now : ℕ) (key_func : String → Option Key) (token : String) (claims : Option Claims)
      → lib.parse_with_claims now key_func token ≡ parsed true claims
      → (key : Key) × (key_func (lib.alg_of token) ≡ some key) × (lib.signed_by token key ≡ true)

pub record TokenValidator : Type 0 where
  pub config : AuthorizationConfig
  pub public_key : Option Key
  pub hmac_key : Option Key

abbrev pub is_rs : String → Bool
is_rs algo = algo == "RS256" || (algo == "RS384" || algo == "RS512")

abbrev pub is_hs : String → Bool
is_hs algo = algo == "HS256" || (algo == "HS384" || algo == "HS512")

-- `loadSigningKey`, in `NewTokenValidator`; `none` is an error. `ES*` and unknown algorithms fail.
pub load_signing_key : (String → Option Key) → AuthorizationConfig → Option TokenValidator
load_signing_key read_pem cfg =
    if is_rs cfg.jwt_signing_algorithm
    then if cfg.jwt_public_key_file == "" then none else elim (read_pem cfg.jwt_public_key_file) [
      | none ↦ none
      | some key ↦ some (record { config = cfg; public_key = some key; hmac_key = none })
    ]
    else if is_hs cfg.jwt_signing_algorithm
    then if cfg.jwt_shared_secret == ""
      then none
      else some (record {
        config = cfg;
        public_key = none;
        hmac_key = some (Key.hmac_key cfg.jwt_shared_secret);
      })
    else none

-- `keyFunc`, given the algorithm of the token's header.
unfoldable pub key_func : TokenValidator → String → Option Key
key_func tv alg =
    if alg == tv.config.jwt_signing_algorithm
    then if is_rs tv.config.jwt_signing_algorithm
      then tv.public_key
      else if is_hs tv.config.jwt_signing_algorithm
      then tv.hmac_key
      else none
    else none

expired : ℕ → ValidationError
expired at = record { code = "token_expired"; message = "Token has expired"; expired_at = some at }

-- `now.After(expiresAt.Add(tolerance))`
check_expiry : ℕ → ℕ → Option ℕ → Result (Unit {0})
unfolding expired
check_expiry now tolerance none = ok tt
check_expiry now tolerance (some at) = if ltb (at + tolerance) now then err (expired at) else ok tt

-- `now.Before(notBefore.Add(-tolerance))`
check_not_before : ℕ → ℕ → Option ℕ → Result (Unit {0})
check_not_before now tolerance none = ok tt
check_not_before now tolerance (some at) =
    if ltb (now + tolerance) at
    then err (error_of "token_not_yet_valid" "Token is not yet valid")
    else ok tt

unfoldable pub validate_expiration : ℕ → TokenValidator → Claims → Result (Unit {0})
unfolding check_expiry check_not_before
validate_expiration now tv claims = do
  check_expiry now tv.config.clock_skew_tolerance claims.expires_at
  check_not_before now tv.config.clock_skew_tolerance claims.not_before

abbrev is_empty : List String → Bool
is_empty [] = true
is_empty (x ∷ xs) = false

-- Whether a required claim is missing; a name that the `switch` does not know is not.
unfoldable pub is_missing : Claims → String → Bool
is_missing claims name =
    if name == "user_id"
    then claims.user_id == ""
    else if name == "session_id"
    then claims.session_id == ""
    else if name == "roles"
    then is_empty claims.roles
    else if name == "permissions"
    then is_empty claims.permissions
    else false

missing_claim : String → ValidationError
missing_claim name = error_of "missing_claim" (concat ("Required claim missing: " ∷ name ∷ []))

-- The loop of `validateRequiredClaims`.
unfoldable pub validate_required : List String → Claims → Result (Unit {0})
unfolding missing_claim
validate_required [] claims = ok tt
validate_required (name ∷ names) claims =
    if is_missing claims name then err (missing_claim name) else validate_required names claims

unfoldable pub validate_required_claims : TokenValidator → Claims → Result (Unit {0})
unfolding validate_required
validate_required_claims tv claims = validate_required tv.config.required_claims claims

-- The token that the library gives, or the error made of its refusal.
unfoldable pub checked_claims : Parsed → Result Claims
checked_claims (parse_error true) = err (error_of "token_expired" "Token has expired")
checked_claims (parse_error false) = err (error_of "invalid_token" "Token validation failed")
checked_claims (parsed false claims) = err (error_of "invalid_token" "Token is not valid")
checked_claims (parsed true none) = err (error_of "invalid_claims" "Failed to extract claims")
checked_claims (parsed true (some claims)) = ok claims

-- `ValidateToken`; the library reads the clock first, `validateExpiration` reads it again.
unfoldable pub validate_token : JwtLibrary → ℕ → ℕ → TokenValidator → String → Result Claims
unfolding checked_claims
validate_token lib now later tv token = do
  claims ← checked_claims (lib.parse_with_claims now (key_func tv) token)
  validate_expiration later tv claims
  validate_required_claims tv claims
  ok claims
