-- ===== src/Auth/Jwt/Tests.antt =====
-- The theorems on token validation with a concrete library and token.
use api_gateway_go.Base.{◌≡◌, ◌↔◌, refl, true, none, some, string_eq}
use api_gateway_go.Auth.Errors.{ok}
use api_gateway_go.Auth.Jwt.{
  Key, parsed, key_func, validate_token, checked_claims, validate_expiration,
  validate_required_claims, validate_required, is_missing, load_signing_key,
}
use api_gateway_go.Auth.Jwt.Laws.{Checks, validate_token_iff}
use api_gateway_go.Auth.Jwt.Keys.{IsKeyFor, validate_token_sound}
use api_gateway_go.Auth.Samples.{
  sample_config, sample_validator, sample_library, sample_library-IsDocumented, ann_claims,
}

shared_secret_loaded : load_signing_key (λ file. none) sample_config ≡ some sample_validator
unfolding load_signing_key
shared_secret_loaded = refl

good_token : validate_token sample_library 1000 1020 sample_validator "token" ≡ ok ann_claims
unfolding validate_token checked_claims key_func validate_expiration validate_required_claims
    validate_required is_missing
good_token = refl

validate_token_iff_example :
    (validate_token sample_library 1000 1020 sample_validator "token" ≡ ok ann_claims) ↔ (
      (sample_library.parse_with_claims 1000 (key_func sample_validator) "token"
        ≡ parsed true (some ann_claims))
      × Checks 1020 sample_validator ann_claims)
validate_token_iff_example =
    validate_token_iff sample_library 1000 1020 sample_validator "token" ann_claims

validate_token_sound_example :
    (sample_library.alg_of "token" ≡ "HS256")
    × ((key : Key) × (sample_library.signed_by "token" key ≡ true)
        × IsKeyFor (λ file. none) sample_config "HS256" key)
validate_token_sound_example =
    validate_token_sound sample_library (λ file. none) sample_config sample_validator 1000 1020
      "token" ann_claims sample_library-IsDocumented shared_secret_loaded good_token
