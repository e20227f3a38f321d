-- ===== src/Auth/Jwt/Keys.antt =====
-- The key under which an accepted session token was signed.
use api_gateway_go.Base.{
  ℕ, ◌≡◌, sym, ap, ◌∙◌, ◌≢◌, refl, true, false, Option, none, some, String, List, [], ◌∷◌,
  string_eq, arith, eq_iff, Elem, inl, inr, ◌⊎◌, Bool-cases, Option-cases,
}
use mathlib.Core.Path.{subst}
use api_gateway_go.Auth.Context.{Claims}
use api_gateway_go.Config.{AuthorizationConfig}
use api_gateway_go.Auth.Jwt.{Key}
use api_gateway_go.Auth.Errors.{ok}
use api_gateway_go.Auth.Jwt.{
  JwtLibrary, IsDocumented, TokenValidator, key_func, validate_token, is_rs, is_hs,
  load_signing_key,
}
use api_gateway_go.Auth.Jwt.Laws.{validate_token_iff}

-- The algorithms of RSA signatures and of shared secrets.
abbrev pub rs_algorithms : List String
rs_algorithms = "RS256" ∷ "RS384" ∷ "RS512" ∷ []

abbrev pub hs_algorithms : List String
hs_algorithms = "HS256" ∷ "HS384" ∷ "HS512" ∷ []

is_rs-Elem : (alg : String) → is_rs alg ≡ true → Elem alg rs_algorithms
is_rs-Elem alg h = ground (arith, eq_iff alg "RS256", eq_iff alg "RS384", eq_iff alg "RS512")

is_hs-Elem : (alg : String) → is_hs alg ≡ true → Elem alg hs_algorithms
is_hs-Elem alg h = ground (arith, eq_iff alg "HS256", eq_iff alg "HS384", eq_iff alg "HS512")

-- The key that the configuration names for an algorithm.
abbrev pub IsKeyFor : (String → Option Key) → AuthorizationConfig → String → Key → Type 0
IsKeyFor read_pem cfg alg key =
    (Elem alg rs_algorithms × (read_pem cfg.jwt_public_key_file ≡ some key))
    ⊎ (Elem alg hs_algorithms
        × (cfg.jwt_shared_secret ≢ "")
        × (key ≡ Key.hmac_key cfg.jwt_shared_secret))

-- The validators that `loadSigningKey` makes.
loaded_validator :
    (read_pem : String → Option Key) (cfg : AuthorizationConfig) (tv : TokenValidator)
    → load_signing_key read_pem cfg ≡ some tv
    → ((is_rs cfg.jwt_signing_algorithm ≡ true)
        × ((key : Key) × (read_pem cfg.jwt_public_key_file ≡ some key)
            × (record { config = cfg; public_key = some key; hmac_key = none } ≡ tv)))
      ⊎ ((is_rs cfg.jwt_signing_algorithm ≡ false)
          × (is_hs cfg.jwt_signing_algorithm ≡ true)
          × (cfg.jwt_shared_secret ≢ "")
          × (record {
            config = cfg;
            public_key = none;
            hmac_key = some (Key.hmac_key cfg.jwt_shared_secret);
          }
              ≡ tv))
unfolding load_signing_key
loaded_validator read_pem cfg tv loaded = elim (Bool-cases (is_rs cfg.jwt_signing_algorithm)) [
  | inl rs ↦ elim (Option-cases (read_pem cfg.jwt_public_key_file)) [
    | inl missing ↦ absurd (ground (arith, rs, missing))
    | inr (key, found) ↦
        let same : record { config = cfg; public_key = some key; hmac_key = none } ≡ tv =
          ground (arith, rs, found) in
        inl (rs, (key, found, same))
  ]
  | inr other ↦
      let (hs, given) : (is_hs cfg.jwt_signing_algorithm ≡ true) × (cfg.jwt_shared_secret ≢ "") =
        ground (arith, other, eq_iff cfg.jwt_shared_secret "") in
      let same : record {
        config = cfg;
        public_key = none;
        hmac_key = some (Key.hmac_key cfg.jwt_shared_secret);
      }
          ≡ tv =
        ground (arith, other) in
      inr (other, hs, given, same)
]

loaded_key :
    (read_pem : String → Option Key) (cfg : AuthorizationConfig) (tv : TokenValidator)
    (alg : String) (key : Key)
    → load_signing_key read_pem cfg ≡ some tv
    → key_func tv alg ≡ some key
    → (alg ≡ cfg.jwt_signing_algorithm) × IsKeyFor read_pem cfg alg key
unfolding key_func
loaded_key read_pem cfg tv alg key loaded given = elim (loaded_validator read_pem cfg tv loaded) [
  | inl (rs, (key', found, e)) ↦
      let given' = subst (λ v. key_func v alg ≡ some key) (sym e) given in
      let same : alg ≡ cfg.jwt_signing_algorithm =
        ground (arith, given', eq_iff alg cfg.jwt_signing_algorithm) in
      let own : key' ≡ key = ground (arith, given', rs) in
      (same, inl (rw same (is_rs-Elem _ rs), found ∙ ap some own))
  | inr (other, hs, filled, e) ↦
      let given' = subst (λ v. key_func v alg ≡ some key) (sym e) given in
      let same : alg ≡ cfg.jwt_signing_algorithm =
        ground (arith, given', eq_iff alg cfg.jwt_signing_algorithm) in
      let own : key ≡ Key.hmac_key cfg.jwt_shared_secret = ground (arith, given', other, hs) in
      (same, inr (rw same (is_hs-Elem _ hs), filled, own))
]

-- With a library that behaves as documented, and a validator that was made from a configuration, an
-- accepted token has the configured algorithm, and its signature verifies under the key that the
-- configuration names for this algorithm: the one in the key file for RSA, the shared secret, which
-- is not empty, for HMAC. No other algorithm is accepted.
pub validate_token_sound :
    (lib : JwtLibrary) (read_pem : String → Option Key) (cfg : AuthorizationConfig)
    (tv : TokenValidator) (now later : ℕ) (token : String) (claims : Claims)
    → IsDocumented lib
    → load_signing_key read_pem cfg ≡ some tv
    → validate_token lib now later tv token ≡ ok claims
    → (lib.alg_of token ≡ cfg.jwt_signing_algorithm)
      × ((key : Key) × (lib.signed_by token key ≡ true)
          × IsKeyFor read_pem cfg (lib.alg_of token) key)
validate_token_sound lib read_pem cfg tv now later token claims documented loaded h =
    let (parses, rest) = (validate_token_iff lib now later tv token claims).0 h in
    let (key, given, signed) = documented.key_needed now (key_func tv) token (some claims) parses in
    let (same, named) = loaded_key read_pem cfg tv (lib.alg_of token) key loaded given in
    (same, (key, signed, named))

-- The algorithms of ECDSA, for which `loadSigningKey` has no case.
abbrev pub es_algorithms : List String
es_algorithms = "ES256" ∷ "ES384" ∷ "ES512" ∷ []

pub load_signing_key-es :
    (read_pem : String → Option Key) (cfg : AuthorizationConfig)
    → Elem cfg.jwt_signing_algorithm es_algorithms
    → load_signing_key read_pem cfg ≡ none
unfolding load_signing_key
load_signing_key-es read_pem cfg (inl e) = rw⁻¹ e refl
load_signing_key-es read_pem cfg (inr (inl e)) = rw⁻¹ e refl
load_signing_key-es read_pem cfg (inr (inr (inl e))) = rw⁻¹ e refl
load_signing_key-es read_pem cfg (inr (inr (inr none_left))) = elim none_left [ ]
