-- ===== src/Config/Load/Texts.antt =====
-- What one variable of the environment changes, and what the groups of text variables change.
use api_gateway_go.Base.{
  ◌≡◌, ◌≢◌, refl, inl, inr, ◌⊎◌, Option, some, String, codes, ◌==◌, string_eq, eq_iff, arith,
  if◌then◌else◌, Bool-cases, Option-cases,
}
use api_gateway_go.Config.{Config}
use api_gateway_go.Config.Load.{
  Attempt, got, ◌>>=◌, Environment, if_set, if_parsed, set_authorization, override_tls_files,
  override_logging, override_keys, override_backend,
}
use api_gateway_go.Config.Load.Laws.{>>=-eq-got}

-- The value of a variable, or the old value where it is unset or empty.
abbrev pub chosen {ℓ} : {A : Type ℓ} → String → (String → A) → A → A
chosen val read old = if val == "" then old else read val

abbrev pub text_of : String → String → String
text_of val old = chosen val (λ v. v) old

-- A parsed variable: unset, and the value stays; or set, and the new value is what it says.
abbrev pub Parsed : {A : Type 0} → String → (String → Option A) → A → A → Type 0
Parsed val parse old new = ((val ≡ "") × (new ≡ old)) ⊎ ((val ≢ "") × (parse val ≡ some new))

if_parsed-got :
    {A : Type 0} (name : String) (parse : String → Option A) (val : String) (old : A)
    (change : A → Config) (cfg c : Config)
    → change old ≡ cfg
    → if_parsed name parse val change cfg ≡ got c
    → (new : A) × Parsed val parse old new × (c ≡ change new)
unfolding if_parsed
if_parsed-got name parse val old change cfg c same h = elim (Bool-cases (val == "")) [
  | inl unset ↦
      let kept : got cfg ≡ got c = rw unset at h in
      (old, inl ((eq_iff val "").0 unset, refl), cc (kept, same))
  | inr set ↦ elim (Option-cases (parse val)) [
    | inl bad ↦ absurd (ground (h, set, bad, arith))
    | inr (new, good) ↦ (
      new,
      inr ((λ e. ground (set, eq_iff val "", e, arith)), good),
      ground (h, set, good, arith),
    )
  ]
]

if_set-chosen :
    {A : Type 0} (val : String) (read : String → A) (old : A) (change : A → Config) (cfg : Config)
    → change old ≡ cfg
    → if_set val (λ v. change (read v)) cfg ≡ change (chosen val read old)
unfolding if_set
if_set-chosen val read old change cfg same = elim (Bool-cases (val == "")) [
  | inl unset ↦ rw unset (cc same)
  | inr set ↦ rw set refl
]

pub step :
    {A : Type 0} (name : String) (parse : String → Option A) (val : String) (old : A)
    (change : A → Config) (cfg : Config) (f : Config → Attempt Config) {c : Config}
    → change old ≡ cfg
    → (if_parsed name parse val change cfg >>= f) ≡ got c
    → (new : A) × Parsed val parse old new × (f (change new) ≡ got c)
step name parse val old change cfg f same h =
    let (c', e, h') = >>=-eq-got (if_parsed name parse val change cfg) f h in
    let (new, said, same') = if_parsed-got name parse val old change cfg c' same e in
    (new, said, rw⁻¹ same' h')

module _ (env : Environment) where
  abbrev pub tls_override : Config → Config
  tls_override cfg = record cfg {
    server = record cfg.server {
      tls_cert_file = text_of (env.get "GATEWAY_TLS_CERT_FILE") cfg.server.tls_cert_file;
      tls_key_file = text_of (env.get "GATEWAY_TLS_KEY_FILE") cfg.server.tls_key_file;
    };
  }

  pub tls_files : (cfg : Config) → override_tls_files env cfg ≡ tls_override cfg
  unfolding override_tls_files if_set
  tls_files cfg = ground arith

  abbrev pub log_override : Config → Config
  log_override cfg = record cfg {
    logging = record {
      level = chosen (env.get "GATEWAY_LOG_LEVEL") codes cfg.logging.level;
      format = text_of (env.get "GATEWAY_LOG_FORMAT") cfg.logging.format;
      output = text_of (env.get "GATEWAY_LOG_OUTPUT") cfg.logging.output;
    };
  }

  pub logging : (cfg : Config) → override_logging env cfg ≡ log_override cfg
  unfolding override_logging if_set
  logging cfg = ground arith

  abbrev pub key_override : Config → Config
  key_override cfg = record cfg {
    authorization = record cfg.authorization {
      cookie_name = text_of (env.get "GATEWAY_AUTH_COOKIE_NAME") cfg.authorization.cookie_name;
      jwt_signing_algorithm =
          text_of (env.get "GATEWAY_JWT_SIGNING_ALGORITHM") cfg.authorization.jwt_signing_algorithm;
      jwt_public_key_file =
          text_of (env.get "GATEWAY_JWT_PUBLIC_KEY_FILE") cfg.authorization.jwt_public_key_file;
      jwt_shared_secret =
          text_of (env.get "GATEWAY_JWT_SHARED_SECRET") cfg.authorization.jwt_shared_secret;
    };
  }

  pub keys : (cfg : Config) → override_keys env cfg ≡ key_override cfg
  unfolding override_keys
  keys cfg =
      let same = (λ (v : String). v) in
      let a = cfg.authorization in
      let a1 = record a {
        cookie_name = text_of (env.get "GATEWAY_AUTH_COOKIE_NAME") a.cookie_name;
      } in
      let a2 = record a1 {
        jwt_signing_algorithm =
            text_of (env.get "GATEWAY_JWT_SIGNING_ALGORITHM") a.jwt_signing_algorithm;
      } in
      let a3 = record a2 {
        jwt_public_key_file = text_of (env.get "GATEWAY_JWT_PUBLIC_KEY_FILE") a.jwt_public_key_file;
      } in
      let c1 = set_authorization cfg a1 in
      let c2 = set_authorization cfg a2 in
      let c3 = set_authorization cfg a3 in
      let e1 =
        if_set-chosen (env.get "GATEWAY_AUTH_COOKIE_NAME") same a.cookie_name
          (λ v. set_authorization cfg (record a { cookie_name = v })) cfg refl in
      let e2 =
        if_set-chosen (env.get "GATEWAY_JWT_SIGNING_ALGORITHM") same a.jwt_signing_algorithm
          (λ v. set_authorization c1 (record a1 { jwt_signing_algorithm = v })) c1 refl in
      let e3 =
        if_set-chosen (env.get "GATEWAY_JWT_PUBLIC_KEY_FILE") same a.jwt_public_key_file
          (λ v. set_authorization c2 (record a2 { jwt_public_key_file = v })) c2 refl in
      let e4 =
        if_set-chosen (env.get "GATEWAY_JWT_SHARED_SECRET") same a.jwt_shared_secret
          (λ v. set_authorization c3 (record a3 { jwt_shared_secret = v })) c3 refl in
      rw e1 (rw e2 (rw e3 e4))

  abbrev pub limit_override : Config → Config
  limit_override cfg = record cfg {
    rate_limit = record cfg.rate_limit {
      backend = text_of (env.get "GATEWAY_RATELIMIT_BACKEND") cfg.rate_limit.backend;
      redis_addr = text_of (env.get "GATEWAY_REDIS_ADDR") cfg.rate_limit.redis_addr;
      redis_password = text_of (env.get "GATEWAY_REDIS_PASSWORD") cfg.rate_limit.redis_password;
    };
  }

  pub backend : (cfg : Config) → override_backend env cfg ≡ limit_override cfg
  unfolding override_backend if_set
  backend cfg = ground arith
