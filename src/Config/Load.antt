-- ===== src/Config/Load.antt =====
-- `Load` and `Reload` of internal/config/config.go.
-- The environment, the file system and the parsers of YAML and JSON are parameters: `read_file` is
-- `os.ReadFile`, and a parser is given the configuration that it fills in. `strconv.Atoi` and
-- `strconv.ParseBool` are parameters too; `none` is an error.
pub mod Laws
pub mod Texts
pub mod Overrides
mod Tests
use api_gateway_go.Base.{
  ℕ, ℤ, Bool, true, false, Option, none, some, String, [], ◌∷◌, Bytes, codes, eqb, ◌==◌, string_eq,
  bytes_eq, if◌then◌else◌, to_lower, concat,
}
use api_gateway_go.Config.{Config, ServerConfig, AuthorizationConfig, RateLimitConfig}
use api_gateway_go.Config.Defaults.{defaults}
use api_gateway_go.Config.Validate.{ConfigError, validate}

pub data LoadError : Type 0 where
  unreadable unparsable unsupported_format : LoadError
  invalid_variable : String → LoadError
  invalid_config : ConfigError → LoadError

pub data Attempt (A : Type 0) : Type 0 where
  gave_up : LoadError → Attempt A
  got : A → Attempt A

infixl 5 ◌>>=◌
abbrev pub ◌>>=◌ : {A B : Type 0} → Attempt A → (A → Attempt B) → Attempt B
gave_up reason >>= next = gave_up reason
got value >>= next = next value

pub record Environment : Type 0 where
  pub get : String → String
  pub atoi : String → Option ℤ
  pub parse_bool : String → Option Bool

pub record Files : Type 0 where
  pub read_file : Bytes → Option Bytes
  pub yaml : Bytes → Config → Option Config
  pub json : Bytes → Config → Option Config
  pub missing : String → Bool

unfoldable pub has_slash : Bytes → Bool
has_slash [] = false
has_slash (c ∷ s) = let later = has_slash s in if eqb c b'/' then true else later

-- `filepath.Ext`: from the last dot on, if no slash follows it.
unfoldable pub ext : Bytes → Bytes
unfolding has_slash
ext [] = []
ext (b ∷ path) = elim (ext path) [
  | c ∷ rest ↦ c ∷ rest
  | [] ↦ if eqb b b'.' then if has_slash path then [] else b ∷ path else []
]

abbrev parsed : Option Config → Attempt Config
parsed none = gave_up unparsable
parsed (some c) = got c

-- The parser that the extension of the path selects.
unfoldable pub parse_as : Files → Bytes → Bytes → Config → Attempt Config
parse_as files extension text cfg =
    if extension == codes ".yaml"
    then parsed (files.yaml text cfg)
    else if extension == codes ".yml"
    then parsed (files.yaml text cfg)
    else if extension == codes ".json"
    then parsed (files.json text cfg)
    else gave_up unsupported_format

unfoldable pub load_from_file : Files → Bytes → Config → Attempt Config
unfolding parse_as
load_from_file files path cfg = elim (files.read_file path) [
  | none ↦ gave_up unreadable
  | some text ↦ parse_as files (to_lower (ext path)) text cfg
]

-- `if val := os.Getenv(...); val != ""`: what is done with the value, or nothing.
unfoldable pub if_set : String → (String → Config) → Config → Config
if_set val change cfg = if val == "" then cfg else change val

-- The same for a value that is parsed first.
unfoldable pub if_parsed :
    {A : Type 0} → String → (String → Option A) → String → (A → Config) → Config → Attempt Config
if_parsed name parse val change cfg =
    if val == ""
    then got cfg
    else elim (parse val) [ none ↦ gave_up (invalid_variable name) | some a ↦ got (change a) ]

abbrev pub set_server : Config → ServerConfig → Config
set_server cfg c = record cfg { server = c }

abbrev pub set_authorization : Config → AuthorizationConfig → Config
set_authorization cfg c = record cfg { authorization = c }

abbrev pub set_rate_limit : Config → RateLimitConfig → Config
set_rate_limit cfg c = record cfg { rate_limit = c }

-- The overrides of texts, which cannot fail.
unfoldable pub override_tls_files : Environment → Config → Config
unfolding if_set
override_tls_files env cfg =
    let cfg1 =
      if_set (env.get "GATEWAY_TLS_CERT_FILE")
        (λ v. set_server cfg (record cfg.server { tls_cert_file = v })) cfg in
    if_set (env.get "GATEWAY_TLS_KEY_FILE")
      (λ v. set_server cfg1 (record cfg1.server { tls_key_file = v })) cfg1

unfoldable pub override_logging : Environment → Config → Config
unfolding if_set
override_logging env cfg =
    let cfg1 =
      if_set (env.get "GATEWAY_LOG_LEVEL")
        (λ v. record cfg { logging = record cfg.logging { level = codes v } }) cfg in
    let cfg2 =
      if_set (env.get "GATEWAY_LOG_FORMAT")
        (λ v. record cfg1 { logging = record cfg1.logging { format = v } }) cfg1 in
    if_set (env.get "GATEWAY_LOG_OUTPUT")
      (λ v. record cfg2 { logging = record cfg2.logging { output = v } }) cfg2

unfoldable pub override_keys : Environment → Config → Config
unfolding if_set
override_keys env cfg =
    let cfg1 =
      if_set (env.get "GATEWAY_AUTH_COOKIE_NAME")
        (λ v. set_authorization cfg (record cfg.authorization { cookie_name = v })) cfg in
    let cfg2 =
      if_set (env.get "GATEWAY_JWT_SIGNING_ALGORITHM")
        (λ v. set_authorization cfg1 (record cfg1.authorization { jwt_signing_algorithm = v }))
        cfg1 in
    let cfg3 =
      if_set (env.get "GATEWAY_JWT_PUBLIC_KEY_FILE")
        (λ v. set_authorization cfg2 (record cfg2.authorization { jwt_public_key_file = v }))
        cfg2 in
    if_set (env.get "GATEWAY_JWT_SHARED_SECRET")
      (λ v. set_authorization cfg3 (record cfg3.authorization { jwt_shared_secret = v })) cfg3

unfoldable pub override_backend : Environment → Config → Config
unfolding if_set
override_backend env cfg =
    let cfg1 =
      if_set (env.get "GATEWAY_RATELIMIT_BACKEND")
        (λ v. set_rate_limit cfg (record cfg.rate_limit { backend = v })) cfg in
    let cfg2 =
      if_set (env.get "GATEWAY_REDIS_ADDR")
        (λ v. set_rate_limit cfg1 (record cfg1.rate_limit { redis_addr = v })) cfg1 in
    if_set (env.get "GATEWAY_REDIS_PASSWORD")
      (λ v. set_rate_limit cfg2 (record cfg2.rate_limit { redis_password = v })) cfg2

-- `applyEnvOverrides`
unfoldable pub apply_env_overrides : Environment → Config → Attempt Config
unfolding if_parsed override_tls_files override_logging override_keys override_backend
apply_env_overrides env cfg = do
  c1 ←
      if_parsed "HTTP_PORT" env.atoi (env.get "GATEWAY_HTTP_PORT")
        (λ p. set_server cfg (record cfg.server { http_port = p })) cfg
  c2 ←
      if_parsed "HTTPS_PORT" env.atoi (env.get "GATEWAY_HTTPS_PORT")
        (λ p. set_server c1 (record c1.server { https_port = p })) c1
  c3 ←
      if_parsed "TLS_ENABLED" env.parse_bool (env.get "GATEWAY_TLS_ENABLED")
        (λ b. set_server c2 (record c2.server { tls_enabled = b })) c2
  let c4 = override_logging env (override_tls_files env c3)
  c5 ←
      if_parsed "AUTH_ENABLED" env.parse_bool (env.get "GATEWAY_AUTH_ENABLED")
        (λ b. set_authorization c4 (record c4.authorization { enabled = b })) c4
  let c6 = override_keys env c5
  c7 ←
      if_parsed "RATELIMIT_ENABLED" env.parse_bool (env.get "GATEWAY_RATELIMIT_ENABLED")
        (λ b. set_rate_limit c6 (record c6.rate_limit { enabled = b })) c6
  got (override_backend env c7)

abbrev checked : Option ConfigError → Config → Attempt Config
checked none cfg = got cfg
checked (some e) cfg = gave_up (invalid_config e)

abbrev from_file : Files → Bytes → Config → Attempt Config
from_file files [] cfg = got cfg
from_file files (b ∷ path) cfg = load_from_file files (b ∷ path) cfg

-- What `Load` computes; an empty path means no file.
unfoldable pub load_config : Files → Environment → Bytes → Attempt Config
unfolding apply_env_overrides
load_config files env path = do
  c1 ← from_file files path defaults
  c2 ← apply_env_overrides env c1
  checked (validate files.missing c2) c2

-- The global configuration, set under its mutex if there is no error.
abbrev store : Attempt Config → Option Config → Option Config
store (got cfg) global = some cfg
store (gave_up e) global = global

-- `Load`, with the global configuration before and after.
unfoldable pub load : Files → Environment → Bytes → Option Config → Attempt Config × Option Config
load files env path global =
    let loaded = load_config files env path in (loaded, store loaded global)

abbrev pub failure : {A : Type 0} → Attempt A → Option LoadError
failure (got a) = none
failure (gave_up e) = some e

-- `Reload` is `Load` without its result: it stores the same configuration a second time. `none` is
-- the error nil.
unfoldable pub reload :
    Files → Environment → Bytes → Option Config → Option LoadError × Option Config
unfolding load
reload files env path global =
    let (loaded, global') = load files env path global in (failure loaded, store loaded global')
