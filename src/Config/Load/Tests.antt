-- ===== src/Config/Load/Tests.antt =====
-- Loading at a concrete environment.
use api_gateway_go.Base.{
  ℤ, ◌≡◌, refl, Bool, true, false, none, some, [], codes, pos, ◌==◌, string_eq, if◌then◌else◌,
  lower, to_lower, bytes_beq,
}
use api_gateway_go.Config.{Config}
use api_gateway_go.Config.Samples.{sample_gateway}
use api_gateway_go.Config.Validate.Laws.{IsValid}
use api_gateway_go.Config.Load.{
  LoadError, got, gave_up, Environment, Files, load_from_file, ext, has_slash, parse_as, if_set,
  if_parsed, override_tls_files, override_logging, override_keys, override_backend,
  apply_env_overrides, load_config, reload,
}
use api_gateway_go.Config.Load.Laws.{IsGood, reload_lem}
use api_gateway_go.Config.Load.Texts.{Parsed}
use api_gateway_go.Config.Load.Overrides.{overridden, apply_env_overrides_lem}

-- The port, the level and the switch of the limits are set.
abbrev environment : Environment
environment = record {
  get = λ name.
      if name == "GATEWAY_HTTP_PORT"
      then "9000"
      else if name == "GATEWAY_LOG_LEVEL"
      then "debug"
      else if name == "GATEWAY_RATELIMIT_ENABLED"
      then "true"
      else "";
  atoi = λ text. if text == "9000" then some (pos 9000) else none;
  parse_bool = λ text. if text == "true" then some true else none;
}

abbrev files : Files
files = record {
  read_file = λ path. some [];
  yaml = λ text cfg. some sample_gateway;
  json = λ text cfg. none;
  missing = λ file. false;
}

yml_parsed : load_from_file files (codes "conf.d/gateway.YML") sample_gateway ≡ got sample_gateway
unfolding load_from_file ext has_slash parse_as lower to_lower bytes_beq
yml_parsed = refl

abbrev changed : Config
changed = record sample_gateway {
  server = record sample_gateway.server { http_port = pos 9000 };
  logging = record sample_gateway.logging { level = codes "debug" };
  rate_limit = record sample_gateway.rate_limit { enabled = true };
}

changed_by : apply_env_overrides environment sample_gateway ≡ got changed
unfolding apply_env_overrides if_parsed if_set override_tls_files override_logging override_keys
    override_backend
changed_by = refl

apply_env_overrides_lem_example :
    (http_port : ℤ) × (https_port : ℤ) × (tls : Bool) × (auth : Bool) × (limits : Bool) × Parsed
      "9000" environment.atoi
      (pos 8080)
      http_port
    × Parsed "" environment.atoi (pos 8443) https_port
    × Parsed "" environment.parse_bool false tls
    × Parsed "" environment.parse_bool true auth
    × Parsed "true" environment.parse_bool false limits
    × (changed ≡ overridden environment http_port https_port tls auth limits sample_gateway)
apply_env_overrides_lem_example =
    apply_env_overrides_lem environment sample_gateway changed changed_by

reload_lem_example :
    let path = codes "gateway.yaml" in
    let (error, global') = reload files environment path none in
    (((e : LoadError)
        → error ≡ some e
        → (global' ≡ none) × (load_config files environment path ≡ gave_up e))
      × (error ≡ none
          → (cfg : Config) × (load_config files environment path ≡ got cfg)
            × (global' ≡ some cfg)
            × IsValid files.missing cfg)
      × (IsGood files.missing none → IsGood files.missing global'))
reload_lem_example = reload_lem files environment (codes "gateway.yaml") none
