-- ===== src/Config/Validate/Tests.antt =====
-- The validation at concrete configurations.
use api_gateway_go.Base.{bytes_beq, to_lower, ◌≡◌, ◌↔◌, refl, Bool, true, false, none, some, String}
use api_gateway_go.Config.Defaults.{defaults}
use api_gateway_go.Config.Samples.{sample_gateway}
use api_gateway_go.Config.Validate.{
  validate, no_key, cert_file_missing, validate_tls, validate_server, validate_logging,
  validate_authorization, one_of, one_of_bytes, validate_rate_limit, validate_route,
  validate_routes,
}
use api_gateway_go.Config.Validate.Laws.{IsValid, validate_iff}

abbrev none_missing : String → Bool
none_missing file = false

-- The defaults enable the authorization and name no key: they are not valid.
defaults_refused : validate none_missing defaults ≡ some no_key
unfolding validate defaults validate_server validate_logging one_of_bytes validate_authorization
    one_of bytes_beq to_lower
defaults_refused = refl

sample_accepted : validate none_missing sample_gateway ≡ none
unfolding validate validate_server validate_logging one_of_bytes validate_authorization one_of
    validate_rate_limit validate_route validate_routes bytes_beq to_lower
sample_accepted = refl

tls_without_file :
    validate
      (λ file. true)
      (record sample_gateway {
        server = record sample_gateway.server {
          tls_enabled = true;
          tls_cert_file = "c";
          tls_key_file = "k";
        };
      })
    ≡ some cert_file_missing
unfolding validate validate_server validate_tls
tls_without_file = refl

validate_iff_example :
    (validate none_missing sample_gateway ≡ none) ↔ IsValid none_missing sample_gateway
validate_iff_example = validate_iff none_missing sample_gateway
