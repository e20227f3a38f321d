-- ===== src/Server/Tls.antt =====
-- `buildTLSConfig` and `buildCipherSuites` of internal/server/server.go. A suite is known by its
-- name, which is also that of its constant; the curves are fixed.
use api_gateway_go.Base.{
  Bool, true, false, ◌||◌, String, List, [], ◌∷◌, ◌==◌, string_eq, if◌then◌else◌,
}
use api_gateway_go.Config.{SecurityConfig}

pub data Version : Type 0 where
  tls12 tls13 : Version

pub record TlsConfig : Type 0 where
  pub min_version : Version
  pub prefer_server_cipher_suites : Bool
  pub cipher_suites : List String

abbrev pub known_suites : List String
known_suites =
    "TLS_ECDHE_RSA_WITH_AES_256_GCM_SHA384" ∷ "TLS_ECDHE_RSA_WITH_AES_128_GCM_SHA256"
    ∷ "TLS_ECDHE_ECDSA_WITH_AES_256_GCM_SHA384" ∷ "TLS_ECDHE_ECDSA_WITH_AES_128_GCM_SHA256"
    ∷ "TLS_ECDHE_RSA_WITH_CHACHA20_POLY1305" ∷ "TLS_ECDHE_ECDSA_WITH_CHACHA20_POLY1305"
    ∷ "TLS_ECDHE_RSA_WITH_AES_256_CBC_SHA" ∷ "TLS_ECDHE_RSA_WITH_AES_128_CBC_SHA"
    ∷ "TLS_ECDHE_ECDSA_WITH_AES_256_CBC_SHA" ∷ "TLS_ECDHE_ECDSA_WITH_AES_128_CBC_SHA" ∷ []

abbrev pub default_suites : List String
default_suites =
    "TLS_ECDHE_RSA_WITH_AES_256_GCM_SHA384" ∷ "TLS_ECDHE_RSA_WITH_AES_128_GCM_SHA256"
    ∷ "TLS_ECDHE_ECDSA_WITH_AES_256_GCM_SHA384" ∷ "TLS_ECDHE_ECDSA_WITH_AES_128_GCM_SHA256"
    ∷ "TLS_ECDHE_RSA_WITH_CHACHA20_POLY1305" ∷ "TLS_ECDHE_ECDSA_WITH_CHACHA20_POLY1305" ∷ []

abbrev is_known : List String → String → Bool
is_known [] name = false
is_known (s ∷ ss) name = s == name || is_known ss name

-- The loop of `buildCipherSuites`.
unfoldable pub build_cipher_suites : List String → List String
build_cipher_suites [] = []
build_cipher_suites (name ∷ names) =
    let rest = build_cipher_suites names in if is_known known_suites name then name ∷ rest else rest

abbrev or_default : List String → List String
or_default [] = default_suites
or_default (s ∷ ss) = s ∷ ss

-- `buildTLSConfig`
unfoldable pub build_tls_config : SecurityConfig → TlsConfig
unfolding build_cipher_suites
build_tls_config cfg = record {
  min_version = (if cfg.tls_min_version == "1.3" then tls13 else tls12);
  prefer_server_cipher_suites = true;
  cipher_suites = or_default (build_cipher_suites cfg.tls_cipher_suites);
}
