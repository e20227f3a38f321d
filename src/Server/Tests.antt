-- ===== src/Server/Tests.antt =====
-- A server of the sample configuration at concrete requests.
use api_gateway_go.Base.{
  ℕ, suc, ◌≡◌, ◌≢◌, refl, sym, ◌∙◌, inl, inr, Bool, true, false, none, some, String, List, [], ◌∷◌,
  Bytes, codes, bytes_eq, bytes_beq, string_eq, lookup, to_lower, lower, arith,
}
use api_gateway_go.Config.Samples.{sample_gateway, sample_security, admin_route}
use api_gateway_go.Config.Validate.{validate}
use api_gateway_go.Context.{background, with_id, get_correlation_id, value}
use api_gateway_go.Router.{
  Match, RegexpLibrary, route_of, load_routes, compile_routes, compile_route,
  sort_routes_by_priority, bubble_rounds, bubble, match, match_in, has_method, extract_params,
  to_upper, pattern_to_regex,
}
use api_gateway_go.Router.Text.{param_names, names_from, infix?, prefix?}
use api_gateway_go.Middleware.Input.{is_user_agent_blocked, blocks_agent}
use api_gateway_go.Middleware.Input.Laws.{agent_refused_iff}
use api_gateway_go.Auth.Handler.{Components, is_health_check_path}
use api_gateway_go.Auth.Extractor.{ExtractorConfig}
use api_gateway_go.Auth.Revocation.{unreachable}
use api_gateway_go.Auth.Samples.{sample_library, sample_validator}
use api_gateway_go.RateLimit.Float64.{whole}
use api_gateway_go.RateLimit.Limiter.{Memory, memory_storage}
use api_gateway_go.Health
use api_gateway_go.Http.{Request, Handler, set_header, panicked, seen, json, raw}
use api_gateway_go.Http.Samples.{get_admin}
use api_gateway_go.Middleware.Correlation.{correlation_id, id_of}
use api_gateway_go.Middleware.Errors.{error_handling, build_error_response}
use api_gateway_go.Server.{Server, new}
use api_gateway_go.Server.Pipeline.{World, Parts, Served, root, sent, setup_router}
use api_gateway_go.Server.Reach.{watched_request}
use api_gateway_go.Server.Gates.{IsPassed, setup_router-IsPassed}
use api_gateway_go.Server.Laws.{with_rs256, IsProxied, validated_request, unauthenticated_lem}
use api_gateway_go.Server.Refused.{blocked_lem}
use api_gateway_go.Server.Panic.{panic_id_lem}

abbrev S : Type 0
S = Memory ℕ

abbrev no_pattern : List Bytes → Bytes → Bytes → Served
no_pattern ps method path = root

-- A backend that counts its requests.
abbrev parts : Parts S ℕ
parts = record {
  jwt = sample_library;
  revocation_service = λ url. unreachable;
  readings = record {
    parse = 5;
    validate = 5;
    revocation_read = 5;
    revocation_write = 5;
    policy_read = 5;
    policy_write = 5;
  };
  float = whole;
  limits = memory_storage ℕ;
  parse_duration = λ text. none;
  now = 5;
  timestamp = "now";
  generated_id = "id-1";
  traced = λ r. r.context;
  accepted = λ chunk. 1;
  serve_mux = no_pattern;
  clean_url = λ r. r.request_uri;
  forward = λ m r n. (record { actions = []; end = sent }, suc n);
  metrics_page = [];
  encode_auth = λ answer. raw [];
  encode_limit = λ r limit result. raw [];
}

-- Every expression matches every path.
abbrev library : RegexpLibrary
library = record { compile = λ text. some (λ path. some (path ∷ [])) }

abbrev extractor : ExtractorConfig
extractor = record {
  cookie_name = "session";
  enforce_cookie_security = false;
  cookie_same_site = "";
}

abbrev no_checks : Health.Manager (World S ℕ)
no_checks = record { checks = [] }

abbrev started : World S ℕ
started = record { auth = record { components = none }; storage = []; backend = 0; reports = [] }

abbrev es_server : Server (World S ℕ)
unfolding new
es_server = new library (λ cfg. true) (λ file. none) extractor (λ w. none) sample_gateway no_checks

abbrev get_page : Request
get_page = record get_admin { method = codes "GET" }

abbrev admin_match : Match
admin_match = record { route = route_of admin_route (λ path. some (path ∷ [])); params = [] }

admin_matched : match es_server.router get_page.method get_page.path ≡ some admin_match
unfolding es_server new load_routes compile_routes compile_route sort_routes_by_priority
    bubble_rounds bubble match match_in has_method extract_params bytes_beq to_upper
    pattern_to_regex param_names names_from
admin_matched = refl

false_is_not_true : ¬ (false ≡ true)
false_is_not_true e = cc e

es-IsProxied : IsProxied parts es_server get_page admin_match
unfolding es_server new to_lower to_upper lower is_user_agent_blocked blocks_agent infix? prefix?
es-IsProxied = record {
  method = inr (inl refl);
  path = inr (ground arith);
  agent = λ blocked.
      false_is_not_true
        ((agent_refused_iff sample_security (watched_request parts es_server get_page)).1 blocked);
  no_redirect = refl;
  at_root = refl;
  matched = admin_matched;
}

unauthenticated_lem_example :
    let missing : String → Bool = λ file. false in
    (validate missing sample_gateway ≡ validate missing (with_rs256 sample_gateway))
    × ((setup_router parts es_server get_page started).world.backend
        ≡ (parts.forward admin_match (validated_request parts es_server get_page) 0).1)
unfolding es_server
unauthenticated_lem_example =
    unauthenticated_lem parts (λ file. false) library (λ cfg. true) (λ file. none) extractor
      (λ w. none) sample_gateway no_checks get_page admin_match started (inl refl) refl es-IsProxied

-- The same server with an authorization that could be built.
abbrev components : Components
components = record {
  extractor = extractor;
  validator = sample_validator;
  revocation_checker = record { url = ""; cache = none; enabled = false };
  policy_evaluator = record { cache = none };
}

abbrev auth_server : Server (World S ℕ)
unfolding es_server
auth_server = record es_server { auth_middleware = some (record { components = some components }) }

auth-IsProxied : IsProxied parts auth_server get_page admin_match
unfolding es_server
auth-IsProxied = record {
  method = es-IsProxied.method;
  path = es-IsProxied.path;
  agent = es-IsProxied.agent;
  no_redirect = refl;
  at_root = refl;
  matched = admin_matched;
}

abbrev auth_started : World S ℕ
auth_started = record started { auth = record { components = some components } }

blocked_lem_example :
    let run = setup_router parts auth_server get_page auth_started in
    let answer = seen run.actions in
    (run.world.backend ≡ 0)
    × (answer.status ≡ 500)
    × (lookup "X-Frame-Options" answer.headers ≡ none)
unfolding auth_server is_health_check_path bytes_beq id_of lookup
blocked_lem_example =
    blocked_lem parts auth_server (record { components = some components }) components get_page
      admin_match auth_started refl refl (with_id "id-1" background) refl auth-IsProxied

-- No cookie is sent, and the route is for administrators.
forwarded_once : (setup_router parts es_server get_page started).world.backend ≡ 1
unfolding es_server
forwarded_once =
    (unauthenticated_lem parts (λ file. false) library (λ cfg. true) (λ file. none) extractor
      (λ w. none) sample_gateway no_checks get_page admin_match started (inl refl) refl
      es-IsProxied).1

one_is_not_zero : ◌≢◌ {A = ℕ} 1 0
one_is_not_zero e = ground arith

setup_router-IsPassed_example :
    IsPassed parts es_server get_page started
      (setup_router parts es_server get_page started).world.backend
setup_router-IsPassed_example =
    setup_router-IsPassed parts es_server get_page started
      (λ e. one_is_not_zero (sym forwarded_once ∙ e))

-- A handler that panics after it has set a header.
abbrev broken_later : Handler ℕ
broken_later r w = record {
  actions = set_header "X-Frame-Options" "DENY" ∷ [];
  ending = panicked "index out of range";
  world = w;
}

panic_id_lem_example :
    let answer =
      seen
        (error_handling sample_security (correlation_id "id-1" broken_later) get_admin 0).actions in
    (answer.status ≡ 500)
    × (answer.body
        ≡ json (
            build_error_response "internal_server_error" "An unexpected error occurred" "" true
              "index out of range")
          ∷ [])
    × (lookup "X-Correlation-Id" answer.headers ≡ some ("id-1" ∷ []))
unfolding id_of get_correlation_id value lookup
panic_id_lem_example =
    panic_id_lem sample_security "id-1" "index out of range" broken_later get_admin 0 refl refl
      ((λ e. cc e), tt)
