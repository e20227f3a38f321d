-- ===== src/Http/Samples.antt =====
-- A request, and handlers that answer it or panic.
use api_gateway_go.Base.{ℕ, suc, false, none, [], ◌∷◌, codes}
use api_gateway_go.Http.{
  Request, Handler, set_header, write_header, write, json, text, returned, panicked,
}

abbrev pub get_admin : Request
get_admin = record {
  method = codes "get";
  path = codes "/admin";
  host = "gateway";
  request_uri = "/admin";
  tls = false;
  headers = [];
  user_agent = codes "Browser";
  cookies = [];
  remote_addr = codes "10.0.0.7:80";
  body_limit = none;
  context = [];
}

-- It counts the requests, and calls `WriteHeader` twice.
abbrev pub counting : Handler ℕ
counting r w = record {
  actions =
      set_header "X-Frame-Options" "SAMEORIGIN"
      ∷ write_header 201
      ∷ write_header 502
      ∷ write (json (("ok", text "yes") ∷ []))
      ∷ [];
  ending = returned;
  world = suc w;
}

abbrev pub broken : Handler ℕ
broken r w = record { actions = []; ending = panicked "index out of range"; world = suc w }

abbrev pub broken_otherwise : Handler ℕ
broken_otherwise r w = record { actions = []; ending = panicked "nil map"; world = suc w }
