-- ===== src/Router/Tests.antt =====
-- The theorems on the router at a concrete table, with an engine that knows literal texts only.
use api_gateway_go.Base.{
  ℕ, ◌<◌, ◌≡◌, ◌↔◌, refl, ap, Bool, true, false, Option, none, some, List, [], ◌∷◌, ◌++◌, Bytes,
  codes, eqb, ◌==◌, bytes_eq, All, ℤ, if◌then◌else◌, arith, ◌∙◌,
}
use mathlib.Core.List.{Mem, Perm}
use api_gateway_go.Config.{RouteConfig}
use api_gateway_go.Router.{
  Regex, RegexpLibrary, Route, Match, match, compile_route, compile_routes, load_routes, get_routes,
  new, sort_routes_by_priority, quote_meta, has_byte,
}
use api_gateway_go.Router.Text.{meta_bytes}
use api_gateway_go.Router.Sort.{IsSorted, with_priority, sort_routes_by_priority_lem}
use api_gateway_go.Router.Laws.{applies, IsBest, load_routes-match}
use api_gateway_go.Router.Exact.{QuotesLiterally, compile_route_exact}

-- The text that a quoted text stands for, less the last byte.
unfoldable unquote : Bytes → Bytes
unquote [] = []
unquote (b ∷ []) = []
unquote (b ∷ c ∷ s) =
    let escaped = c ∷ unquote s in
    let plain = b ∷ unquote (c ∷ s) in if eqb b 92 then escaped else plain

abbrev literal_regex : Bytes → Regex
literal_regex text path = if path == text then some (path ∷ []) else none

-- Whatever follows the first byte is read as a quoted text; an empty expression does not compile.
abbrev compile_literal : Bytes → Option Regex
compile_literal [] = none
compile_literal (b ∷ s) = some (literal_regex (unquote s))

abbrev literal_library : RegexpLibrary
literal_library = record { compile = compile_literal }

unquote-cons :
    (b : ℕ) (s : Bytes)
    → eqb b 92 ≡ false
    → unquote (b ∷ s ++ codes "$") ≡ b ∷ unquote (s ++ codes "$")
unfolding unquote
unquote-cons b [] h = rw h refl
unquote-cons b (c ∷ s) h = rw h refl

unquote-step :
    (meta : Bool) (b : ℕ) (rest : Bytes)
    → (meta ≡ false → eqb b 92 ≡ false)
    → unquote ((if meta then 92 ∷ b ∷ rest else b ∷ rest) ++ codes "$")
      ≡ b ∷ unquote (rest ++ codes "$")
unfolding unquote
unquote-step true b rest h = refl
unquote-step false b rest h = unquote-cons b rest (h refl)

unquote-quote_meta : (text : Bytes) → unquote (quote_meta text ++ codes "$") ≡ text
unfolding quote_meta unquote has_byte
unquote-quote_meta [] = refl
unquote-quote_meta (b ∷ text) =
    unquote-step (has_byte b meta_bytes) b (quote_meta text) (λ e. ground (e, arith))
    ∙ ap (λ t. b ∷ t) (unquote-quote_meta text)

literal_library-QuotesLiterally : QuotesLiterally literal_library
literal_library-QuotesLiterally = record {
  literal = literal_regex;
  compiles = λ text ascii. ap (λ t. some (literal_regex t)) (unquote-quote_meta text);
  matches = λ text path. refl;
}

abbrev route_at : Bytes → RouteConfig
route_at pattern = record {
  path_pattern = pattern;
  methods = codes "GET" ∷ [];
  backend_url = codes "http://backend";
  timeout = 0;
  auth_policy = "";
  required_roles = [];
  rate_limits = [];
  strip_prefix = [];
}

abbrev table : List RouteConfig
table = route_at (codes "/a") ∷ route_at (codes "/users") ∷ []

compiled : (compile_routes literal_library table).1 ≡ true
unfolding compile_routes compile_route
compiled = refl

empty_table : get_routes new ≡ []
unfolding get_routes new
empty_table = refl

load_routes-match_example :
    let routes = (compile_routes literal_library table).0 in
    let found = match (load_routes literal_library table new).0 (codes "GET") (codes "/users") in
    ((found ≡ none) ↔ All (λ t. applies (codes "GET") (codes "/users") t ≡ false) routes)
    × ((m : Match)
        → found ≡ some m
        → Mem m.route routes × IsBest (codes "GET") (codes "/users") routes m.route)
load_routes-match_example =
    load_routes-match literal_library table new (codes "GET") (codes "/users") compiled

-- An engine that compiles nothing.
abbrev no_library : RegexpLibrary
no_library = record { compile = λ expression. none }

ascii_path : All (λ b. b < 128) (codes "/a.b")
ascii_path = ground arith

no_brace : has_byte b'{' (codes "/a.b") ≡ false
unfolding has_byte
no_brace = refl

no_star : has_byte b'*' (codes "/a.b") ≡ false
unfolding has_byte
no_star = refl

compile_route_exact_example :
    (route : Route) × (compile_route literal_library (route_at (codes "/a.b")) ≡ some route)
    × ((path : Bytes)
        → route.compiled_regex path ≡ (if path == codes "/a.b" then some (path ∷ []) else none))
    × (route.param_names ≡ [])
compile_route_exact_example =
    compile_route_exact literal_library (route_at (codes "/a.b")) literal_library-QuotesLiterally
      ascii_path no_brace no_star

abbrev compiled_table : List Route
compiled_table = (compile_routes literal_library table).0

sort_routes_by_priority_lem_example :
    IsSorted (sort_routes_by_priority compiled_table)
    × Perm (sort_routes_by_priority compiled_table) compiled_table
    × ((z : ℤ)
        → with_priority z (sort_routes_by_priority compiled_table) ≡ with_priority z compiled_table)
sort_routes_by_priority_lem_example = sort_routes_by_priority_lem compiled_table
