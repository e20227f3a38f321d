-- ===== src/Router/Exact.antt =====
-- Patterns of internal/router/router.go with neither parameters nor wildcards.
use api_gateway_go.Base.{
  ◌<◌, ◌≡◌, false, none, some, [], ◌∷◌, ◌++◌, All, Bytes, codes, ◌==◌, bytes_eq, if◌then◌else◌, ap,
  ◌∙◌,
}
use api_gateway_go.Config.{RouteConfig}
use api_gateway_go.Router.{
  RegexpLibrary, Regex, Route, compile_route, route_of, anchored, has_byte, quote_meta,
}
use api_gateway_go.Router.Text.{pattern_to_regex_exact}

-- What `QuoteMeta` promises: the quotation of an ASCII text, with both anchors, is an expression
-- that matches this text, as a whole and without groups, and nothing else.
pub record QuotesLiterally (lib : RegexpLibrary) : Type 0 where
  pub literal : Bytes → Regex
  pub compiles :
      (text : Bytes)
      → All (λ b. b < 128) text
      → lib.compile (codes "^" ++ quote_meta text ++ codes "$") ≡ some (literal text)
  pub matches :
      (text path : Bytes) → literal text path ≡ (if path == text then some (path ∷ []) else none)

compile_route-some :
    (lib : RegexpLibrary) (cfg : RouteConfig) (regex : Regex)
    → lib.compile (anchored cfg.path_pattern) ≡ some regex
    → compile_route lib cfg ≡ some (route_of cfg regex)
unfolding compile_route
compile_route-some lib cfg regex h = rw (h, compile_route)

-- With an engine that matches quoted texts literally, a route whose pattern is ASCII and has no
-- brace and no star compiles; it matches the path equal to its pattern and no other, and takes no
-- parameter from it.
pub compile_route_exact :
    (lib : RegexpLibrary) (cfg : RouteConfig)
    → QuotesLiterally lib
    → All (λ b. b < 128) cfg.path_pattern
    → has_byte b'{' cfg.path_pattern ≡ false
    → has_byte b'*' cfg.path_pattern ≡ false
    → (route : Route) × (compile_route lib cfg ≡ some route)
      × ((path : Bytes)
          → route.compiled_regex path
            ≡ (if path == cfg.path_pattern then some (path ∷ []) else none))
      × (route.param_names ≡ [])
compile_route_exact lib cfg quotes ascii brace star =
    let same = pattern_to_regex_exact cfg.path_pattern brace star in
    (
      route_of cfg (quotes.literal cfg.path_pattern),
      compile_route-some lib cfg (quotes.literal cfg.path_pattern) (
          ap (λ p. lib.compile (codes "^" ++ p.0 ++ codes "$")) same
          ∙ quotes.compiles cfg.path_pattern ascii),
      quotes.matches cfg.path_pattern,
      ap (λ p. p.1) same,
    )
