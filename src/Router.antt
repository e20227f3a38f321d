-- ===== src/Router.antt =====
-- internal/router/router.go: the table of routes.
-- Paths, patterns and methods are bytes; `strings.ToUpper` is modelled on ASCII. The engine of
-- package `regexp` is the parameter `RegexpLibrary`; the two fixed expressions that `patternToRegex`
-- itself uses are written out as scans. The mutex makes each method one step.
pub mod Text
pub mod Priority
pub mod Sort
pub mod Laws
pub mod Exact
mod Tests
unfoldable pub use Text.{prefix?, infix?, count, to_upper, has_byte, quote_meta, pattern_to_regex}
unfoldable pub use Priority.{calculate_priority}
use api_gateway_go.Base.{
  ℕ, zero, suc, ◌+◌, ◌-◌, ◌/◌, Bool, true, false, Option, none, some, List, [], ◌∷◌, ◌++◌, map,
  Bytes, String, Dict, insert, bytes_eq, ◌==◌, codes, ℤ, ltℤ, if◌then◌else◌, length,
}
use api_gateway_go.Config.{RouteConfig, LimitDefinition}

-- `FindStringSubmatch` of a compiled expression: the match and its groups.
abbrev pub Regex : Type 0
Regex = Bytes → Option (List Bytes)

-- `regexp.Compile`
pub record RegexpLibrary : Type 0 where
  pub compile : Bytes → Option Regex

pub record Route : Type 0 where
  pub path_pattern : Bytes
  pub compiled_regex : Regex
  pub methods : List Bytes
  pub backend_url : Bytes
  pub timeout : ℕ
  pub auth_policy : String
  pub required_roles : List String
  pub rate_limits : List LimitDefinition
  pub strip_prefix : Bytes
  pub priority : ℤ
  pub param_names : List Bytes

pub record Router : Type 0 where
  pub routes : List Route

unfoldable pub new : Router
new = record { routes = [] }

pub record Match : Type 0 where
  pub route : Route
  pub params : Dict Bytes Bytes

abbrev millisecond : ℕ
millisecond = 1000000

-- The route that `compileRoute` builds once its expression is compiled.
abbrev pub route_of : RouteConfig → Regex → Route
route_of cfg regex = record {
  path_pattern = cfg.path_pattern;
  compiled_regex = regex;
  methods = map to_upper cfg.methods;
  backend_url = cfg.backend_url;
  timeout = cfg.timeout / millisecond;
  auth_policy = cfg.auth_policy;
  required_roles = cfg.required_roles;
  rate_limits = cfg.rate_limits;
  strip_prefix = cfg.strip_prefix;
  priority = calculate_priority cfg.path_pattern;
  param_names = (pattern_to_regex cfg.path_pattern).1;
}

-- The expression that `compileRoute` hands to `regexp.Compile`.
abbrev pub anchored : Bytes → Bytes
anchored pattern = codes "^" ++ (pattern_to_regex pattern).0 ++ codes "$"

unfoldable pub compile_route : RegexpLibrary → RouteConfig → Option Route
compile_route lib cfg = elim (lib.compile (anchored cfg.path_pattern)) [
  | none ↦ none
  | some regex ↦ some (route_of cfg regex)
]

-- The loop of `LoadRoutes`: the routes compiled so far, and whether all of them were.
unfoldable pub compile_routes : RegexpLibrary → List RouteConfig → List Route × Bool
compile_routes lib [] = ([], true)
compile_routes lib (cfg ∷ cfgs) =
    let (rest, complete) = compile_routes lib cfgs in
    elim (compile_route lib cfg) [ none ↦ ([], false) | some route ↦ (route ∷ rest, complete) ]

-- The inner loop of `sortRoutesByPriority`, with `k` comparisons left: the larger of two
-- neighbours moves on.
unfoldable pub bubble : ℕ → List Route → List Route
bubble zero rs = rs
bubble (suc k) [] = []
bubble (suc k) (r ∷ []) = r ∷ []
bubble (suc k) (r ∷ s ∷ rs) =
    let swapped = s ∷ bubble k (r ∷ rs) in
    let kept = r ∷ bubble k (s ∷ rs) in if ltℤ s.priority r.priority then swapped else kept

-- The outer loop: each round makes one comparison less, the last one makes one.
unfoldable pub bubble_rounds : ℕ → List Route → List Route
bubble_rounds zero rs = rs
bubble_rounds (suc k) rs = bubble_rounds k (bubble (suc k) rs)

unfoldable pub sort_routes_by_priority : List Route → List Route
unfolding bubble_rounds
sort_routes_by_priority rs = bubble_rounds (length rs - 1) rs

-- `LoadRoutes` and `Reload`; false is the error of a route that does not compile. The table is
-- emptied first, and filled up to that route.
unfoldable pub load_routes : RegexpLibrary → List RouteConfig → Router → Router × Bool
load_routes lib cfgs r =
    let (compiled, complete) = compile_routes lib cfgs in
    if complete
    then (record { routes = sort_routes_by_priority compiled }, true)
    else (record { routes = compiled }, false)

-- `route.Methods[method]`
unfoldable pub has_method : Bytes → List Bytes → Bool
has_method method [] = false
has_method method (m ∷ ms) = if m == method then true else has_method method ms

-- The loop that fills `params`: the n-th name gets the n-th group, as long as there is one.
unfoldable pub extract_params : List Bytes → List Bytes → Dict Bytes Bytes → Dict Bytes Bytes
extract_params (name ∷ names) (group ∷ groups) params =
    extract_params names groups (insert name group params)
extract_params (name ∷ names) [] params = params
extract_params [] groups params = params

abbrev groups_of : List Bytes → List Bytes
groups_of [] = []
groups_of (whole ∷ groups) = groups

-- The loop of `Match`; `none` is "no route found".
unfoldable pub match_in : List Route → Bytes → Bytes → Option Match
match_in [] method path = none
match_in (route ∷ routes) method path =
    let later = match_in routes method path in
    if has_method method route.methods
    then elim (route.compiled_regex path) [
      | none ↦ later
      | some matches ↦ some (record {
        route = route;
        params = extract_params route.param_names (groups_of matches) [];
      })
    ]
    else later

unfoldable pub match : Router → Bytes → Bytes → Option Match
match r method path = match_in r.routes method path

unfoldable pub get_routes : Router → List Route
get_routes r = r.routes
