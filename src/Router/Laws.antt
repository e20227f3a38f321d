-- ===== src/Router/Laws.antt =====
-- Which route of internal/router/router.go serves a request.
use api_gateway_go.Base.{
  ◌≡◌, ◌↔◌, inl, inr, Bool, true, false, ◌&&◌, Option, none, some, List, [], ◌∷◌, ◌++◌, arith, All,
  Bytes, ℤ, ◌≤ℤ◌, Bool-cases,
}
use mathlib.Core.Path.{subst}
use mathlib.Core.Logic.Or
use mathlib.Core.List.{Mem, mem-cons}
use mathlib.Core.List.Perm
use native.Mathlib.Nat.{le_refl}
use api_gateway_go.Config.{RouteConfig}
use api_gateway_go.Router.{
  RegexpLibrary, Route, Router, Match, match, match_in, has_method, load_routes, compile_routes,
  compile_route, sort_routes_by_priority,
}
use api_gateway_go.Router.Sort.{IsSorted, sort-IsSorted, sort-All, sort-perm}

abbrev is_some : Option (List Bytes) → Bool
is_some none = false
is_some (some groups) = true

-- The route allows the method, and its expression matches the path.
abbrev pub applies : Bytes → Bytes → Route → Bool
applies method path route = has_method method route.methods && is_some (route.compiled_regex path)

abbrev AtLeast : ℤ → List Route → Type 0
AtLeast z = All (λ r. z ≤ℤ r.priority)

-- The route applies, and no route that applies has a smaller number.
abbrev pub IsBest : Bytes → Bytes → List Route → Route → Type 0
IsBest method path routes best =
    (applies method path best ≡ true)
    × All (λ r. applies method path r ≡ true → best.priority ≤ℤ r.priority) routes

match_in-none_iff :
    (routes : List Route) (method path : Bytes)
    → (match_in routes method path ≡ none) ↔ All (λ r. applies method path r ≡ false) routes
unfolding match_in
match_in-none_iff [] method path = ground arith
match_in-none_iff (r ∷ rs) method path = ground (arith, match_in-none_iff rs method path)

weaken :
    (method path : Bytes) (z : ℤ) (rs : List Route)
    → AtLeast z rs
    → All (λ r. applies method path r ≡ true → z ≤ℤ r.priority) rs
weaken method path z [] h = tt
weaken method path z (r ∷ rs) (p, h) = ((λ _. p), weaken method path z rs h)

match_in-IsBest :
    (routes : List Route) (method path : Bytes) (m : Match)
    → IsSorted routes
    → match_in routes method path ≡ some m
    → IsBest method path routes m.route
unfolding match_in
match_in-IsBest [] method path m s h = cc
match_in-IsBest (r ∷ rs) method path m (low, s) h = elim (Bool-cases (applies method path r)) [
  | inl hit ↦
      let same : r ≡ m.route = ground arith in
      subst (λ (x : Route). IsBest method path (r ∷ rs) x) same
        (hit, ((λ e. le_refl _), weaken method path r.priority rs low))
  | inr miss ↦
      let later : match_in rs method path ≡ some m = ground arith in
      let (good, least) = match_in-IsBest rs method path m s later in (good, ((λ e. cc), least))
]

match_in-mem :
    (routes : List Route) (method path : Bytes) (m : Match)
    → match_in routes method path ≡ some m
    → Mem m.route routes
unfolding match_in
match_in-mem [] method path m h = cc
match_in-mem (r ∷ rs) method path m h = elim (Bool-cases (applies method path r)) [
  | inl hit ↦ let same : m.route ≡ r = ground arith in mem-cons.1 (Or.inl same)
  | inr miss ↦ mem-cons.1 (Or.inr (match_in-mem rs method path m (ground arith)))
]

load_routes_complete :
    (lib : RegexpLibrary) (cfgs : List RouteConfig) (r : Router)
    → (compile_routes lib cfgs).1 ≡ true
    → load_routes lib cfgs r
      ≡ (record { routes = sort_routes_by_priority (compile_routes lib cfgs).0 }, true)
unfolding load_routes
load_routes_complete lib cfgs r complete = rw complete

-- After a successful `LoadRoutes` a request is served by a configured route that allows its method
-- and matches its path, and no other such route has a smaller priority number; the request is
-- refused exactly when no configured route applies to it.
pub load_routes-match :
    (lib : RegexpLibrary) (cfgs : List RouteConfig) (r : Router) (method path : Bytes)
    → (compile_routes lib cfgs).1 ≡ true
    → let table = (compile_routes lib cfgs).0 in
      let found = match (load_routes lib cfgs r).0 method path in
      ((found ≡ none) ↔ All (λ t. applies method path t ≡ false) table)
      × ((m : Match) → found ≡ some m → Mem m.route table × IsBest method path table m.route)
unfolding match
load_routes-match lib cfgs r method path complete =
    let table = (compile_routes lib cfgs).0 in
    let sorted = sort_routes_by_priority table in
    let none_iff = match_in-none_iff sorted method path in
    let all = sort-All (λ t. applies method path t ≡ false) table in
    rw (load_routes_complete lib cfgs r complete) (
      ((λ h. all.0 (none_iff.0 h)), λ h. none_iff.1 (all.1 h)),
      λ m h.
          let (hit, least) = match_in-IsBest sorted method path m (sort-IsSorted table) h in
          (
            (Perm.mem_iff (sort-perm table)).0 (match_in-mem sorted method path m h),
            (
              hit,
              (sort-All (λ t. applies method path t ≡ true → m.route.priority ≤ℤ t.priority)
                    table).0
                  least,
            ),
          ),
    )

compile_routes-failure :
    (lib : RegexpLibrary) (before after : List RouteConfig) (bad : RouteConfig)
    → (compile_routes lib before).1 ≡ true
    → compile_route lib bad ≡ none
    → compile_routes lib (before ++ bad ∷ after) ≡ ((compile_routes lib before).0, false)
unfolding compile_routes
compile_routes-failure lib [] after bad good fails = ground arith
compile_routes-failure lib (cfg ∷ before) after bad good fails =
    ground (arith, compile_routes-failure lib before after bad)

-- If a route does not compile, the earlier table is gone: `LoadRoutes` fails, and the router is left
-- with the routes before the bad one, in the order of the configuration.
pub load_routes_failure :
    (lib : RegexpLibrary) (before after : List RouteConfig) (bad : RouteConfig) (r : Router)
    → (compile_routes lib before).1 ≡ true
    → compile_route lib bad ≡ none
    → load_routes lib (before ++ bad ∷ after) r
      ≡ (record { routes = (compile_routes lib before).0 }, false)
unfolding load_routes
load_routes_failure lib before after bad r good fails =
    rw (compile_routes-failure lib before after bad good fails)
