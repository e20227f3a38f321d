-- ===== src/RateLimit/Middleware/Laws.antt =====
-- Which limits a request meets, and in which order they are charged.
use api_gateway_go.Base.{
  ◌≡◌, ◌≢◌, refl, ◌↔◌, ◌⊎◌, inl, inr, ap, sym, true, false, List, [], ◌∷◌, ◌++◌, Bytes, ◌==◌,
  string_eq, bytes_eq, bytes_beq_iff, arith, All, Elem, Bool-cases,
}
use mathlib.Core.Path.{subst}
use api_gateway_go.Config.{RateLimitConfig, RouteConfig}
use api_gateway_go.Router.Text.{prefix?}
use api_gateway_go.RateLimit.Middleware.{
  Request, ends_with_star, drop_last, path_matches, lists_method, allows_method, route_matches,
  route_limits, get_applicable_limits,
}

prefix?-rest : (p s : Bytes) → prefix? p s ≡ true → (rest : Bytes) × (s ≡ p ++ rest)
unfolding prefix?
prefix?-rest [] s h = (s, refl)
prefix?-rest (a ∷ p) [] h = ground (h, arith)
prefix?-rest (a ∷ p) (b ∷ s) h =
    let (rest, e) = prefix?-rest p s (ground (h, arith)) in
    let same : b ≡ a = ground (h, arith) in (rest, rw e (ap (λ c. c ∷ p ++ rest) same))

prefix?-append : (p rest : Bytes) → prefix? p (p ++ rest) ≡ true
unfolding prefix?
prefix?-append [] rest = refl
prefix?-append (a ∷ p) rest = ground (arith, prefix?-append p rest)

ends_with_star-last : (p : Bytes) → ends_with_star p ≡ true → p ≡ drop_last p ++ b'*' ∷ []
unfolding ends_with_star drop_last
ends_with_star-last [] h = ground (h, arith)
ends_with_star-last (b ∷ []) h = let same : b ≡ b'*' = ground (h, arith) in ap (λ c. c ∷ []) same
ends_with_star-last (b ∷ c ∷ p) h = ap (λ t. b ∷ t) (ends_with_star-last (c ∷ p) h)

ends_with_star-append : (p : Bytes) → ends_with_star (p ++ b'*' ∷ []) ≡ true
unfolding ends_with_star
ends_with_star-append [] = refl
ends_with_star-append (b ∷ []) = refl
ends_with_star-append (b ∷ c ∷ p) = ends_with_star-append (c ∷ p)

drop_last-append : (p : Bytes) → drop_last (p ++ b'*' ∷ []) ≡ p
unfolding drop_last
drop_last-append [] = refl
drop_last-append (b ∷ []) = refl
drop_last-append (b ∷ c ∷ p) = ap (λ t. b ∷ t) (drop_last-append (c ∷ p))

lists_method_iff : (m : Bytes) (ms : List Bytes) → (lists_method m ms ≡ true) ↔ Elem m ms
unfolding lists_method
lists_method_iff m [] = ground arith
lists_method_iff m (n ∷ ms) = ground (arith, lists_method_iff m ms, bytes_beq_iff n m)

-- A pattern names exactly one path, or with a final star all paths that start with the rest of it.
abbrev pub Names : Bytes → Bytes → Type 0
Names pattern path =
    (path ≡ pattern)
    ⊎ ((front rest : Bytes) × (pattern ≡ front ++ b'*' ∷ []) × (path ≡ front ++ rest))

path_matches→ : (pattern path : Bytes) → path_matches pattern path ≡ true → Names pattern path
unfolding path_matches
path_matches→ pattern path h = elim (Bool-cases (path == pattern)) [
  | inl same ↦ inl ((bytes_beq_iff path pattern).0 same)
  | inr other ↦
      let star : ends_with_star pattern ≡ true = ground (h, other, arith) in
      let front : prefix? (drop_last pattern) path ≡ true = ground (h, other, arith) in
      let (rest, e) = prefix?-rest (drop_last pattern) path front in
      inr (drop_last pattern, rest, ends_with_star-last pattern star, e)
]

path_matches← : (pattern path : Bytes) → Names pattern path → path_matches pattern path ≡ true
unfolding path_matches
path_matches← pattern path (inl e) = ground (arith, (bytes_beq_iff path pattern).1 e)
path_matches← pattern path (inr (front, rest, p, e)) = rw p (
    rw e (
      ground
        (arith, ends_with_star-append front, drop_last-append front, prefix?-append front rest)))

append-nil : {A : Type 0} (xs : List A) → xs ++ [] ≡ xs
append-nil [] = refl
append-nil (x ∷ xs) = ap (λ t. x ∷ t) (append-nil xs)

cons≢nil : (m : Bytes) (ms : List Bytes) → m ∷ ms ≢ []
cons≢nil m ms e = cc e

-- The limits of a route apply to a request exactly if the path is the pattern itself, or the
-- pattern ends with a star and the path starts with the rest of it, and the route lists the method
-- or no method at all. A `{parameter}` in a pattern has no meaning here.
pub route_matches_iff :
    (r : Request) (route : RouteConfig)
    → (route_matches r route ≡ true) ↔ (
        Names route.path_pattern r.keyed.path
        × ((route.methods ≡ []) ⊎ Elem r.method route.methods))
unfolding route_matches
route_matches_iff r route = (
  λ h.
      let path : path_matches route.path_pattern r.keyed.path ≡ true = ground (h, arith) in
      let listed : allows_method r.method route.methods ≡ true = ground (h, arith) in
      (path_matches→ route.path_pattern r.keyed.path path, method→ route.methods listed),
  λ (path, listed).
      let named = path_matches← route.path_pattern r.keyed.path path in
      rw named (method← route.methods listed),
)
  where
    method→ : (ms : List Bytes) → allows_method r.method ms ≡ true → (ms ≡ []) ⊎ Elem r.method ms
    method→ [] h = inl refl
    method→ (m ∷ ms) h = inr ((lists_method_iff r.method (m ∷ ms)).0 h)

    method← : (ms : List Bytes) → (ms ≡ []) ⊎ Elem r.method ms → allows_method r.method ms ≡ true
    method← [] h = refl
    method← (m ∷ ms) (inl e) = absurd (cons≢nil m ms e)
    method← (m ∷ ms) (inr e) = (lists_method_iff r.method (m ∷ ms)).1 e

-- A pattern that has a parameter and no final star.
abbrev pub IsParameterised : RouteConfig → Type 0
IsParameterised route = Elem b'{' route.path_pattern × (ends_with_star route.path_pattern ≡ false)

-- Where every route's pattern has a parameter and no final star, a request whose path has no brace
-- meets the global limits only, whatever limits the routes state.
pub parameterised_limits_skipped :
    (r : Request) (cfg : RateLimitConfig) (routes : List RouteConfig)
    → All IsParameterised routes
    → (Elem b'{' r.keyed.path → ⊥)
    → get_applicable_limits r cfg routes ≡ cfg.global_limits
unfolding get_applicable_limits route_matches path_matches route_limits
parameterised_limits_skipped r cfg routes h plain =
    rw (skipped routes h) (append-nil cfg.global_limits)
  where
    unnamed : (route : RouteConfig) → IsParameterised route → route_matches r route ≡ false
    unnamed route (brace, star) = elim (Bool-cases (r.keyed.path == route.path_pattern)) [
      | inl same ↦ absurd (
          plain (
            subst (λ p. Elem b'{' p) (sym ((bytes_beq_iff r.keyed.path route.path_pattern).0 same))
              brace))
      | inr other ↦ ground (other, star, arith)
    ]

    skipped : (rs : List RouteConfig) → All IsParameterised rs → route_limits r rs ≡ []
    skipped [] h = refl
    skipped (route ∷ rs) (p, h) = rw (unnamed route p) (skipped rs h)
