-- ===== src/Middleware/Chain.antt =====
-- internal/middleware/chain.go: chains of middleware, and the registry that builds them by name.
-- The order in which a Go map is walked is not fixed: `get_all` has the names in the order of the
-- association list.
pub mod Laws
mod Tests
use api_gateway_go.Base.{
  Option, none, some, String, List, [], ◌∷◌, ◌++◌, Dict, lookup, insert, string_eq,
}
use api_gateway_go.Http.{Handler, Middleware}

pub record Chain (W : Type 0) : Type 0 where
  pub middlewares : List (Middleware W)

unfoldable pub new_chain : {W : Type 0} → List (Middleware W) → Chain W
new_chain ms = record { middlewares = ms }

unfoldable pub reverse_onto : {A : Type 0} → List A → List A → List A
reverse_onto [] ys = ys
reverse_onto (x ∷ xs) ys = reverse_onto xs (x ∷ ys)

-- The loop of `Then`, over the middlewares from the last to the first.
unfoldable pub apply_each : {W : Type 0} → List (Middleware W) → Handler W → Handler W
apply_each [] h = h
apply_each (m ∷ ms) h = apply_each ms (m h)

-- `Then`
unfoldable pub then_run : {W : Type 0} → Chain W → Handler W → Handler W
unfolding reverse_onto apply_each
then_run c h = apply_each (reverse_onto c.middlewares []) h

-- `Append`
unfoldable pub append : {W : Type 0} → Chain W → List (Middleware W) → Chain W
append c ms = record { middlewares = c.middlewares ++ ms }

abbrev pub Registry : Type 0 → Type 0
Registry W = Dict String (Middleware W)

unfoldable pub register : {W : Type 0} → String → Middleware W → Registry W → Registry W
register name m r = insert name m r

unfoldable pub get : {W : Type 0} → String → Registry W → Option (Middleware W)
get name r = lookup name r

-- What `BuildChain` returns: a chain, or the name in its error.
pub data Built (W : Type 0) : Type 0 where
  built : Chain W → Built W
  not_found : String → Built W

-- The loop of `BuildChain`, with the middlewares found so far.
unfoldable pub collect : {W : Type 0} → List String → List (Middleware W) → Registry W → Built W
unfolding get new_chain
collect [] found r = built (new_chain found)
collect (name ∷ names) found r = elim (get name r) [
  | none ↦ not_found name
  | some m ↦ collect names (found ++ (m ∷ [])) r
]

-- `BuildChain`
unfoldable pub build_chain : {W : Type 0} → List String → Registry W → Built W
unfolding collect
build_chain names r = collect names [] r

-- `GetAll`
unfoldable pub get_all : {W : Type 0} → Registry W → List String
get_all [] = []
get_all ((name, m) ∷ r) = name ∷ get_all r
