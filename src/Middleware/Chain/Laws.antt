-- ===== src/Middleware/Chain/Laws.antt =====
-- In which order the middlewares of a chain run, and which chains a registry builds.
use api_gateway_go.Base.{
  ◌≡◌, refl, sym, ap, ◌∙◌, Option, none, some, String, List, [], ◌∷◌, ◌++◌, map, lookup-insert,
  string_eq, ◌==◌, if◌then◌else◌,
}
use mathlib.Core.Path.{subst}
use api_gateway_go.Http.{Handler, Middleware}
use api_gateway_go.Middleware.Chain.{
  Chain, new_chain, reverse_onto, apply_each, then_run, append, Registry, register, get, Built,
  built, not_found, collect, build_chain,
}

-- The first middleware is the outermost.
abbrev pub nest : {W : Type 0} → List (Middleware W) → Handler W → Handler W
nest [] h = h
nest (m ∷ ms) h = m (nest ms h)

apply_each-reverse_onto :
    {W : Type 0} (ms done : List (Middleware W)) (h : Handler W)
    → apply_each (reverse_onto ms done) h ≡ apply_each done (nest ms h)
unfolding apply_each reverse_onto
apply_each-reverse_onto [] done h = refl
apply_each-reverse_onto (m ∷ ms) done h = apply_each-reverse_onto ms (m ∷ done) h

nest-append :
    {W : Type 0} (ms ns : List (Middleware W)) (h : Handler W)
    → nest (ms ++ ns) h ≡ nest ms (nest ns h)
nest-append [] ns h = refl
nest-append (m ∷ ms) ns h = ap m (nest-append ms ns h)

pub then_run-nest : {W : Type 0} (c : Chain W) (h : Handler W) → then_run c h ≡ nest c.middlewares h
unfolding then_run apply_each
then_run-nest c h = apply_each-reverse_onto c.middlewares [] h

-- The first middleware of a chain runs first, around all the others, whatever is appended later; and
-- a chain that is extended runs the new middlewares inside the old ones.
pub then_run_lem :
    {W : Type 0} (m : Middleware W) (ms ns : List (Middleware W)) (h : Handler W)
    → (then_run (append (new_chain (m ∷ ms)) ns) h ≡ m (then_run (append (new_chain ms) ns) h))
      × (then_run (append (new_chain ms) ns) h
          ≡ then_run (new_chain ms) (then_run (new_chain ns) h))
      × (then_run (new_chain []) h ≡ h)
unfolding new_chain append
then_run_lem m ms ns h = (
  then_run-nest (append (new_chain (m ∷ ms)) ns) h
      ∙ ap m (sym (then_run-nest (append (new_chain ms) ns) h)),
  then_run-nest (append (new_chain ms) ns) h
      ∙ nest-append ms ns h
      ∙ ap (nest ms) (sym (then_run-nest (new_chain ns) h))
      ∙ sym (then_run-nest (new_chain ms) (then_run (new_chain ns) h)),
  then_run-nest (new_chain []) h,
)

-- The names that stand before the first one that is not registered, if there is one.
pub data IsFirstMissing {W : Type 0} (r : Registry W) : String → List String → Type 0 where
  here :
      {name : String} {names : List String}
      → get name r ≡ none
      → IsFirstMissing r name (name ∷ names)
  there :
      {name first : String} {names : List String} (m : Middleware W)
      → get first r ≡ some m
      → IsFirstMissing r name names
      → IsFirstMissing r name (first ∷ names)

-- What the loop does from its state on.
abbrev Collected : {W : Type 0} → Registry W → List String → List (Middleware W) → Built W → Type 0
Collected {W} r names found (built c) =
    (ms : List (Middleware W)) × (map (λ name. get name r) names ≡ map some ms)
    × (c.middlewares ≡ found ++ ms)
Collected r names found (not_found name) = IsFirstMissing r name names

append_nil : {A : Type 0} (xs : List A) → xs ++ [] ≡ xs
append_nil [] = refl
append_nil (x ∷ xs) = ap (◌∷◌ x) (append_nil xs)

append_assoc : {A : Type 0} (xs ys zs : List A) → (xs ++ ys) ++ zs ≡ xs ++ (ys ++ zs)
append_assoc [] ys zs = refl
append_assoc (x ∷ xs) ys zs = ap (◌∷◌ x) (append_assoc xs ys zs)

extend :
    {W : Type 0} (name : String) (names : List String) (found : List (Middleware W))
    (r : Registry W) (m : Middleware W) (b : Built W)
    → get name r ≡ some m
    → Collected r names (found ++ (m ∷ [])) b
    → Collected r (name ∷ names) found b
extend name names found r m (built c) e (ms, same, all) =
    (m ∷ ms, cc (e, same), all ∙ append_assoc found (m ∷ []) ms)
extend name names found r m (not_found missing) e h = there m e h

collect_lem :
    {W : Type 0} (names : List String) (found : List (Middleware W)) (r : Registry W)
    → Collected r names found (collect names found r)
unfolding collect get new_chain
collect_lem [] found r = ([], refl, sym (append_nil found))
collect_lem {W = W} (name ∷ names) found r =
    go (get name r) refl (λ m. collect_lem names (found ++ (m ∷ [])) r)
  where
    go :
        (o : Option (Middleware W))
        → get name r ≡ o
        → ((m : Middleware W)
            → Collected r names (found ++ (m ∷ [])) (collect names (found ++ (m ∷ [])) r))
        → Collected r
            (name ∷ names)
            found
            (elim o [ none ↦ not_found name | some m ↦ collect names (found ++ (m ∷ [])) r ])
    go none e later = here e
    go (some m) e later = extend name names found r m _ e (later m)

built_middlewares :
    {W : Type 0} (names : List String) (r : Registry W) (c : Chain W)
    → Collected r names [] (built c)
    → map (λ name. get name r) names ≡ map some c.middlewares
built_middlewares names r c (ms, same, all) = cc (same, all)

-- `BuildChain` returns a chain only if every name is registered: the chain of their middlewares,
-- in the order of the names. An error means that a name is not registered, and it is the first
-- such name. A name that is registered again stands for its last middleware.
pub build_chain_lem :
    {W : Type 0} (names : List String) (r : Registry W) (name asked : String) (m : Middleware W)
    → ((c : Chain W)
        → build_chain names r ≡ built c
        → map (λ name. get name r) names ≡ map some c.middlewares)
      × ((missing : String)
          → build_chain names r ≡ not_found missing
          → IsFirstMissing r missing names)
      × (get asked (register name m r) ≡ (if name == asked then some m else get asked r))
unfolding build_chain get register
build_chain_lem names r name asked m = (
  λ c e. built_middlewares names r c (subst (Collected r names []) e (collect_lem names [] r)),
  λ missing e. subst (Collected r names []) e (collect_lem names [] r),
  lookup-insert name asked m r,
)
