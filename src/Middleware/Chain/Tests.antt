-- ===== src/Middleware/Chain/Tests.antt =====
-- Chains of concrete middlewares.
use api_gateway_go.Base.{
  ℕ, ◌≡◌, refl, some, String, [], ◌∷◌, map, ◌==◌, string_eq, lookup, if◌then◌else◌,
}
use api_gateway_go.Http.{Middleware, set_header, before}
use api_gateway_go.Http.Samples.{get_admin, counting}
use api_gateway_go.Middleware.Chain.{
  Chain, Registry, built, not_found, new_chain, reverse_onto, apply_each, then_run, register, get,
  collect, build_chain,
}
use api_gateway_go.Middleware.Chain.Laws.{IsFirstMissing, build_chain_lem}

abbrev tagging : String → Middleware ℕ
tagging tag next r w = before (set_header tag "on" ∷ []) (next r w)

abbrev tags : Registry ℕ
tags = ("b", tagging "B") ∷ ("a", tagging "A") ∷ []

-- The first middleware sets its header first.
first_runs_first :
    (then_run (new_chain (tagging "A" ∷ tagging "B" ∷ [])) counting get_admin 0).actions
    ≡ set_header "A" "on" ∷ set_header "B" "on" ∷ (counting get_admin 0).actions
unfolding then_run new_chain apply_each reverse_onto
first_runs_first = refl

one_is_missing : build_chain ("a" ∷ "c" ∷ []) tags ≡ not_found "c"
unfolding build_chain collect get lookup
one_is_missing = refl

build_chain_lem_example :
    ((c : Chain ℕ)
      → build_chain ("a" ∷ "b" ∷ []) tags ≡ built c
      → map (λ name. get name tags) ("a" ∷ "b" ∷ []) ≡ map some c.middlewares)
    × ((missing : String)
        → build_chain ("a" ∷ "b" ∷ []) tags ≡ not_found missing
        → IsFirstMissing tags missing ("a" ∷ "b" ∷ []))
    × (get "a" (register "a" (tagging "C") tags)
        ≡ (if ◌==◌ {A = String} "a" "a" then some (tagging "C") else get "a" tags))
build_chain_lem_example = build_chain_lem ("a" ∷ "b" ∷ []) tags "a" "a" (tagging "C")
