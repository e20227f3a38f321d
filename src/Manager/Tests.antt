-- ===== src/Manager/Tests.antt =====
-- The theorems on the manager of circuit breakers at a concrete one.
use api_gateway_go.Base.{◌≡◌, ◌≢◌, refl, none, some, String, [], ◌∷◌, lookup, string_eq}
use api_gateway_go.Breaker.{new, on_failure}
use api_gateway_go.Manager.{Manager, new_manager, get, get_all_stats, update}
use api_gateway_go.Manager.Laws.{get-get}

abbrev two_backends : Manager
two_backends = record {
  breakers = ("users", new "users" none 1) ∷ ("orders", new "orders" none 2) ∷ [];
}

abbrev orders : String
orders = "orders"

orders_not_users : orders ≢ "users"
orders_not_users e = cc e

new_manager_empty : get_all_stats new_manager ≡ []
unfolding new_manager get_all_stats
new_manager_empty = refl

get-get_example :
    let (cb, m') = get "users" none 5 two_backends in
    (lookup "users" m'.breakers ≡ some cb)
    × (lookup orders m'.breakers ≡ lookup orders two_backends.breakers)
    × ((get "users" none 9 (update "users" (on_failure 7) m')).0 ≡ on_failure 7 cb)
get-get_example = get-get "users" orders none none 5 9 (on_failure 7) two_backends orders_not_users
