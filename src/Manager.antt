-- ===== src/Manager.antt =====
-- The `Manager` of internal/circuitbreaker/circuitbreaker.go: one breaker for each backend.
-- The map holds pointers and `Get` hands one out; a caller's work on it is the `update` of the
-- entry of that name. Both lookups of `Get` happen under the mutex of the model, as one step.
pub mod Laws
mod Tests
use api_gateway_go.Base.{
  ℕ, Bool, Option, none, some, String, List, [], ◌∷◌, Dict, string_eq, lookup, insert, map,
}
use api_gateway_go.Breaker.{Breaker, Config, Stats, new, reset, get_stats}

pub record Manager : Type 0 where
  pub breakers : Dict String Breaker

pub new_manager : Manager
new_manager = record { breakers = [] }

-- `Get`: the breaker of the name, created with the configuration if there is none.
unfoldable pub get : String → Option Config → ℕ → Manager → Breaker × Manager
get name config now m = elim (lookup name m.breakers) [
  | some cb ↦ (cb, m)
  | none ↦ (new name config now, record { breakers = insert name (new name config now) m.breakers })
]

-- `GetStats` of the manager; the order of a Go map's range is not fixed.
pub get_all_stats : Manager → List Stats
unfolding get_stats
get_all_stats m = map (λ entry. get_stats entry.1) m.breakers

-- `Reset`; `none` is the error "circuit breaker not found".
pub reset_one : String → ℕ → Manager → Option Manager
unfolding reset
reset_one name now m = elim (lookup name m.breakers) [
  | some cb ↦ some (record { breakers = insert name (reset now cb) m.breakers })
  | none ↦ none
]

reset_entries : ℕ → Dict String Breaker → Dict String Breaker
reset_entries now [] = []
reset_entries now ((name, cb) ∷ m) = (name, reset now cb) ∷ reset_entries now m

-- `ResetAll`
pub reset_all : ℕ → Manager → Manager
unfolding reset_entries
reset_all now m = record { breakers = reset_entries now m.breakers }

-- What a caller does to the breaker it got.
unfoldable pub update : String → (Breaker → Breaker) → Manager → Manager
update name act m = elim (lookup name m.breakers) [
  | some cb ↦ record { breakers = insert name (act cb) m.breakers }
  | none ↦ m
]
