-- ===== src/Manager/Laws.antt =====
-- The manager keeps one breaker for each name, and its operations touch no other entry.
use mathlib.Core.Option
use api_gateway_go.Base.{
  ℕ, ◌≡◌, ◌≢◌, ◌↔◌, refl, inl, inr, Option, none, some, String, [], ◌∷◌, Dict, string_eq, lookup,
  arith, eq_iff, lookup-insert, Option-cases,
}
use api_gateway_go.Breaker.{Breaker, Config, new, reset}
use api_gateway_go.Manager.{Manager, get, reset_one, reset_all, reset_entries, update}

-- After `Get name` the map holds the breaker that was handed out under that name, every other
-- entry is as before, and each later `Get name` hands out the map's breaker unchanged, whatever
-- configuration it is given: also after the caller has worked on it.
pub get-get :
    (name other : String) (config config' : Option Config) (now later : ℕ) (act : Breaker → Breaker)
    (m : Manager)
    → other ≢ name
    → let (cb, m') = get name config now m in
      (lookup name m'.breakers ≡ some cb)
      × (lookup other m'.breakers ≡ lookup other m.breakers)
      × ((get name config' later (update name act m')).0 ≡ act cb)
unfolding get update
get-get name other config config' now later act m ne = ground (
  arith,
  lookup-insert name name (new name config now) m.breakers,
  lookup-insert name other (new name config now) m.breakers,
  lookup-insert name name (act (get name config now m).0) (get name config now m).1.breakers,
  eq_iff name name,
  eq_iff name other,
)

-- What a caller makes of the breaker that `Get` handed out is the map's breaker of that name, and the
-- other entries are as they were.
pub get-update :
    (name other : String) (config : Option Config) (now : ℕ) (made : Breaker) (m : Manager)
    → other ≢ name
    → let m' = update name (λ old. made) (get name config now m).1 in
      (lookup name m'.breakers ≡ some made) × (lookup other m'.breakers ≡ lookup other m.breakers)
unfolding get update
get-update name other config now made m ne =
    let fresh = new name config now in
    let m' = (get name config now m).1 in
    ground (
      arith,
      lookup-insert name name fresh m.breakers,
      lookup-insert name other fresh m.breakers,
      lookup-insert name name made m'.breakers,
      lookup-insert name other made m'.breakers,
      eq_iff name name,
      eq_iff name other,
    )

lookup-reset_entries :
    (name : String) (now : ℕ) (m : Dict String Breaker)
    → lookup name (reset_entries now m) ≡ Option.map (reset now) (lookup name m)
unfolding lookup reset_entries
lookup-reset_entries name now [] = refl
lookup-reset_entries name now ((j, cb) ∷ m) = ground (arith, lookup-reset_entries name now m)

-- `Reset` of one name fails exactly when there is no such breaker; else it resets that one and
-- leaves the others as they were. `ResetAll` resets every breaker and adds or drops none.
pub reset_one-reset_all :
    (name other : String) (now : ℕ) (m : Manager)
    → other ≢ name
    → ((reset_one name now m ≡ none) ↔ (lookup name m.breakers ≡ none))
      × ((m' : Manager)
          → reset_one name now m ≡ some m'
          → (lookup name m'.breakers ≡ Option.map (reset now) (lookup name m.breakers))
            × (lookup other m'.breakers ≡ lookup other m.breakers))
      × (lookup name (reset_all now m).breakers ≡ Option.map (reset now) (lookup name m.breakers))
unfolding reset_one reset_all
reset_one-reset_all name other now m ne = (
  ground arith,
  (λ m' done. elim (Option-cases (lookup name m.breakers)) [
    | inl missing ↦ ground arith
    | inr (cb, found) ↦ ground (
      arith,
      lookup-insert name name (reset now cb) m.breakers,
      lookup-insert name other (reset now cb) m.breakers,
      eq_iff name name,
      eq_iff name other,
    )
  ]),
  lookup-reset_entries name now m.breakers,
)
