-- ===== src/Base/Maps.antt =====
-- A Go map as an association list: the first entry of a key is the entry.
use mathlib.Core.Path.{◌≡◌, refl}
use mathlib.Core.Logic.{◌≢◌}
use mathlib.Core.Bool.{Bool}
use mathlib.Core.Option.{Option, none, some}
use mathlib.Core.List.{List, [], ◌∷◌}
use native.Mathlib.Omega.{arith}
use api_gateway_go.Base.Tests.{Eq, ◌==◌, ==_refl, if◌then◌else◌}

abbrev pub Dict {ℓ κ} : Type ℓ → Type κ → Type (ℓ ⊔ κ)
Dict K V = List (K × V)

abbrev pub drop_if {ℓ} : {V : Type ℓ} → (V → Bool) → Option V → Option V
drop_if test none = none
drop_if test (some v) = if test v then none else some v

abbrev Absent {ℓ} : {V : Type ℓ} → Option V → Type 0
Absent none = Unit
Absent (some v) = ⊥

Absent-none {ℓ} : {V : Type ℓ} (o : Option V) → Absent o → o ≡ none
Absent-none none h = refl
Absent-none (some v) h = elim h [ ]

module _ {ℓ κ} {K : Type ℓ} {V : Type κ} ⦃e : Eq K⦄ where
  unfoldable pub lookup : K → Dict K V → Option V
  lookup key [] = none
  lookup key ((name, value) ∷ rest) = if name == key then some value else lookup key rest

  unfoldable pub insert : K → V → Dict K V → Dict K V
  insert key value [] = (key, value) ∷ []
  insert key value ((name, old) ∷ rest) =
      if name == key then (key, value) ∷ rest else (name, old) ∷ insert key value rest

  -- Removes each entry that the test picks, as a loop of `delete` does.
  unfoldable pub delete_if : (K → V → Bool) → Dict K V → Dict K V
  delete_if test [] = []
  delete_if test ((j, v) ∷ m) =
      let rest = delete_if test m in if test j v then rest else (j, v) ∷ rest

  pub lookup-insert :
      (key asked : K) (value : V) (rest : Dict K V)
      → lookup asked (insert key value rest)
        ≡ (if key == asked then some value else lookup asked rest)
  unfolding lookup insert
  lookup-insert key asked value [] = refl
  lookup-insert key asked value ((name, old) ∷ rest) = ground (
    arith,
    lookup-insert key asked value rest,
    e.agrees name asked,
    e.agrees name key,
    e.agrees key asked,
  )

  pub lookup-insert_self : (k : K) (v : V) (m : Dict K V) → lookup k (insert k v m) ≡ some v
  lookup-insert_self k v m = rw (lookup-insert k k v m, ==_refl k)

  pub lookup-insert_ne :
      (k j : K) (v : V) (m : Dict K V) → k ≢ j → lookup j (insert k v m) ≡ lookup j m
  lookup-insert_ne k j v m h = ground (arith, lookup-insert k j v m, e.agrees k j)

  -- No key stands twice, as in every Go map.
  abbrev pub Unique : Dict K V → Type 0
  unfolding lookup
  Unique [] = Unit
  Unique ((k, v) ∷ m) = Absent (lookup k m) × Unique m

  pub Unique-nil : (m : Dict K V) → m ≡ [] → Unique m
  unfolding Unique
  Unique-nil m e = rw e tt

  pub Unique-cons :
      (k : K) (v : V) (m : Dict K V) → Unique ((k, v) ∷ m) → (lookup k m ≡ none) × Unique m
  unfolding Unique
  Unique-cons k v m (absent, unique) = (Absent-none (lookup k m) absent, unique)

  pub insert-Unique : (k : K) (v : V) (m : Dict K V) → Unique m → Unique (insert k v m)
  unfolding insert lookup
  insert-Unique k v [] u = ground arith
  insert-Unique k v ((j, w) ∷ m) (a, u) =
      ground (arith, insert-Unique k v m u, lookup-insert k j v m, e.agrees j k, e.agrees k j)

  pub lookup-delete_if :
      (test : K → V → Bool) (k : K) (m : Dict K V)
      → Unique m
      → lookup k (delete_if test m) ≡ drop_if (test k) (lookup k m)
  unfolding lookup delete_if
  lookup-delete_if test k [] u = refl
  lookup-delete_if test k ((j, w) ∷ m) (a, u) =
      ground (arith, lookup-delete_if test k m u, e.agrees j k)
