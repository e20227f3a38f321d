-- ===== src/Ttl/Laws.antt =====
-- What a reader of an expiring map observes.
use api_gateway_go.Base.{
  ℕ, ◌+◌, ◌≤◌, ◌≡◌, inl, inr, none, some, [], ◌∷◌, Eq, lookup, delete_if, ltb, if◌then◌else◌, arith,
  Unique, insert-Unique, lookup-insert, lookup-delete_if, Option-cases, ◌==◌, All,
}
use api_gateway_go.Ttl.{Store, get, set, cleanup, is_expired}

-- A value is readable up to and including the time `now + ttl`; other keys are not affected.
pub get-set :
    {K V : Type 0} ⦃e : Eq K⦄ (key other : K) (value : V) (now ttl later : ℕ) (store : Store K V)
    → get later other (set now key value ttl store) ≡ (
        if key == other
        then (if ltb (now + ttl) later then none else some value)
        else get later other store)
unfolding get set
get-set key other value now ttl later store =
    ground (arith, lookup-insert key other (record { value = value; expiry = now + ttl }) store)

-- Removing what has expired cannot be observed by any later read.
pub get-cleanup :
    {K V : Type 0} ⦃e : Eq K⦄ (now later : ℕ) (key : K) (store : Store K V)
    → Unique store
    → now ≤ later
    → get later key (cleanup now store) ≡ get later key store
unfolding get cleanup
get-cleanup now later key store u le = elim (Option-cases (lookup key store)) [
  | inl missing ↦ ground (arith, lookup-delete_if (λ k entry. is_expired now entry) key store u)
  | inr (entry, found) ↦
      ground (arith, lookup-delete_if (λ k entry. is_expired now entry) key store u)
]

-- Nothing that has expired is left behind.
pub cleanup-fresh :
    {K V : Type 0} ⦃e : Eq K⦄ (now : ℕ) (store : Store K V)
    → All (λ kv. now ≤ kv.1.expiry) (cleanup now store)
unfolding cleanup delete_if
cleanup-fresh now [] = tt
cleanup-fresh now ((k, entry) ∷ store) = ground (arith, cleanup-fresh now store)

pub set-Unique :
    {K V : Type 0} ⦃e : Eq K⦄ (now : ℕ) (key : K) (value : V) (ttl : ℕ) (store : Store K V)
    → Unique store
    → Unique (set now key value ttl store)
unfolding set
set-Unique now key value ttl store u = insert-Unique key _ store u
