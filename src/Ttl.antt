-- ===== src/Ttl.antt =====
-- A map with expiring entries, as internal/ratelimit/memory.go, internal/auth/policy.go and
-- internal/auth/revocation.go each build one. `now` is the reading of `time.Now()` inside the lock.
pub mod Laws
use api_gateway_go.Base.{
  ℕ, ◌+◌, Bool, true, false, Option, none, some, Dict, Eq, lookup, insert, delete_if, ltb,
  if◌then◌else◌,
}

-- A stored value and the time after which it counts as absent.
pub record Entry (V : Type 0) : Type 0 where
  pub value : V
  pub expiry : ℕ

abbrev pub Store : Type 0 → Type 0 → Type 0
Store K V = Dict K (Entry V)

module _ {V : Type 0} where
  -- `now.After(entry.expiry)`
  abbrev pub is_expired : ℕ → Entry V → Bool
  is_expired now entry = ltb entry.expiry now

  abbrev live_value : ℕ → Option (Entry V) → Option V
  live_value now none = none
  live_value now (some entry) = if is_expired now entry then none else some entry.value

module _ {K V : Type 0} ⦃e : Eq K⦄ where
  unfoldable pub get : ℕ → K → Store K V → Option V
  get now key store = live_value now (lookup key store)

  unfoldable pub set : ℕ → K → V → ℕ → Store K V → Store K V
  set now key value ttl store = insert key (record { value = value; expiry = now + ttl }) store

  unfoldable pub cleanup : ℕ → Store K V → Store K V
  cleanup now store = delete_if (λ key entry. is_expired now entry) store
