-- ===== src/Router/Sort.antt =====
-- `sortRoutesByPriority` of internal/router/router.go sorts, stably, and keeps every route.
use mathlib.Core.List.{Perm}
use mathlib.Core.List.Perm
use api_gateway_go.Base.{
  ℕ, zero, suc, ◌-◌, ◌≤◌, ◌≡◌, refl, List, [], ◌∷◌, arith, All, length, ℤ, ltℤ, ◌≤ℤ◌, if◌then◌else◌,
  Bool-cases, inl, inr, ◌&&◌, not, ◌∙◌, ◌↔◌,
}
use api_gateway_go.Router.{Route, bubble, bubble_rounds, sort_routes_by_priority}

-- Every priority is at least `z`.
abbrev AtLeast : ℤ → List Route → Type 0
AtLeast z = All (λ r. z ≤ℤ r.priority)

-- The routes stand in the order of their priorities.
abbrev pub IsSorted : List Route → Type 0
IsSorted [] = Unit
IsSorted (r ∷ rs) = AtLeast r.priority rs × IsSorted rs

abbrev drop : ℕ → List Route → List Route
drop zero rs = rs
drop (suc k) [] = []
drop (suc k) (r ∷ rs) = drop k rs

-- From place `k` on the list is sorted, and nothing there is less than what stands before.
abbrev IsSortedFrom : ℕ → List Route → Type 0
IsSortedFrom zero rs = IsSorted rs
IsSortedFrom (suc k) [] = Unit
IsSortedFrom (suc k) (r ∷ rs) = AtLeast r.priority (drop k rs) × IsSortedFrom k rs

AtLeast-le : (a b : ℤ) (rs : List Route) → a ≤ℤ b → AtLeast b rs → AtLeast a rs
AtLeast-le a b [] h k = tt
AtLeast-le a b (r ∷ rs) h (p, k) = (omega arith, AtLeast-le a b rs h k)

AtLeast-drop_nil : (k : ℕ) (z : ℤ) → AtLeast z (drop k [])
AtLeast-drop_nil zero z = tt
AtLeast-drop_nil (suc k) z = tt

IsSortedFrom-nil : (k : ℕ) → IsSortedFrom k []
IsSortedFrom-nil zero = tt
IsSortedFrom-nil (suc k) = tt

-- Behind place `k` of a pass stand the largest route seen and what the pass did not touch.
bubble-AtLeast :
    (k : ℕ) (z : ℤ) (r : Route) (rs : List Route)
    → z ≤ℤ r.priority
    → AtLeast z (drop k rs)
    → AtLeast z (drop k (bubble k (r ∷ rs)))
unfolding bubble
bubble-AtLeast zero z r rs h k = (h, k)
bubble-AtLeast (suc n) z r [] h k = AtLeast-drop_nil n z
bubble-AtLeast (suc n) z r (s ∷ rs) h k =
    ground (arith, bubble-AtLeast n z r rs, bubble-AtLeast n z s rs)

bubble-IsSortedFrom :
    (k : ℕ) (rs : List Route) → IsSortedFrom (suc k) rs → IsSortedFrom k (bubble k rs)
unfolding bubble
bubble-IsSortedFrom zero [] h = tt
bubble-IsSortedFrom zero (r ∷ rs) h = h
bubble-IsSortedFrom (suc k) [] h = tt
bubble-IsSortedFrom (suc k) (r ∷ []) h = (AtLeast-drop_nil k r.priority, IsSortedFrom-nil k)
bubble-IsSortedFrom (suc k) (r ∷ s ∷ rs) (a, (b, c)) =
    elim (Bool-cases (ltℤ s.priority r.priority)) [
      | inl swap ↦
          rw swap (
            bubble-AtLeast k s.priority r rs (ground arith) b,
            bubble-IsSortedFrom k (r ∷ rs) (a, c),
          )
      | inr keep ↦
          rw keep (
            bubble-AtLeast k r.priority s rs (ground arith) a,
            bubble-IsSortedFrom k (s ∷ rs) (b, c),
          )
    ]

IsSortedFrom-long : (k : ℕ) (rs : List Route) → length rs ≤ k → IsSortedFrom k rs
IsSortedFrom-long zero [] h = tt
IsSortedFrom-long zero (r ∷ rs) h = absurd (omega arith)
IsSortedFrom-long (suc k) [] h = tt
IsSortedFrom-long (suc k) (r ∷ rs) h =
    (drop-AtLeast k rs (omega arith), IsSortedFrom-long k rs (omega arith))
  where
    drop-AtLeast : (j : ℕ) (ss : List Route) → length ss ≤ j → AtLeast r.priority (drop j ss)
    drop-AtLeast zero [] g = tt
    drop-AtLeast zero (s ∷ ss) g = absurd (omega arith)
    drop-AtLeast (suc j) [] g = tt
    drop-AtLeast (suc j) (s ∷ ss) g = drop-AtLeast j ss (omega arith)

bubble_rounds-IsSorted :
    (k : ℕ) (rs : List Route) → IsSortedFrom (suc k) rs → IsSorted (bubble_rounds k rs)
unfolding bubble_rounds
bubble_rounds-IsSorted zero [] h = tt
bubble_rounds-IsSorted zero (r ∷ rs) h = h
bubble_rounds-IsSorted (suc k) rs h =
    bubble_rounds-IsSorted k (bubble (suc k) rs) (bubble-IsSortedFrom (suc k) rs h)

pub sort-IsSorted : (rs : List Route) → IsSorted (sort_routes_by_priority rs)
unfolding sort_routes_by_priority
sort-IsSorted rs =
    bubble_rounds-IsSorted (length rs - 1) rs
      (IsSortedFrom-long (suc (length rs - 1)) rs (omega arith))

bubble-perm : (k : ℕ) (rs : List Route) → Perm (bubble k rs) rs
unfolding bubble
bubble-perm zero rs = Perm.refl rs
bubble-perm (suc k) [] = Perm.refl []
bubble-perm (suc k) (r ∷ []) = Perm.refl _
bubble-perm (suc k) (r ∷ s ∷ rs) = elim (Bool-cases (ltℤ s.priority r.priority)) [
  | inl swap ↦ rw swap (Perm.trans (Perm.cons s (bubble-perm k (r ∷ rs))) (Perm.swap r s rs))
  | inr keep ↦ rw keep (Perm.cons r (bubble-perm k (s ∷ rs)))
]

bubble_rounds-perm : (k : ℕ) (rs : List Route) → Perm (bubble_rounds k rs) rs
unfolding bubble_rounds
bubble_rounds-perm zero rs = Perm.refl rs
bubble_rounds-perm (suc k) rs =
    Perm.trans (bubble_rounds-perm k (bubble (suc k) rs)) (bubble-perm (suc k) rs)

pub sort-perm : (rs : List Route) → Perm (sort_routes_by_priority rs) rs
unfolding sort_routes_by_priority
sort-perm rs = bubble_rounds-perm (length rs - 1) rs

module _ (P : Route → Type 0) where
  bubble-All : (k : ℕ) (rs : List Route) → All P (bubble k rs) ↔ All P rs
  unfolding bubble
  bubble-All zero rs = ((λ h. h), λ h. h)
  bubble-All (suc k) [] = ((λ h. h), λ h. h)
  bubble-All (suc k) (r ∷ []) = ((λ h. h), λ h. h)
  bubble-All (suc k) (r ∷ s ∷ rs) =
      let moved = bubble-All k (r ∷ rs) in
      let stayed = bubble-All k (s ∷ rs) in
      elim (Bool-cases (ltℤ s.priority r.priority)) [
        | inl swap ↦
            rw swap
              ((λ h. let (p, q) = moved.0 h.1 in (p, (h.0, q))), λ h. (h.1.0, moved.1 (h.0, h.1.1)))
        | inr keep ↦ rw keep ((λ h. (h.0, stayed.0 h.1)), λ h. (h.0, stayed.1 h.1))
      ]

  bubble_rounds-All : (k : ℕ) (rs : List Route) → All P (bubble_rounds k rs) ↔ All P rs
  unfolding bubble_rounds
  bubble_rounds-All zero rs = ((λ h. h), λ h. h)
  bubble_rounds-All (suc k) rs =
      let later = bubble_rounds-All k (bubble (suc k) rs) in
      let once = bubble-All (suc k) rs in ((λ h. once.0 (later.0 h)), λ h. later.1 (once.1 h))

  pub sort-All : (rs : List Route) → All P (sort_routes_by_priority rs) ↔ All P rs
  unfolding sort_routes_by_priority
  sort-All rs = bubble_rounds-All (length rs - 1) rs

-- The routes of one priority, in their order.
abbrev pub with_priority : ℤ → List Route → List Route
with_priority z [] = []
with_priority z (r ∷ rs) =
    let rest = with_priority z rs in
    if not (ltℤ z r.priority) && not (ltℤ r.priority z) then r ∷ rest else rest

bubble-stable :
    (z : ℤ) (k : ℕ) (rs : List Route) → with_priority z (bubble k rs) ≡ with_priority z rs
unfolding bubble
bubble-stable z zero rs = refl
bubble-stable z (suc k) [] = refl
bubble-stable z (suc k) (r ∷ []) = refl
bubble-stable z (suc k) (r ∷ s ∷ rs) =
    ground (arith, bubble-stable z k (r ∷ rs), bubble-stable z k (s ∷ rs))

bubble_rounds-stable :
    (z : ℤ) (k : ℕ) (rs : List Route) → with_priority z (bubble_rounds k rs) ≡ with_priority z rs
unfolding bubble_rounds
bubble_rounds-stable z zero rs = refl
bubble_rounds-stable z (suc k) rs =
    bubble_rounds-stable z k (bubble (suc k) rs) ∙ bubble-stable z (suc k) rs

-- The bubble sort puts the routes in the order of their priorities, loses and repeats none, and
-- keeps the order of the configuration among routes of one priority.
pub sort_routes_by_priority_lem :
    (rs : List Route)
    → IsSorted (sort_routes_by_priority rs)
      × Perm (sort_routes_by_priority rs) rs
      × ((z : ℤ) → with_priority z (sort_routes_by_priority rs) ≡ with_priority z rs)
sort_routes_by_priority_lem rs = (
  sort-IsSorted rs,
  sort-perm rs,
  (λ z. unfold sort_routes_by_priority in bubble_rounds-stable z (length rs - 1) rs),
)
