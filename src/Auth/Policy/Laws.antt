-- ===== src/Auth/Policy/Laws.antt =====
-- What a policy of internal/auth/policy.go grants, as a relation, and that `evaluatePolicy` decides it.
use api_gateway_go.Base.{
  ◌≡◌, ◌≢◌, ◌↔◌, ◌⊎◌, inl, inr, true, Option, none, some, String, List, [], ◌∷◌, ◌==◌, string_eq,
  arith, eq_iff, All, Any, Elem, Bool-cases,
}
use api_gateway_go.Auth.Context.{UserContext}
use api_gateway_go.Auth.Context.Laws.{
  has_any_role_iff, has_all_roles_iff, has_any_permission_iff, has_all_permissions_iff,
}
use api_gateway_go.Auth.Policy.{
  Policy, policy_public, policy_authenticated, policy_role_based, policy_permission_based,
  evaluate_policy, logic_of, is_empty, evaluate_role_based_policy, evaluate_permission_based_policy,
}

-- A nonempty list of requirements, met by one of those held, or by all of them under "AND".
abbrev pub Meets : List String → String → List String → Type 0
Meets required logic held =
    (required ≢ [])
    × (((logic ≡ "AND") × All (λ r. Elem r held) required)
        ⊎ ((logic ≢ "AND") × Any (λ r. Elem r held) required))

abbrev pub Grants : Policy → Option UserContext → Type 0
Grants policy none = policy.type ≡ policy_public
Grants policy (some user) =
    (policy.type ≡ policy_public)
    ⊎ (policy.type ≡ policy_authenticated)
    ⊎ ((policy.type ≡ policy_role_based) × Meets policy.roles policy.logic user.roles)
    ⊎ ((policy.type ≡ policy_permission_based)
        × Meets policy.permissions policy.logic user.permissions)

or_ne_and : ◌≢◌ {A = String} "OR" "AND"
or_ne_and = ground (arith, eq_iff "OR" "AND")

empty_ne_and : ◌≢◌ {A = String} "" "AND"
empty_ne_and = ground (arith, eq_iff "" "AND")

logic_of-and : (policy : Policy) → ((logic_of policy == "AND") ≡ true) ↔ (policy.logic ≡ "AND")
logic_of-and policy = elim (Bool-cases (policy.logic == "")) [
  | inl blank ↦
      let empty : policy.logic ≡ "" = (eq_iff policy.logic "").0 blank in
      rw empty ((λ h. absurd (or_ne_and ((eq_iff "OR" "AND").0 h))), (λ h. absurd (empty_ne_and h)))
  | inr given ↦ rw given (eq_iff policy.logic "AND")
]

-- The four names differ.
pub types_differ :
    (policy_public ≢ policy_authenticated)
    × (policy_public ≢ policy_role_based)
    × (policy_public ≢ policy_permission_based)
    × (policy_authenticated ≢ policy_role_based)
    × (policy_authenticated ≢ policy_permission_based)
    × (policy_role_based ≢ policy_permission_based)
types_differ = (
  ground (arith, eq_iff policy_public policy_authenticated),
  ground (arith, eq_iff policy_public policy_role_based),
  ground (arith, eq_iff policy_public policy_permission_based),
  ground (arith, eq_iff policy_authenticated policy_role_based),
  ground (arith, eq_iff policy_authenticated policy_permission_based),
  ground (arith, eq_iff policy_role_based policy_permission_based),
)

is_empty_iff : (xs : List String) → (is_empty xs ≡ true) ↔ (xs ≡ [])
is_empty_iff [] = ground arith
is_empty_iff (x ∷ xs) = ground arith

role_based_iff :
    (policy : Policy) (user : UserContext)
    → ((evaluate_role_based_policy policy user).allowed ≡ true)
      ↔ Meets policy.roles policy.logic user.roles
unfolding evaluate_role_based_policy
role_based_iff policy user = ground (
  arith,
  logic_of-and policy,
  is_empty_iff policy.roles,
  has_any_role_iff user policy.roles,
  has_all_roles_iff user policy.roles,
)

permission_based_iff :
    (policy : Policy) (user : UserContext)
    → ((evaluate_permission_based_policy policy user).allowed ≡ true)
      ↔ Meets policy.permissions policy.logic user.permissions
unfolding evaluate_permission_based_policy
permission_based_iff policy user = ground (
  arith,
  logic_of-and policy,
  is_empty_iff policy.permissions,
  has_any_permission_iff user policy.permissions,
  has_all_permissions_iff user policy.permissions,
)

-- The evaluation allows a request exactly when the policy grants it: a public route always; an
-- authenticated one to every user; a role-based or permission-based one to a user who holds one of
-- the requirements, or all of them if the logic is "AND", where there is at least one requirement.
-- Everything else is denied: a missing user, an unknown policy type, an empty list of requirements.
pub evaluate_policy_iff :
    (policy : Policy) (user : Option UserContext)
    → ((evaluate_policy policy user).allowed ≡ true) ↔ Grants policy user
unfolding evaluate_policy
evaluate_policy_iff policy none = ground (arith, eq_iff policy.type policy_public)
evaluate_policy_iff policy (some user) = ground (
  arith,
  types_differ,
  eq_iff policy.type policy_public,
  eq_iff policy.type policy_authenticated,
  eq_iff policy.type policy_role_based,
  eq_iff policy.type policy_permission_based,
  role_based_iff policy user,
  permission_based_iff policy user,
)
