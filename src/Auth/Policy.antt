-- ===== src/Auth/Policy.antt =====
-- internal/auth/policy.go: authorization policies, their evaluation and the decision cache.
-- `PolicyType` is a text in the source, and stays one here: a route may carry any. A nil user is
-- `none`. Log lines are left out; the ticker that calls `cleanup` is the caller of `cache_cleanup`.
pub mod Laws
pub mod Cache
mod Tests
use api_gateway_go.Base.{
  ℕ, Bool, true, false, not, Option, none, some, String, List, [], ◌∷◌, ◌==◌, string_eq, concat,
  join, if◌then◌else◌,
}
use api_gateway_go.Ttl
use api_gateway_go.Ttl.{Store}
use api_gateway_go.Auth.Context.{
  UserContext, has_any_role, has_all_roles, has_any_permission, has_all_permissions,
}

abbrev pub policy_public : String
policy_public = "public"

abbrev pub policy_authenticated : String
policy_authenticated = "authenticated"

abbrev pub policy_role_based : String
policy_role_based = "role-based"

abbrev pub policy_permission_based : String
policy_permission_based = "permission-based"

pub record Policy : Type 0 where
  pub type : String
  pub roles : List String
  pub permissions : List String
  pub logic : String

-- A value of the `Details` map.
pub data Detail : Type 0 where
  text : String → Detail
  texts : List String → Detail

pub record Decision : Type 0 where
  pub allowed : Bool
  pub reason : String
  pub details : List (String × Detail)

allow : String → Decision
allow reason = record { allowed = true; reason = reason; details = [] }

deny : String → Decision
deny reason = record { allowed = false; reason = reason; details = [] }

-- A refusal with a `Details` map, whose entries are written in the order of the literal.
deny_with : String → List (String × Detail) → Decision
deny_with reason details = record { allowed = false; reason = reason; details = details }

abbrev is_empty : List String → Bool
is_empty [] = true
is_empty (x ∷ xs) = false

-- `logic := policy.Logic`, with "OR" for the empty text.
abbrev logic_of : Policy → String
logic_of policy = if policy.logic == "" then "OR" else policy.logic

insufficient_roles : Policy → UserContext → String → Decision
unfolding deny_with
insufficient_roles policy user logic = deny_with "insufficient roles" (
    ("required_roles", texts policy.roles)
    ∷ ("user_roles", texts user.roles)
    ∷ ("logic", text logic)
    ∷ [])

unfoldable pub evaluate_role_based_policy : Policy → UserContext → Decision
unfolding allow deny insufficient_roles
evaluate_role_based_policy policy user =
    if is_empty policy.roles
    then deny "no roles specified in policy"
    else if logic_of policy == "AND"
    then if has_all_roles user policy.roles
      then allow "user has all required roles"
      else insufficient_roles policy user "AND"
    else if has_any_role user policy.roles
    then allow "user has required role"
    else insufficient_roles policy user "OR"

insufficient_permissions : Policy → UserContext → String → Decision
unfolding deny_with
insufficient_permissions policy user logic = deny_with "insufficient permissions" (
    ("required_permissions", texts policy.permissions)
    ∷ ("user_permissions", texts user.permissions)
    ∷ ("logic", text logic)
    ∷ [])

unfoldable pub evaluate_permission_based_policy : Policy → UserContext → Decision
unfolding allow deny insufficient_permissions
evaluate_permission_based_policy policy user =
    if is_empty policy.permissions
    then deny "no permissions specified in policy"
    else if logic_of policy == "AND"
    then if has_all_permissions user policy.permissions
      then allow "user has all required permissions"
      else insufficient_permissions policy user "AND"
    else if has_any_permission user policy.permissions
    then allow "user has required permission"
    else insufficient_permissions policy user "OR"

unknown_type : String → Decision
unfolding deny
unknown_type type = deny (concat ("unknown policy type: " ∷ type ∷ []))

-- The cases of `evaluatePolicy` that need a user.
evaluate_authenticated : Option UserContext → Decision
unfolding allow deny_with
evaluate_authenticated none =
    deny_with "authentication required" (("required", text "valid session token") ∷ [])
evaluate_authenticated (some user) = allow "authenticated"

evaluate_role_based : Policy → Option UserContext → Decision
unfolding deny_with evaluate_role_based_policy
evaluate_role_based policy none =
    deny_with "authentication required for role-based access"
      (("required_roles", texts policy.roles) ∷ [])
evaluate_role_based policy (some user) = evaluate_role_based_policy policy user

evaluate_permission_based : Policy → Option UserContext → Decision
unfolding deny_with evaluate_permission_based_policy
evaluate_permission_based policy none =
    deny_with "authentication required for permission-based access"
      (("required_permissions", texts policy.permissions) ∷ [])
evaluate_permission_based policy (some user) = evaluate_permission_based_policy policy user

-- The `switch` on the type, as the tests it makes.
unfoldable pub evaluate_policy : Policy → Option UserContext → Decision
unfolding allow evaluate_authenticated evaluate_role_based evaluate_permission_based unknown_type
evaluate_policy policy user =
    if policy.type == policy_public
    then allow "public route"
    else if policy.type == policy_authenticated
    then evaluate_authenticated user
    else if policy.type == policy_role_based
    then evaluate_role_based policy user
    else if policy.type == policy_permission_based
    then evaluate_permission_based policy user
    else unknown_type policy.type

-- What `%v` prints of a `[]string` and of a `*Policy`.
show_strings : List String → String
show_strings ss = concat ("[" ∷ join " " ss ∷ "]" ∷ [])

show_policy : Policy → String
unfolding show_strings
show_policy policy = concat (
    "&{"
    ∷ join " " (
        policy.type
        ∷ show_strings policy.roles
        ∷ show_strings policy.permissions
        ∷ policy.logic
        ∷ [])
    ∷ "}"
    ∷ [])

unfoldable pub build_cache_key : Policy → UserContext → String
unfolding show_policy
build_cache_key policy user =
    concat (policy.type ∷ ":" ∷ user.user_id ∷ ":" ∷ show_policy policy ∷ [])

pub record PolicyCache : Type 0 where
  pub cache : Store String Decision
  pub ttl : ℕ

pub new_policy_cache : ℕ → PolicyCache
new_policy_cache ttl = record { cache = []; ttl = ttl }

unfoldable pub cache_get : ℕ → String → PolicyCache → Option Decision
cache_get now key pc = Ttl.get now key pc.cache

unfoldable pub cache_set : ℕ → String → Decision → PolicyCache → PolicyCache
cache_set now key decision pc = record pc { cache = Ttl.set now key decision pc.ttl pc.cache }

-- One tick of the loop of `cleanup`.
unfoldable pub cache_cleanup : ℕ → PolicyCache → PolicyCache
cache_cleanup now pc = record pc { cache = Ttl.cleanup now pc.cache }

pub record PolicyEvaluator : Type 0 where
  pub cache : Option PolicyCache

unfoldable pub new_policy_evaluator : Bool → ℕ → PolicyEvaluator
unfolding new_policy_cache
new_policy_evaluator enable_cache cache_ttl = record {
  cache = if enable_cache then some (new_policy_cache cache_ttl) else none;
}

-- `Evaluate` with a cache and a user; the cache is read at `now` and written at `later`.
unfoldable pub evaluate_cached : ℕ → ℕ → PolicyCache → Policy → UserContext → Decision × PolicyCache
evaluate_cached now later pc policy user = elim (cache_get now (build_cache_key policy user) pc) [
  | some decision ↦ (decision, pc)
  | none ↦ (
    evaluate_policy policy (some user),
    cache_set later (build_cache_key policy user) (evaluate_policy policy (some user)) pc,
  )
]

-- `Evaluate` for a user, with or without a cache.
unfoldable pub evaluate_user :
    ℕ → ℕ → Option PolicyCache → Policy → UserContext → Decision × PolicyEvaluator
evaluate_user now later none policy user =
    (evaluate_policy policy (some user), record { cache = none })
evaluate_user now later (some pc) policy user =
    let (decision, pc') = evaluate_cached now later pc policy user in
    (decision, record { cache = some pc' })

unfoldable pub evaluate :
    ℕ → ℕ → PolicyEvaluator → Policy → Option UserContext → Decision × PolicyEvaluator
unfolding evaluate_user
evaluate now later pe policy none = (evaluate_policy policy none, pe)
evaluate now later pe policy (some user) = evaluate_user now later pe.cache policy user
