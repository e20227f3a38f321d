-- ===== src/Auth/Context.antt =====
-- internal/auth/context.go, and the claims of internal/auth/jwt.go: the authenticated user.
-- Roles, permissions and identifiers are compared as whole texts. The times of the claims are
-- seconds or nanoseconds of any origin; an absent claim is `none`.
pub mod Laws
use api_gateway_go.Base.{
  ℕ, Bool, true, false, Option, String, List, [], ◌∷◌, ◌==◌, string_eq, if◌then◌else◌,
}

pub record Claims : Type 0 where
  pub expires_at : Option ℕ
  pub not_before : Option ℕ
  pub user_id : String
  pub session_id : String
  pub roles : List String
  pub permissions : List String

pub record UserContext : Type 0 where
  pub user_id : String
  pub session_id : String
  pub roles : List String
  pub permissions : List String
  pub claims : Claims

unfoldable pub new_user_context : Claims → UserContext
new_user_context claims = record {
  user_id = claims.user_id;
  session_id = claims.session_id;
  roles = claims.roles;
  permissions = claims.permissions;
  claims = claims;
}

-- The loop of `HasRole` and of `HasPermission`.
contains : List String → String → Bool
contains [] wanted = false
contains (x ∷ xs) wanted = if x == wanted then true else contains xs wanted

-- The loop of `HasAnyRole` and of `HasAnyPermission`.
contains_any : List String → List String → Bool
contains_any held [] = false
contains_any held (w ∷ ws) = if contains held w then true else contains_any held ws

-- The loop of `HasAllRoles` and of `HasAllPermissions`.
contains_all : List String → List String → Bool
contains_all held [] = true
contains_all held (w ∷ ws) = if contains held w then contains_all held ws else false

unfoldable pub has_role : UserContext → String → Bool
unfolding contains
has_role uc role = contains uc.roles role

unfoldable pub has_any_role : UserContext → List String → Bool
unfolding contains_any contains
has_any_role uc roles = contains_any uc.roles roles

unfoldable pub has_all_roles : UserContext → List String → Bool
unfolding contains_all contains
has_all_roles uc roles = contains_all uc.roles roles

unfoldable pub has_permission : UserContext → String → Bool
unfolding contains
has_permission uc permission = contains uc.permissions permission

unfoldable pub has_any_permission : UserContext → List String → Bool
unfolding contains_any contains
has_any_permission uc permissions = contains_any uc.permissions permissions

unfoldable pub has_all_permissions : UserContext → List String → Bool
unfolding contains_all contains
has_all_permissions uc permissions = contains_all uc.permissions permissions
