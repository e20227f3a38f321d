-- ===== src/Auth/Context/Laws.antt =====
-- The membership tests of internal/auth/context.go decide membership.
use api_gateway_go.Base.{
  ◌≡◌, ◌↔◌, true, String, List, [], ◌∷◌, string_eq, arith, eq_iff, All, Any, Elem,
}
use api_gateway_go.Auth.Context.{
  UserContext, contains, contains_any, contains_all, has_any_role, has_all_roles,
  has_any_permission, has_all_permissions,
}

contains_iff : (held : List String) (w : String) → (contains held w ≡ true) ↔ Elem w held
unfolding contains
contains_iff [] w = ground arith
contains_iff (x ∷ xs) w = ground (arith, eq_iff x w, contains_iff xs w)

contains_any_iff :
    (held ws : List String) → (contains_any held ws ≡ true) ↔ Any (λ w. Elem w held) ws
unfolding contains_any
contains_any_iff held [] = ground arith
contains_any_iff held (w ∷ ws) = ground (arith, contains_iff held w, contains_any_iff held ws)

contains_all_iff :
    (held ws : List String) → (contains_all held ws ≡ true) ↔ All (λ w. Elem w held) ws
unfolding contains_all
contains_all_iff held [] = ground arith
contains_all_iff held (w ∷ ws) = ground (arith, contains_iff held w, contains_all_iff held ws)

module _ (uc : UserContext) (wanted : List String) where
  pub has_any_role_iff : (has_any_role uc wanted ≡ true) ↔ Any (λ r. Elem r uc.roles) wanted
  unfolding has_any_role
  has_any_role_iff = contains_any_iff uc.roles wanted

  pub has_all_roles_iff : (has_all_roles uc wanted ≡ true) ↔ All (λ r. Elem r uc.roles) wanted
  unfolding has_all_roles
  has_all_roles_iff = contains_all_iff uc.roles wanted

  pub has_any_permission_iff :
      (has_any_permission uc wanted ≡ true) ↔ Any (λ p. Elem p uc.permissions) wanted
  unfolding has_any_permission
  has_any_permission_iff = contains_any_iff uc.permissions wanted

  pub has_all_permissions_iff :
      (has_all_permissions uc wanted ≡ true) ↔ All (λ p. Elem p uc.permissions) wanted
  unfolding has_all_permissions
  has_all_permissions_iff = contains_all_iff uc.permissions wanted
