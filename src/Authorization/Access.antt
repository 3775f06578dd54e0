-- ===== src/Authorization/Access.antt =====
-- Whom the policy lets in.
use prime_pizza_backend.Base.{
  ◌≡◌, ◌⊎◌, ◌↔◌, refl, true, List, [], ◌∷◌, arith, All, Bool-cases, inl, inr,
}
use prime_pizza_backend.Base.Exec.{ok}
use prime_pizza_backend.Text.{Text, codes}
use prime_pizza_backend.Enums.{UserRole, customer, chef}
use prime_pizza_backend.Models.{User}
use prime_pizza_backend.Authorization.Roles.{role_value}
use prime_pizza_backend.Authorization.Permissions.{Permission, has_permission}
use prime_pizza_backend.Authorization.Policy.{
  contains, is_empty, may_enter, require_role, missing_permissions, require_permission,
}

module _ (user : User) where
  none_missing :
      (ps : List Permission)
      → (is_empty (missing_permissions user ps) ≡ true)
        ↔ All (λ p. has_permission user.role p ≡ true) ps
  unfolding missing_permissions
  none_missing [] = (λ h. tt, λ h. refl)
  none_missing (p ∷ ps) =
      let rest = none_missing ps in
      elim (Bool-cases (has_permission user.role p)) [
        | inl e ↦ (λ h. (e, rest.0 (ground arith)), λ h. ground (arith, rest.1 h.1))
        | inr e ↦ (λ h. ground arith, λ h. ground arith)
      ]

-- A request passes a list of required permissions exactly when the user's role has every one.
pub require_permission_iff :
    (user : User) (ps : List Permission)
    → (require_permission user ps ≡ ok user) ↔ All (λ p. has_permission user.role p ≡ true) ps
unfolding require_permission
require_permission_iff user ps =
    (λ h. (none_missing user ps).0 (ground arith), λ h. ground (arith, (none_missing user ps).1 h))

may_enter_iff :
    (role : UserRole) (roles : List Text)
    → (may_enter (role_value role) roles ≡ true) ↔ (
        (contains roles (role_value role) ≡ true)
        ⊎ ((role ≡ chef) × (contains roles (codes "owner") ≡ true)))
unfolding may_enter
may_enter_iff customer roles = (λ h. ground arith, λ h. ground arith)
may_enter_iff chef roles = (λ h. ground arith, λ h. ground arith)

-- A list of required roles lets a user in exactly when it names the user's role, or names the old
-- "owner" and the user is a chef.
pub require_role_iff :
    (user : User) (roles : List Text)
    → (require_role user roles ≡ ok user) ↔ (
        (contains roles (role_value user.role) ≡ true)
        ⊎ ((user.role ≡ chef) × (contains roles (codes "owner") ≡ true)))
unfolding require_role
require_role_iff user roles =
    let known = may_enter_iff user.role roles in
    (λ h. known.0 (ground arith), λ h. ground (arith, known.1 h))
