-- ===== src/Authorization/Policy.antt =====
-- `AuthorizationService` of app/authorization/policy.py.
use prime_pizza_backend.Base.{
  Bool, true, false, ◌||◌, ◌&&◌, not, List, [], ◌∷◌, any, keep, if◌then◌else◌,
}
use prime_pizza_backend.Base.Exec.{Result, ok, err}
use prime_pizza_backend.Text.{Text, codes, text_eq}
use prime_pizza_backend.Errors.{AppException, forbidden_exception, text}
use prime_pizza_backend.Models.{User}
use prime_pizza_backend.Authorization.Roles.{role_value, is_chef, is_customer}
use prime_pizza_backend.Authorization.Permissions.{Permission, has_permission}

abbrev pub contains : List Text → Text → Bool
contains roles role = any (text_eq role) roles

-- The set `allowed` of `require_role`, after the legacy "owner" has been taken in.
unfoldable pub allowed_roles : Text → List Text → List Text
unfolding text_eq
allowed_roles current roles =
    let first =
      if text_eq current (codes "chef")
        && (contains roles (codes "owner") || contains roles (codes "chef"))
      then codes "chef" ∷ roles
      else roles in
    if contains first (codes "owner") then codes "chef" ∷ first else first

-- The negation of the test under which `require_role` raises.
unfoldable pub may_enter : Text → List Text → Bool
unfolding allowed_roles text_eq
may_enter current roles =
    let allowed = allowed_roles current roles in
    contains allowed current || (text_eq current (codes "chef") && contains allowed (codes "owner"))

unfoldable pub require_role : User → List Text → Result AppException User
require_role user roles =
    if not (may_enter (role_value user.role) roles)
    then err (forbidden_exception (text "Insufficient role privileges"))
    else ok user

unfoldable pub require_chef : User → Result AppException User
unfolding is_chef
require_chef user =
    if not (is_chef user.role)
    then err (forbidden_exception (text "Chef access required"))
    else ok user

unfoldable pub require_customer : User → Result AppException User
unfolding is_customer
require_customer user =
    if not (is_customer user.role)
    then err (forbidden_exception (text "Customer access required"))
    else ok user

-- The list `missing`.
unfoldable pub missing_permissions : User → List Permission → List Permission
missing_permissions user permissions = keep (λ p. not (has_permission user.role p)) permissions

abbrev pub is_empty : List Permission → Bool
is_empty [] = true
is_empty (_ ∷ _) = false

unfoldable pub require_permission : User → List Permission → Result AppException User
unfolding missing_permissions
require_permission user permissions =
    if not (is_empty (missing_permissions user permissions))
    then err (forbidden_exception (text "Insufficient permissions"))
    else ok user

unfoldable pub require_any_permission : User → List Permission → Result AppException User
require_any_permission user permissions =
    if any (has_permission user.role) permissions
    then ok user
    else err (forbidden_exception (text "Insufficient permissions"))
