-- ===== src/Tests/Access.antt =====
-- Roles, permissions and ownership.
use prime_pizza_backend.Base.{◌≡◌, ◌⊎◌, ◌↔◌, true, false, some, [], ◌∷◌, All, ◌||◌}
use prime_pizza_backend.Base.Exec.{ok, err}
use prime_pizza_backend.Text.{codes}
use prime_pizza_backend.Errors.{AppException, status_code}
use prime_pizza_backend.Enums.{customer, chef}
use prime_pizza_backend.Authorization.Roles.{role_value}
use prime_pizza_backend.Authorization.Ownership.{ensure_owner_or_self, ensure_owner_or_self_iff}
use prime_pizza_backend.Authorization.Permissions.{product_read, product_create, has_permission}
use prime_pizza_backend.Authorization.Permissions.Matrix.{is_own, is_storefront, role_matrix}
use prime_pizza_backend.Authorization.Policy.{contains, require_role, require_permission}
use prime_pizza_backend.Authorization.Access.{require_permission_iff, require_role_iff}
use prime_pizza_backend.Tests.Fixtures.{ana, cook}

role_matrix_example :
    (has_permission chef product_read ≡ true)
    × (has_permission customer product_read ≡ (is_own product_read || is_storefront product_read))
role_matrix_example = role_matrix product_read

require_permission_iff_example :
    (require_permission cook (product_create ∷ []) ≡ ok cook)
    ↔ All (λ p. has_permission chef p ≡ true) (product_create ∷ [])
require_permission_iff_example = require_permission_iff cook (product_create ∷ [])

require_role_iff_example : (require_role cook (codes "owner" ∷ []) ≡ ok cook) ↔ (
    (contains (codes "owner" ∷ []) (role_value chef) ≡ true)
    ⊎ ((chef ≡ chef) × (contains (codes "owner" ∷ []) (codes "owner") ≡ true)))
require_role_iff_example = require_role_iff cook (codes "owner" ∷ [])

ensure_owner_or_self_iff_example :
    ((ensure_owner_or_self ana (some cook.id) (codes "order") false ≡ ok tt)
      ↔ ((customer ≡ chef) ⊎ (some cook.id ≡ some ana.id)))
    × ((e : AppException)
        → ensure_owner_or_self ana (some cook.id) (codes "order") false ≡ err e
        → status_code e ≡ 403)
ensure_owner_or_self_iff_example = ensure_owner_or_self_iff ana (some cook.id) (codes "order") false
