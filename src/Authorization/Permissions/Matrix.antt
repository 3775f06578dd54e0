-- ===== src/Authorization/Permissions/Matrix.antt =====
-- What the two roles may do.
use prime_pizza_backend.Base.{◌≡◌, refl, Bool, true, ◌||◌, [], ◌∷◌, any}
use prime_pizza_backend.Text.{Text, codes, text_eq}
use prime_pizza_backend.Enums.{customer, chef}
use prime_pizza_backend.Authorization.Permissions.{
  Permission, product_read, category_read, deal_read, coupon_read, order_create, value, same,
  has_permission,
}

-- `s.endswith(t)`
has_suffix : Text → Text → Bool
has_suffix [] t = text_eq [] t
has_suffix (c ∷ s) t = text_eq (c ∷ s) t || has_suffix s t

-- A permission over the caller's own data, by the naming convention of the catalog.
pub is_own : Permission → Bool
unfolding has_suffix text_eq value
is_own p = has_suffix (value p) (codes "_own")

abbrev pub is_storefront : Permission → Bool
is_storefront p =
    any (same p) (product_read ∷ category_read ∷ deal_read ∷ coupon_read ∷ order_create ∷ [])

-- A chef has every permission of the catalog, and a customer has exactly those whose name ends in
-- `_own`, the four that read the storefront, and that of creating an order.
pub role_matrix :
    (p : Permission)
    → (has_permission chef p ≡ true) × (has_permission customer p ≡ (is_own p || is_storefront p))
unfolding has_permission is_own
role_matrix product_read = (refl, refl)
role_matrix _ = (refl, refl)
