-- ===== src/Authorization/Permissions.antt =====
-- The permission catalog and the role matrix of app/authorization/permissions.py.
pub mod Matrix
use prime_pizza_backend.Base.{
  ℕ, ◌+◌, ◌≡◌, Bool, true, false, ◌||◌, List, [], ◌∷◌, arith, ◌==◌, any, if◌then◌else◌,
}
use prime_pizza_backend.Text.{Text, codes}
use prime_pizza_backend.Enums.{UserRole, customer, chef}

pub data Permission : Type 0 where
  product_read product_create product_update product_delete category_read category_create
        category_update category_delete deal_read deal_create deal_update deal_delete coupon_read
        coupon_create coupon_update coupon_delete order_read_own order_read order_create
        order_update order_delete order_track_own customer_read customer_update profile_read_own
        profile_update_own address_manage_own cart_manage_own wishlist_manage_own
        notification_read_own settings_update_own image_upload image_manage notification_manage
        email_test dashboard_read analytics_read settings_update settings_read audit_log_read
        kitchen_manage all :
      Permission

-- A member's place in the enumeration; members are equal when their places are.
abbrev pub place : Permission → ℕ
place product_read = 0
place product_create = 1
place product_update = 2
place product_delete = 3
place category_read = 4
place category_create = 5
place category_update = 6
place category_delete = 7
place deal_read = 8
place deal_create = 9
place deal_update = 10
place deal_delete = 11
place coupon_read = 12
place coupon_create = 13
place coupon_update = 14
place coupon_delete = 15
place order_read_own = 16
place order_read = 17
place order_create = 18
place order_update = 19
place order_delete = 20
place order_track_own = 21
place customer_read = 22
place customer_update = 23
place profile_read_own = 24
place profile_update_own = 25
place address_manage_own = 26
place cart_manage_own = 27
place wishlist_manage_own = 28
place notification_read_own = 29
place settings_update_own = 30
place image_upload = 31
place image_manage = 32
place notification_manage = 33
place email_test = 34
place dashboard_read = 35
place analytics_read = 36
place settings_update = 37
place settings_read = 38
place audit_log_read = 39
place kitchen_manage = 40
place all = 41

-- The text of a member.
unfoldable pub value : Permission → Text
value product_read = codes "product.read"
value product_create = codes "product.create"
value product_update = codes "product.update"
value product_delete = codes "product.delete"
value category_read = codes "category.read"
value category_create = codes "category.create"
value category_update = codes "category.update"
value category_delete = codes "category.delete"
value deal_read = codes "deal.read"
value deal_create = codes "deal.create"
value deal_update = codes "deal.update"
value deal_delete = codes "deal.delete"
value coupon_read = codes "coupon.read"
value coupon_create = codes "coupon.create"
value coupon_update = codes "coupon.update"
value coupon_delete = codes "coupon.delete"
value order_read_own = codes "order.read_own"
value order_read = codes "order.read"
value order_create = codes "order.create"
value order_update = codes "order.update"
value order_delete = codes "order.delete"
value order_track_own = codes "order.track_own"
value customer_read = codes "customer.read"
value customer_update = codes "customer.update"
value profile_read_own = codes "profile.read_own"
value profile_update_own = codes "profile.update_own"
value address_manage_own = codes "address.manage_own"
value cart_manage_own = codes "cart.manage_own"
value wishlist_manage_own = codes "wishlist.manage_own"
value notification_read_own = codes "notification.read_own"
value settings_update_own = codes "settings.update_own"
value image_upload = codes "image.upload"
value image_manage = codes "image.manage"
value notification_manage = codes "notification.manage"
value email_test = codes "email.test"
value dashboard_read = codes "dashboard.read"
value analytics_read = codes "analytics.read"
value settings_update = codes "settings.update"
value settings_read = codes "settings.read"
value audit_log_read = codes "audit_log.read"
value kitchen_manage = codes "kitchen.manage"
value all = codes "*"

abbrev pub same : Permission → Permission → Bool
same p q = place p == place q

-- `p in granted`
unfoldable pub granted : Permission → List Permission → Bool
granted p [] = false
granted p (q ∷ qs) = same p q || granted p qs

abbrev pub customer_permissions : List Permission
customer_permissions =
    product_read ∷ category_read ∷ deal_read ∷ coupon_read ∷ cart_manage_own ∷ wishlist_manage_own
    ∷ order_create ∷ order_read_own ∷ order_track_own ∷ profile_read_own ∷ profile_update_own
    ∷ address_manage_own ∷ notification_read_own ∷ settings_update_own ∷ []

abbrev pub chef_permissions : List Permission
chef_permissions =
    product_read ∷ product_create ∷ product_update ∷ product_delete ∷ category_read
    ∷ category_create ∷ category_update ∷ category_delete ∷ deal_read ∷ deal_create ∷ deal_update
    ∷ deal_delete ∷ coupon_read ∷ coupon_create ∷ coupon_update ∷ coupon_delete ∷ order_read
    ∷ order_update ∷ order_delete ∷ customer_read ∷ customer_update ∷ notification_manage
    ∷ email_test ∷ image_upload ∷ image_manage ∷ dashboard_read ∷ analytics_read ∷ settings_update
    ∷ settings_read ∷ audit_log_read ∷ kitchen_manage ∷ all ∷ []

-- `permissions_for_role`, at a member of the enumeration
unfoldable pub permissions_for_role : UserRole → List Permission
permissions_for_role customer = customer_permissions
permissions_for_role chef = chef_permissions

unfoldable pub has_permission : UserRole → Permission → Bool
unfolding permissions_for_role granted
has_permission role permission =
    let set = permissions_for_role role in if granted all set then true else granted permission set
