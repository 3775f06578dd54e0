-- ===== src/AdminCoupons.antt =====
-- `AdminCouponService` of app/services/admin_coupon.py, with the requests of
-- app/schemas/admin_coupons.py. A coupon's description and times of change are not columns of the
-- model. Left out are the paginated listing, the usage report, the dashboard's cache, and a request
-- that sets a column to null that may not be null.
pub mod Codes
pub mod Calls
pub mod Kept
use prime_pizza_backend.Base.{
  ℕ, ◌+◌, ◌-◌, ◌*◌, ◌^◌, Bool, true, false, not, ◌&&◌, ◌||◌, Option, none, some, List, [], ◌∷◌,
  ◌++◌, ltb, ◌==◌, any, find_first, set_first, keep, length, is_some, if◌then◌else◌,
}
use prime_pizza_backend.Base.Exec.{
  Result, ok, err, pure, gets, modify, or_raise, raise_if, ◌>>=◌, ◌>>◌,
}
use prime_pizza_backend.Text.{Text, codes, upper, strip}
use prime_pizza_backend.Errors.{validation_exception, not_found_exception, conflict_exception, text}
use prime_pizza_backend.Enums.{CouponType, percentage, fixed, AuditAction, create, update, delete}
use prime_pizza_backend.Money.{Decimal, Cents, of_cents, money}
use prime_pizza_backend.Catalog.{alive}
use prime_pizza_backend.Coupon.{is_coupon, Coupon, CouponUsage, CouponTables, get_by_code}
use prime_pizza_backend.Models.{AuditLog}
use prime_pizza_backend.Store.{World, Service, commit}
use prime_pizza_backend.Cart.Service.{new_id}
use prime_pizza_backend.SystemSettings.Service.{audited}

pub record CouponCreateRequest : Type 0 where
  pub code : Text
  pub coupon_type : CouponType
  pub value : Decimal
  pub minimum_order_amount : Option Decimal
  pub maximum_discount : Option Decimal
  pub usage_limit : Option ℕ
  pub per_user_limit : Option ℕ
  pub is_active : Bool
  pub starts_at : Option ℕ
  pub expires_at : Option ℕ

-- A field that is not set is `none`; the nullable ones can be set to null.
pub record CouponUpdateRequest : Type 0 where
  pub description : Option (Option Text)
  pub coupon_type : Option CouponType
  pub value : Option Decimal
  pub minimum_order_amount : Option (Option Decimal)
  pub maximum_discount : Option (Option Decimal)
  pub usage_limit : Option (Option ℕ)
  pub per_user_limit : Option (Option ℕ)
  pub is_active : Option Bool
  pub starts_at : Option (Option ℕ)
  pub expires_at : Option (Option ℕ)

-- `value > 100`
unfoldable pub over_hundred : CouponType → Decimal → Bool
over_hundred percentage value = ltb (100 * 10 ^ value.places) value.mantissa
over_hundred fixed value = false

-- `starts and ends and ends < starts`
abbrev pub reversed : Option ℕ → Option ℕ → Bool
reversed none ends = false
reversed (some s) none = false
reversed (some s) (some e) = ltb e s

-- `validate_coupon`, the validator of the request
unfoldable pub is_rejected : CouponCreateRequest → Bool
unfolding over_hundred
is_rejected payload =
    over_hundred payload.coupon_type payload.value || reversed payload.starts_at payload.expires_at

abbrev pub money_or_null : Option Decimal → Option Cents
money_or_null none = none
money_or_null (some d) = some (money d)

unfoldable pub new_coupon : ℕ → CouponCreateRequest → Coupon
new_coupon coupon_id payload = record {
  id = coupon_id;
  code = upper (strip payload.code);
  coupon_type = payload.coupon_type;
  value = money payload.value;
  minimum_order_amount = money_or_null payload.minimum_order_amount;
  maximum_discount = money_or_null payload.maximum_discount;
  usage_limit = payload.usage_limit;
  per_user_limit = payload.per_user_limit;
  used_count = 0;
  is_active = payload.is_active;
  starts_at = payload.starts_at;
  expires_at = payload.expires_at;
  deleted = false;
}

abbrev pub save_coupons : (List Coupon → List Coupon) → World → World
save_coupons f w = record w {
  db = record w.db {
    coupon_tables = record w.db.coupon_tables { coupons = f w.db.coupon_tables.coupons };
  };
}

-- The entry of a change; a coupon's id as text is kept as one code.
abbrev pub coupon_log : AuditAction → ℕ → ℕ → Text → AuditLog
coupon_log action coupon_id actor_id message = record {
  user_id = some actor_id;
  action = action;
  resource_type = codes "coupon";
  resource_id = some (coupon_id ∷ []);
  message = some message;
}

-- The request's validator, and `create`
unfoldable pub create_coupon : CouponCreateRequest → ℕ → Service Coupon
unfolding is_rejected new_coupon
create_coupon payload actor_id = do
  raise_if (is_rejected payload) (validation_exception (text "Request validation failed"))
  tables ← gets (λ w. w.db.coupon_tables)
  raise_if (is_some (get_by_code tables (upper (strip payload.code))))
      (conflict_exception (text "Coupon code already exists"))
  coupon_id ← new_id
  modify (save_coupons (λ l. l ++ new_coupon coupon_id payload ∷ []))
  commit
  audited (coupon_log create coupon_id actor_id (codes "Coupon created"))
  pure (new_coupon coupon_id payload)

unfoldable pub coupon_by_id : List Coupon → ℕ → Option Coupon
coupon_by_id coupons coupon_id = find_first (is_coupon coupon_id) coupons

-- `data.get(key, old)`
abbrev pub set_or : {A : Type 0} → Option A → A → A
set_or none old = old
set_or (some new) old = new

abbrev pub set_money : Option (Option Decimal) → Option Cents → Option Cents
set_money none old = old
set_money (some d) old = money_or_null d

abbrev pub set_value : Option Decimal → Cents → Cents
set_value none old = old
set_value (some d) old = money d

unfoldable pub is_empty_update : CouponUpdateRequest → Bool
is_empty_update payload = not (
    is_some payload.description
    || is_some payload.coupon_type
    || is_some payload.value
    || is_some payload.minimum_order_amount
    || is_some payload.maximum_discount
    || is_some payload.usage_limit
    || is_some payload.per_user_limit
    || is_some payload.is_active
    || is_some payload.starts_at
    || is_some payload.expires_at)

unfoldable pub updated_coupon : CouponUpdateRequest → Coupon → Coupon
updated_coupon payload c = record c {
  coupon_type = set_or payload.coupon_type c.coupon_type;
  value = set_value payload.value c.value;
  minimum_order_amount = set_money payload.minimum_order_amount c.minimum_order_amount;
  maximum_discount = set_money payload.maximum_discount c.maximum_discount;
  usage_limit = set_or payload.usage_limit c.usage_limit;
  per_user_limit = set_or payload.per_user_limit c.per_user_limit;
  is_active = set_or payload.is_active c.is_active;
  starts_at = set_or payload.starts_at c.starts_at;
  expires_at = set_or payload.expires_at c.expires_at;
}

abbrev pub write_coupon : ℕ → Coupon → World → World
write_coupon coupon_id c = save_coupons (set_first (is_coupon coupon_id) c)

abbrev pub find_coupon : ℕ → Service Coupon
find_coupon coupon_id w =
    or_raise (coupon_by_id w.db.coupon_tables.coupons coupon_id)
      (not_found_exception (text "Coupon not found")) w

-- `update`, from the coupon on
unfoldable pub update_found : ℕ → CouponUpdateRequest → ℕ → Coupon → Service Coupon
unfolding over_hundred is_empty_update updated_coupon
update_found coupon_id payload actor_id c = do
  raise_if (is_empty_update payload) (validation_exception (text "No coupon fields provided"))
  raise_if
      (over_hundred (set_or payload.coupon_type c.coupon_type)
        (set_or payload.value (of_cents c.value)))
      (validation_exception (text "Percentage coupons cannot exceed 100"))
  raise_if
      (reversed (set_or payload.starts_at c.starts_at) (set_or payload.expires_at c.expires_at))
      (validation_exception (text "expires_at must be after starts_at"))
  modify (write_coupon coupon_id (updated_coupon payload c))
  commit
  audited (coupon_log update coupon_id actor_id (codes "Coupon updated"))
  pure (updated_coupon payload c)

unfoldable pub update_coupon : ℕ → CouponUpdateRequest → ℕ → Service Coupon
unfolding update_found coupon_by_id
update_coupon coupon_id payload actor_id = do
  c ← find_coupon coupon_id
  update_found coupon_id payload actor_id c

abbrev pub only_active : Bool → CouponUpdateRequest
only_active is_active = record {
  description = none;
  coupon_type = none;
  value = none;
  minimum_order_amount = none;
  maximum_discount = none;
  usage_limit = none;
  per_user_limit = none;
  is_active = some is_active;
  starts_at = none;
  expires_at = none;
}

unfoldable pub set_active : ℕ → Bool → ℕ → Service Coupon
unfolding update_coupon
set_active coupon_id is_active actor_id = update_coupon coupon_id (only_active is_active) actor_id

-- `delete`, from the coupon on
unfoldable pub delete_found : ℕ → ℕ → Coupon → Service (Unit {0})
delete_found coupon_id actor_id c = do
  modify (write_coupon coupon_id (record c { deleted = true }))
  commit
  audited (coupon_log delete coupon_id actor_id (codes "Coupon deleted"))

unfoldable pub delete_coupon : ℕ → ℕ → Service (Unit {0})
unfolding delete_found coupon_by_id
delete_coupon coupon_id actor_id = do c ← find_coupon coupon_id; delete_found coupon_id actor_id c
