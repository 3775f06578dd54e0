-- ===== src/Coupon.antt =====
-- `CouponService` (app/services/coupon.py), with the columns of app/models/coupon.py and the
-- queries of app/repositories/coupon.py that it uses.
pub mod Discount
pub mod Validation
use prime_pizza_backend.Base.{
  ℕ, ◌+◌, ◌*◌, min, Bool, true, false, not, ◌&&◌, Option, none, some, List, [], ◌∷◌, ltb, leb, ◌==◌,
  find_first, count, or_else, if◌then◌else◌,
}
use prime_pizza_backend.Base.Exec.{Result, ok, err}
use prime_pizza_backend.Text.{Text, text_eq, upper, strip}
use prime_pizza_backend.Errors.{
  AppException, not_found_exception, validation_exception, text, with_number,
}
use prime_pizza_backend.Enums.{CouponType, percentage, fixed}
use prime_pizza_backend.Money.{Cents, of_cents, money, times, percent}
use prime_pizza_backend.Catalog.{alive}

-- `value` is a percentage, in hundredths, or an amount in cents. Times are seconds.
pub record Coupon : Type 0 where
  pub id : ℕ
  pub code : Text
  pub coupon_type : CouponType
  pub value : ℕ
  pub minimum_order_amount : Option Cents
  pub maximum_discount : Option Cents
  pub usage_limit : Option ℕ
  pub per_user_limit : Option ℕ
  pub used_count : ℕ
  pub is_active : Bool
  pub starts_at : Option ℕ
  pub expires_at : Option ℕ
  pub deleted : Bool

pub record CouponUsage : Type 0 where
  pub user_id : ℕ
  pub coupon_id : ℕ
  pub order_id : ℕ
  pub discount_applied : Cents
  pub deleted : Bool

pub record CouponTables : Type 0 where
  pub coupons : List Coupon
  pub usages : List CouponUsage

pub record CouponValidationResponse : Type 0 where
  pub code : Text
  pub coupon_type : CouponType
  pub value : Cents
  pub discount_amount : Cents

-- The test of `BaseRepository.get_by_id`, and of `get_for_update`
abbrev pub is_coupon : ℕ → Coupon → Bool
is_coupon coupon_id c = c.id == coupon_id && alive c.deleted

-- `CouponRepository.get_by_code`
unfoldable pub get_by_code : CouponTables → Text → Option Coupon
unfolding text_eq
get_by_code db code = find_first (λ c. text_eq c.code (upper code) && alive c.deleted) db.coupons

-- `CouponUsageRepository.count_for_user`
unfoldable pub count_for_user : CouponTables → ℕ → ℕ → ℕ
count_for_user db coupon_id user_id =
    count (λ u. u.coupon_id == coupon_id && u.user_id == user_id && alive u.deleted) db.usages

abbrev pub or_raise : Option Coupon → AppException → Result AppException Coupon
or_raise none e = err e
or_raise (some c) _ = ok c

unfoldable pub get_active_by_code : CouponTables → Text → Result AppException Coupon
get_active_by_code db code =
    or_raise (get_by_code db (upper (strip code))) (not_found_exception (text "Coupon not found"))

-- `money(subtotal * money(value) / Decimal("100"))`, or `money(value)`
unfoldable pub face_discount : Coupon → Cents → Cents
unfolding money
face_discount coupon subtotal = elim coupon.coupon_type [
  | percentage ↦
      money (percent (times (of_cents subtotal) (of_cents (money (of_cents coupon.value)))))
  | fixed ↦ money (of_cents coupon.value)
]

abbrev capped : Option Cents → Cents → Cents
capped none discount = discount
capped (some cap) discount = min discount (money (of_cents cap))

unfoldable pub calculate_discount : Coupon → Cents → Cents
unfolding face_discount
calculate_discount coupon subtotal =
    min (capped coupon.maximum_discount (face_discount coupon subtotal)) subtotal

-- `x is not None and …`, for the dates and limits
abbrev pub when : Option ℕ → (ℕ → Bool) → Bool
when none _ = false
when (some n) p = p n

-- The checks of `validate_for_user`, in order; `none` when all pass.
unfoldable pub coupon_issue : CouponTables → ℕ → ℕ → Cents → Coupon → Option AppException
coupon_issue db now user_id subtotal coupon =
    if not coupon.is_active
    then some (validation_exception (text "Coupon is not active"))
    else if when coupon.starts_at (λ t. ltb now t)
    then some (validation_exception (text "Coupon is not yet valid"))
    else if when coupon.expires_at (λ t. ltb t now)
    then some (validation_exception (text "Coupon has expired"))
    else if when coupon.usage_limit (λ n. leb n coupon.used_count)
    then some (validation_exception (text "Coupon usage limit reached"))
    else if when coupon.per_user_limit (λ n. leb n (count_for_user db coupon.id user_id))
    then some (validation_exception (text "You have already used this coupon the maximum times"))
    else if when coupon.minimum_order_amount (λ m. ltb subtotal (money (of_cents m)))
    then some (
        validation_exception (
          with_number "Minimum order amount of " (or_else coupon.minimum_order_amount 0)
            " required"))
    else none

abbrev pub settle :
    Option AppException → CouponValidationResponse → Result AppException CouponValidationResponse
settle none r = ok r
settle (some e) _ = err e

unfoldable pub validation_response : Coupon → Cents → CouponValidationResponse
validation_response coupon subtotal = record {
  code = coupon.code;
  coupon_type = coupon.coupon_type;
  value = money (of_cents coupon.value);
  discount_amount = calculate_discount coupon subtotal;
}

-- `validate_for_user` from the coupon on
unfoldable pub validate_coupon :
    CouponTables → ℕ → ℕ → Cents → Coupon → Result AppException CouponValidationResponse
validate_coupon db now user_id subtotal coupon =
    settle (coupon_issue db now user_id subtotal coupon) (validation_response coupon subtotal)

abbrev pub and_then :
    Result AppException Coupon
    → (Coupon → Result AppException CouponValidationResponse)
    → Result AppException CouponValidationResponse
and_then (ok c) f = f c
and_then (err e) _ = err e

unfoldable pub validate_for_user :
    CouponTables → ℕ → Text → ℕ → Cents → Result AppException CouponValidationResponse
validate_for_user db now code user_id subtotal =
    and_then (get_active_by_code db code) (validate_coupon db now user_id subtotal)
