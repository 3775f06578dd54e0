-- ===== src/Tests/Coupons.antt =====
-- The owner adds a coupon, raises it, and deletes it.
use prime_pizza_backend.Base.{List, refl, true, none, some, [], ◌∷◌, arith}
use prime_pizza_backend.Text.{codes}
use prime_pizza_backend.Enums.{percentage}
use prime_pizza_backend.Money.{of_cents}
use prime_pizza_backend.AdminCoupons.{CouponCreateRequest, CouponUpdateRequest, only_active}
use prime_pizza_backend.AdminCoupons.Calls.{
  CouponCall, create_call, update_call, delete_call, coupon_calls,
}
use prime_pizza_backend.AdminCoupons.Kept.{IsSound, coupon_calls-IsSound}
use prime_pizza_backend.Tests.Fixtures.{world}

abbrev half : CouponCreateRequest
half = record {
  code = codes " half ";
  coupon_type = percentage;
  value = of_cents 5000;
  minimum_order_amount = none;
  maximum_discount = none;
  usage_limit = none;
  per_user_limit = some 1;
  is_active = true;
  starts_at = none;
  expires_at = none;
}

abbrev doubled : CouponUpdateRequest
doubled = record (only_active true) { value = some (of_cents 10000) }

abbrev changes : List CouponCall
changes = create_call half 1 ∷ create_call half 1 ∷ update_call 20 doubled 1 ∷ delete_call 20 1 ∷ []

coupon_calls-IsSound_example : IsSound (coupon_calls changes world)
coupon_calls-IsSound_example =
    coupon_calls-IsSound changes world
      (record { is_committed = refl; is_unique = (refl, tt); all_fit = (omega arith, tt) })
