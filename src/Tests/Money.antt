-- ===== src/Tests/Money.antt =====
-- Prices, coupons and charges.
use prime_pizza_backend.Base.{◌+◌, ◌*◌, ◌^◌, ◌≤◌, ◌<◌, ◌≡◌, ◌↔◌, refl, some, [], ◌∷◌, arith}
use prime_pizza_backend.Base.Exec.{ok}
use prime_pizza_backend.Text.{codes, upper, strip}
use prime_pizza_backend.Money.{Decimal, money}
use prime_pizza_backend.Money.Rounding.{money_nearest}
use prime_pizza_backend.Pricing.{price_line}
use prime_pizza_backend.Pricing.Exact.{line_subtotal_exact}
use prime_pizza_backend.Coupon.{
  Coupon, get_by_code, calculate_discount, validate_for_user, validation_response,
}
use prime_pizza_backend.Coupon.Discount.{calculate_discount_bounds, percentage_discount_nearest}
use prime_pizza_backend.Coupon.Validation.{IsRedeemable, validate_for_user_iff}
use prime_pizza_backend.Commerce.{calculate_tax}
use prime_pizza_backend.Commerce.Charges.{calculate_tax_nearest}
use prime_pizza_backend.Tests.Fixtures.{margherita, large, olives, tenth, tables, commerce}

-- 12.345 to cents
abbrev half_cent : Decimal
half_cent = record { mantissa = 12345; places = 3 }

money_test : money half_cent ≡ 1235
unfolding money
money_test = refl

money_nearest_example :
    (money half_cent * (2 * 10 ^ 3) ≤ 2 * (12345 * 100) + 10 ^ 3)
    × (2 * (12345 * 100) < money half_cent * (2 * 10 ^ 3) + 10 ^ 3)
money_nearest_example = money_nearest half_cent

line_subtotal_exact_example :
    (price_line margherita (some large) 2 ((olives, 2) ∷ [])).line_subtotal ≡ 320100
line_subtotal_exact_example = line_subtotal_exact margherita (some large) 2 ((olives, 2) ∷ [])

abbrev capped_tenth : Coupon
capped_tenth = record tenth { maximum_discount = some 5000 }

calculate_discount_bounds_example :
    (calculate_discount capped_tenth 99950 ≤ 99950) × (calculate_discount capped_tenth 99950 ≤ 5000)
calculate_discount_bounds_example = calculate_discount_bounds capped_tenth 99950

percentage_discount_nearest_example :
    (calculate_discount tenth 99955 * 20000 ≤ 2 * (99955 * 1000) + 10000)
    × (2 * (99955 * 1000) < calculate_discount tenth 99955 * 20000 + 10000)
percentage_discount_nearest_example =
    percentage_discount_nearest tenth 99955 refl refl (omega arith)

discount_test : calculate_discount tenth 99955 ≡ 9996
unfolding calculate_discount
discount_test = refl

validate_for_user_iff_example :
    (validate_for_user tables 1000 (codes " tenth ") 1 99950 ≡ ok (validation_response tenth 99950))
    ↔ ((c : Coupon) × (get_by_code tables (upper (strip (codes " tenth "))) ≡ some c)
        × IsRedeemable tables 1000 1 99950 c
        × (validation_response c 99950 ≡ validation_response tenth 99950))
validate_for_user_iff_example =
    validate_for_user_iff tables 1000 1 99950 (codes " tenth ") (validation_response tenth 99950)

calculate_tax_nearest_example :
    let unit = 10 ^ (2 + 1 + 2) in
    (calculate_tax commerce 99950 * (2 * unit) ≤ 2 * (99950 * 50 * 100) + unit)
    × (2 * (99950 * 50 * 100) < calculate_tax commerce 99950 * (2 * unit) + unit)
calculate_tax_nearest_example = calculate_tax_nearest commerce 99950
