-- ===== src/Coupon/Discount.antt =====
-- Bounds and rounding of a coupon's discount.
use native.Mathlib.Nat.{mul-le-mul, le_refl}
use prime_pizza_backend.Base.{ℕ, ◌+◌, ◌*◌, ◌/◌, ◌≤◌, ◌<◌, min, ◌≡◌, Option, none, some, arith}
use prime_pizza_backend.Enums.{percentage}
use prime_pizza_backend.Money.{Cents, round_half_up, money}
use prime_pizza_backend.Money.Rounding.{money-of_cents}
use prime_pizza_backend.Coupon.{Coupon, face_discount, calculate_discount, capped}

-- No more than the cap, where there is one.
abbrev pub WithinCap : Option Cents → Cents → Type 0
WithinCap none d = Unit
WithinCap (some cap) d = d ≤ cap

capped-WithinCap : (o : Option Cents) (d : Cents) → WithinCap o (capped o d)
capped-WithinCap none d = tt
capped-WithinCap (some cap) d = rw money-of_cents (omega arith)

min-WithinCap : (o : Option Cents) (a d : Cents) → WithinCap o a → WithinCap o (min a d)
min-WithinCap none a d h = tt
min-WithinCap (some cap) a d h = omega arith

-- A discount is never more than the subtotal that it is taken from, nor than the coupon's cap.
pub calculate_discount_bounds :
    (coupon : Coupon) (subtotal : Cents)
    → (calculate_discount coupon subtotal ≤ subtotal)
      × WithinCap coupon.maximum_discount (calculate_discount coupon subtotal)
unfolding calculate_discount
calculate_discount_bounds coupon subtotal = (
  omega arith,
  min-WithinCap coupon.maximum_discount _ subtotal (capped-WithinCap coupon.maximum_discount _),
)

percent_face :
    (coupon : Coupon) (subtotal : Cents)
    → coupon.coupon_type ≡ percentage
    → face_discount coupon subtotal ≡ (2 * (subtotal * coupon.value * 100) + 1000000) / 2000000
unfolding face_discount money round_half_up
percent_face coupon subtotal e = ground arith

nearest_le : (s v d : ℕ) → v ≤ 10000 → d * 20000 ≤ 2 * (s * v) + 10000 → d ≤ s
nearest_le s v d h k = grind (arith, mul-le-mul (le_refl s) h)

-- A percentage coupon (of at most 100 percent, as the table's check constraint demands) without a
-- cap takes off the percentage of the subtotal, rounded to the nearest cent with ties up; the final
-- `min` with the subtotal changes nothing.
pub percentage_discount_nearest :
    (coupon : Coupon) (subtotal : Cents)
    → coupon.coupon_type ≡ percentage
    → coupon.maximum_discount ≡ none
    → coupon.value ≤ 10000
    → let d = calculate_discount coupon subtotal in
      (d * 20000 ≤ 2 * (subtotal * coupon.value) + 10000)
      × (2 * (subtotal * coupon.value) < d * 20000 + 10000)
unfolding calculate_discount
percentage_discount_nearest coupon subtotal e cap h =
    let face = face_discount coupon subtotal in
    let shape = percent_face coupon subtotal e in
    let near : (face * 20000 ≤ 2 * (subtotal * coupon.value) + 10000)
        × (2 * (subtotal * coupon.value) < face * 20000 + 10000) =
      omega arith in
    let small = nearest_le subtotal coupon.value face h near.0 in rw cap (omega arith)
