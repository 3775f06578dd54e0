-- ===== src/Commerce/Charges.antt =====
-- What the charges add up to, and the bounds on each.
use prime_pizza_backend.Base.{
  ℕ, ◌+◌, ◌*◌, ◌^◌, ◌≤◌, ◌<◌, ◌≡◌, ◌⊎◌, ◌||◌, Bool-cases, inl, inr, arith, ◌==◌,
}
use prime_pizza_backend.Money.{Cents, of_cents, times, percent}
use prime_pizza_backend.Money.Rounding.{money-of_cents, money_nearest, ten_pow_pos}
use prime_pizza_backend.Commerce.{CommerceConfig, calculate_fee, calculate_tax, order_totals}

-- The delivery fee is waived exactly for a positive threshold that the discounted subtotal reaches,
-- and is the flat fee otherwise.
calculate_fee_cases :
    (commerce : CommerceConfig) (amount : Cents)
    → ((0 < commerce.free_delivery_threshold)
        × (commerce.free_delivery_threshold ≤ amount)
        × (calculate_fee commerce amount ≡ 0))
      ⊎ ((calculate_fee commerce amount ≡ commerce.delivery_fee)
          × ((commerce.free_delivery_threshold ≡ 0) ⊎ (amount < commerce.free_delivery_threshold)))
unfolding calculate_fee
calculate_fee_cases commerce amount = ground arith

-- Orders of a larger amount never pay a larger delivery fee.
pub calculate_fee_antitone :
    (commerce : CommerceConfig) (a b : Cents)
    → a ≤ b
    → calculate_fee commerce b ≤ calculate_fee commerce a
unfolding calculate_fee
calculate_fee_antitone commerce a b h = ground arith

-- The five totals of a cart fit together: what the customer pays plus the discount is the subtotal
-- plus the charges.
pub order_totals_balance :
    (commerce : CommerceConfig) (subtotal discount : Cents)
    → discount ≤ subtotal
    → let t = order_totals commerce subtotal discount in
      t.grand_total + t.discount ≡ t.subtotal + t.delivery_fee + t.tax
unfolding order_totals
order_totals_balance commerce subtotal discount h = grind (arith, money-of_cents)

zero_nearest :
    (a m u t : ℕ)
    → 0 < u
    → (a ≡ 0) ⊎ (m ≡ 0)
    → t ≡ 0
    → (t * (2 * u) ≤ 2 * (a * m * 100) + u) × (2 * (a * m * 100) < t * (2 * u) + u)
zero_nearest a m u t h (inl e) f = rw (e, f) (omega arith)
zero_nearest a m u t h (inr e) f = rw (e, f) (omega arith)

-- The tax is the percentage of the taxable amount to the nearest cent, ties up, whatever number of
-- decimal places the percentage has.
pub calculate_tax_nearest :
    (commerce : CommerceConfig) (amount : Cents)
    → let rate = commerce.tax_percent in
      let unit = 10 ^ (2 + rate.places + 2) in
      let tax = calculate_tax commerce amount in
      (tax * (2 * unit) ≤ 2 * (amount * rate.mantissa * 100) + unit)
      × (2 * (amount * rate.mantissa * 100) < tax * (2 * unit) + unit)
unfolding calculate_tax
calculate_tax_nearest commerce amount =
    let rate = commerce.tax_percent in
    let unit = 10 ^ (2 + rate.places + 2) in
    let v = percent (times (of_cents amount) rate) in
    elim (Bool-cases (rate.mantissa == 0 || amount == 0)) [
      | inl free ↦ zero_nearest amount rate.mantissa unit _ (ten_pow_pos _) (ground arith) (rw free)
      | inr due ↦ rw due (money_nearest v)
    ]
