-- ===== src/Commerce.antt =====
-- The charges on an order: `CommerceConfig` of app/services/commerce_config.py, `DeliveryService`
-- and `TaxService`, and the totals that `CartService.recalculate` builds from them.
pub mod Charges
use prime_pizza_backend.Base.{ℕ, ◌+◌, ◌-◌, Bool, ◌&&◌, ◌||◌, ltb, leb, ◌==◌, if◌then◌else◌}
use prime_pizza_backend.Money.{Decimal, Cents, of_cents, money, times, percent}

-- The settings that are not negative: the environment's are validated so.
pub record CommerceConfig : Type 0 where
  pub delivery_fee : Cents
  pub free_delivery_threshold : Cents
  pub tax_percent : Decimal
  pub maintenance_mode : Bool

-- `DeliveryService.calculate_fee`, with the configuration given
unfoldable pub calculate_fee : CommerceConfig → Cents → Cents
calculate_fee commerce subtotal_after_discount =
    if ltb 0 commerce.free_delivery_threshold
      && leb commerce.free_delivery_threshold subtotal_after_discount
    then 0
    else commerce.delivery_fee

-- `TaxService.calculate`, with the configuration given
unfoldable pub calculate_tax : CommerceConfig → Cents → Cents
calculate_tax commerce taxable_amount =
    if commerce.tax_percent.mantissa == 0 || taxable_amount == 0
    then 0
    else money (percent (times (of_cents taxable_amount) commerce.tax_percent))

pub record Totals : Type 0 where
  pub subtotal : Cents
  pub discount : Cents
  pub delivery_fee : Cents
  pub tax : Cents
  pub grand_total : Cents

-- The end of `recalculate`. The subtraction is that of the source as long as the discount is at
-- most the subtotal.
unfoldable pub order_totals : CommerceConfig → Cents → Cents → Totals
order_totals commerce subtotal discount =
    let after_discount : Cents = money (of_cents (subtotal - discount)) in
    let delivery_fee : Cents = calculate_fee commerce after_discount in
    let tax : Cents = calculate_tax commerce after_discount in
    record {
      subtotal = subtotal;
      discount = discount;
      delivery_fee = delivery_fee;
      tax = tax;
      grand_total = money (of_cents (after_discount + delivery_fee + tax));
    }
