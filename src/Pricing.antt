-- ===== src/Pricing.antt =====
-- `PricingService` of app/services/pricing.py.
pub mod Exact
use prime_pizza_backend.Base.{ℕ, ◌+◌, ◌*◌, Option, none, some, List, [], ◌∷◌, or_else, total}
use prime_pizza_backend.Money.{Cents, of_cents, money}
use prime_pizza_backend.Catalog.{Product, ProductVariant, VariantOption}

pub record LinePrice : Type 0 where
  pub unit_price : Cents
  pub discount_price : Option Cents
  pub effective_unit_price : Cents
  pub extras_unit_total : Cents
  pub line_subtotal : Cents

-- `money(x) if x is not None else None`
unfoldable pub optional_money : Option Cents → Option Cents
unfolding money
optional_money none = none
optional_money (some c) = some (money (of_cents c))

unfoldable pub effective_product_unit_price : Product → Option ProductVariant → Cents × Option Cents
unfolding optional_money
effective_product_unit_price product (some variant) =
    (money (of_cents variant.price), optional_money variant.discount_price)
effective_product_unit_price product none =
    (money (of_cents product.base_price), optional_money product.discount_price)

-- `money(option.price) * qty`
abbrev pub extra_price : VariantOption × ℕ → Cents
extra_price (option, qty) = money (of_cents option.price) * qty

unfoldable pub price_line :
    Product → Option ProductVariant → ℕ → List (VariantOption × ℕ) → LinePrice
unfolding effective_product_unit_price
price_line product variant quantity extras =
    let (unit_price, discount_price) = effective_product_unit_price product variant in
    let effective = or_else discount_price unit_price in
    let extras_total = money (of_cents (total extra_price extras)) in
    record {
      unit_price = unit_price;
      discount_price = discount_price;
      effective_unit_price = effective;
      extras_unit_total = extras_total;
      line_subtotal = money (of_cents ((effective + extras_total) * quantity));
    }

unfoldable pub cart_subtotal : List Cents → Cents
unfolding money
cart_subtotal line_subtotals = money (of_cents (total (λ c. c) line_subtotals))
