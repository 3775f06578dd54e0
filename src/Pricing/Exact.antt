-- ===== src/Pricing/Exact.antt =====
-- The price of a line, and the catalog prices it is built from.
use prime_pizza_backend.Base.{
  ℕ, ◌+◌, ◌*◌, ◌≡◌, refl, Option, none, some, List, [], ◌∷◌, arith, or_else, total,
}
use prime_pizza_backend.Money.{Cents}
use prime_pizza_backend.Money.Rounding.{money-of_cents}
use prime_pizza_backend.Catalog.{Product, ProductVariant, VariantOption}
use prime_pizza_backend.Pricing.{
  effective_product_unit_price, extra_price, price_line, cart_subtotal,
}

-- The price of one unit that the catalog states: that of the variant where one is chosen, and in
-- either row the discount price where there is one.
abbrev pub catalog_unit_price : Product → Option ProductVariant → Cents
catalog_unit_price product (some variant) = or_else variant.discount_price variant.price
catalog_unit_price product none = or_else product.discount_price product.base_price

abbrev pub catalog_extra_price : VariantOption × ℕ → Cents
catalog_extra_price (option, qty) = option.price * qty

total-extra_price :
    (extras : List (VariantOption × ℕ))
    → total extra_price extras ≡ total catalog_extra_price extras
total-extra_price [] = refl
total-extra_price ((o, q) ∷ extras) = rw (money-of_cents, total-extra_price extras)

pub effective_exact :
    (product : Product) (variant : Option ProductVariant)
    → let (unit, discount) = effective_product_unit_price product variant in
      or_else discount unit ≡ catalog_unit_price product variant
unfolding effective_product_unit_price
effective_exact product variant = grind (arith, money-of_cents)

-- A line costs the catalog's price of one unit plus that of its extras, times the quantity, to the
-- cent: no step of the computation rounds.
pub line_subtotal_exact :
    (product : Product) (variant : Option ProductVariant) (quantity : ℕ)
    (extras : List (VariantOption × ℕ))
    → (price_line product variant quantity extras).line_subtotal
      ≡ (catalog_unit_price product variant + total catalog_extra_price extras) * quantity
unfolding price_line
line_subtotal_exact product variant quantity extras =
    rw (money-of_cents, money-of_cents, total-extra_price extras)
      (rw (effective_exact product variant))

pub cart_subtotal_exact : (lines : List Cents) → cart_subtotal lines ≡ total (λ c. c) lines
unfolding cart_subtotal
cart_subtotal_exact lines = money-of_cents _
