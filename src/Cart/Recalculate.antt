-- ===== src/Cart/Recalculate.antt =====
-- `CartService.recalculate`: every total of the cart, from the catalog's prices.
use prime_pizza_backend.Base.{
  ℕ, false, Option, none, some, List, [], ◌∷◌, map, ◌==◌, find_first, keep, if◌then◌else◌,
}
use prime_pizza_backend.Base.Exec.{Result, ok, err, chain}
use prime_pizza_backend.Errors.{AppException}
use prime_pizza_backend.Money.{Cents, of_cents, money}
use prime_pizza_backend.Catalog.{VariantOption, Catalog, alive}
use prime_pizza_backend.Pricing.{price_line, cart_subtotal}
use prime_pizza_backend.Coupon.{Coupon, CouponTables, CouponValidationResponse, validate_for_user}
use prime_pizza_backend.Commerce.{CommerceConfig, order_totals}
use prime_pizza_backend.Models.{CartItemExtra, ExtraSnapshot, CartItem, Cart}
use prime_pizza_backend.Cart.Lines.{
  Quantities, set_key, Entities, load_priced_entities, live_extras,
}

-- `{e.option_id: e.quantity for e in extras}`
abbrev pub collect : Quantities → List CartItemExtra → Quantities
collect d [] = d
collect d (e ∷ l) = collect (set_key e.option_id e.quantity d) l

abbrev pub quantities_of : List CartItemExtra → Quantities
quantities_of extras = collect [] extras

-- One entry of `extras_snapshot`.
abbrev pub snapshot_of : VariantOption × ℕ → ExtraSnapshot
snapshot_of (option, qty) = record {
  option_id = option.id;
  name = option.name;
  quantity = qty;
  unit_price = money (of_cents option.price);
}

-- `next(o for o, _ in extras if o.id == extra.option_id)`; every option of the line was loaded, so
-- there is one.
abbrev pub set_price : Option (VariantOption × ℕ) → CartItemExtra → CartItemExtra
set_price none extra = extra
set_price (some (option, _)) extra = record extra { unit_price = money (of_cents option.price) }

abbrev pub reprice_extra : List (VariantOption × ℕ) → CartItemExtra → CartItemExtra
reprice_extra extras extra =
    if alive extra.deleted
    then set_price (find_first (λ (o, _). o.id == extra.option_id) extras) extra
    else extra

-- The assignments of the loop, the line's rows given.
unfoldable pub priced_item : CartItem → Entities → CartItem
priced_item item (product, variant, extras) =
    let priced = price_line product variant item.quantity extras in
    record item {
      unit_price = priced.unit_price;
      discount_price = priced.discount_price;
      subtotal = priced.line_subtotal;
      extras_snapshot = map snapshot_of extras;
      extras = map (reprice_extra extras) item.extras;
    }

-- The rows of a line, whether they are available or not.
unfoldable pub item_entities : Catalog → CartItem → Result AppException Entities
item_entities c item =
    let extras = live_extras item in
    load_priced_entities c item.product_id false item.variant_id (map (λ e. e.option_id) extras)
      (quantities_of extras)

-- The loop over the items; the deleted ones stay as they are.
unfoldable pub reprice_items : Catalog → List CartItem → Result AppException (List CartItem)
unfolding item_entities priced_item
reprice_items c [] = ok []
reprice_items c (item ∷ items) =
    let rest = reprice_items c items in
    if alive item.deleted
    then chain (item_entities c item) (λ rows. chain rest (λ l. ok (priced_item item rows ∷ l)))
    else chain rest (λ l. ok (item ∷ l))

abbrev pub live_items : List CartItem → List CartItem
live_items items = keep (λ i. alive i.deleted) items

-- The relationship `cart.coupon`.
unfoldable pub coupon_of : CouponTables → Option ℕ → Option Coupon
coupon_of db none = none
coupon_of db (some coupon_id) = find_first (λ c. c.id == coupon_id) db.coupons

-- The coupon that the cart keeps, and its discount.
abbrev pub settle_coupon :
    Option ℕ → Result AppException CouponValidationResponse → Option ℕ × Cents
settle_coupon coupon_id (ok v) = (coupon_id, v.discount_amount)
settle_coupon coupon_id (err _) = (none, 0)

unfoldable pub cart_discount :
    CouponTables → ℕ → ℕ → Cents → Option ℕ → Option Coupon → Option ℕ × Cents
cart_discount db now user_id subtotal coupon_id none = (coupon_id, 0)
cart_discount db now user_id subtotal coupon_id (some coupon) =
    settle_coupon coupon_id (validate_for_user db now coupon.code user_id subtotal)

-- What is stored of the totals, the items priced; `coupon` is the object `cart.coupon`.
unfoldable pub totalled :
    CommerceConfig → CouponTables → ℕ → Option Coupon → Cart → List CartItem → Cart
unfolding cart_discount
totalled commerce db now coupon cart items =
    let subtotal = cart_subtotal (map (λ i. i.subtotal) (live_items items)) in
    let (coupon_id, discount) = cart_discount db now cart.user_id subtotal cart.coupon_id coupon in
    let totals = order_totals commerce subtotal discount in
    record cart {
      items = items;
      coupon_id = coupon_id;
      subtotal = totals.subtotal;
      discount = totals.discount;
      delivery_fee = totals.delivery_fee;
      tax = totals.tax;
      grand_total = totals.grand_total;
      last_activity = now;
    }

-- When a row is missing, the assignments made so far are only the session's, and the rollback that
-- ends such a request drops them.
unfoldable pub recalculate_with :
    CommerceConfig → Catalog → CouponTables → ℕ → Option Coupon → Cart → Result AppException Cart
unfolding reprice_items totalled
recalculate_with commerce c db now coupon cart =
    chain (reprice_items c cart.items) (λ items. ok (totalled commerce db now coupon cart items))

-- With the coupon that the row names, as when the cart has just been loaded.
unfoldable pub recalculate :
    CommerceConfig → Catalog → CouponTables → ℕ → Cart → Result AppException Cart
unfolding recalculate_with coupon_of
recalculate commerce c db now cart =
    recalculate_with commerce c db now (coupon_of db cart.coupon_id) cart
