-- ===== src/Cart/Priced.antt =====
-- What a recalculated cart promises.
use prime_pizza_backend.Commerce.Charges.{order_totals_balance}
use prime_pizza_backend.Coupon.Discount.{calculate_discount_bounds}
use prime_pizza_backend.Coupon.Validation.{validate_for_user_iff}
use prime_pizza_backend.Base.{
  sym, ℕ, ◌+◌, ◌-◌, ◌*◌, ◌≤◌, ◌≡◌, refl, ◌∙◌, Bool-cases, inl, inr, false, Option, none, some, List,
  [], ◌∷◌, map, arith, ◌==◌, find_first, keep, total, All,
}
use prime_pizza_backend.Base.Exec.{ok-injective, Result, ok, chain, chain-ok, Result-cases}
use prime_pizza_backend.Errors.{AppException}
use prime_pizza_backend.Money.{Cents}
use prime_pizza_backend.Money.Rounding.{money-of_cents}
use prime_pizza_backend.Catalog.{Product, ProductVariant, VariantOption, Catalog, alive}
use prime_pizza_backend.Pricing.{cart_subtotal}
use prime_pizza_backend.Pricing.Exact.{
  catalog_unit_price, catalog_extra_price, line_subtotal_exact, cart_subtotal_exact,
}
use prime_pizza_backend.Coupon.{
  validation_response, Coupon, CouponTables, CouponValidationResponse, validate_for_user,
}
use prime_pizza_backend.Commerce.{CommerceConfig, order_totals, calculate_fee, calculate_tax}
use prime_pizza_backend.Models.{CartItemExtra, CartItem, Cart}
use prime_pizza_backend.Cart.Lines.{Quantities, set_key, Entities}
use prime_pizza_backend.Cart.Recalculate.{
  collect, set_price, reprice_extra, priced_item, item_entities, reprice_items, live_items,
  settle_coupon, cart_discount, totalled, recalculate_with, recalculate, coupon_of,
}

-- A line that is not deleted costs what the catalog says.
abbrev pub IsExact : Catalog → CartItem → Type 0
IsExact c item =
    item.deleted ≡ false
    → (product : Product) × (variant : Option ProductVariant) × (extras : List (VariantOption × ℕ))
      × (item_entities c item ≡ ok (product, variant, extras))
      × (item.subtotal
          ≡ (catalog_unit_price product variant + total catalog_extra_price extras) * item.quantity)

pub record IsPriced (commerce : CommerceConfig) (c : Catalog) (cart : Cart) : Type 0 where
  pub lines : All (IsExact c) cart.items
  pub sum : cart.subtotal ≡ total (λ i. i.subtotal) (live_items cart.items)
  pub discounted : cart.discount ≤ cart.subtotal
  pub fee : cart.delivery_fee ≡ calculate_fee commerce (cart.subtotal - cart.discount)
  pub taxed : cart.tax ≡ calculate_tax commerce (cart.subtotal - cart.discount)
  pub balance : cart.grand_total + cart.discount ≡ cart.subtotal + cart.delivery_fee + cart.tax

set_price_keeps :
    (o : Option (VariantOption × ℕ)) (e : CartItemExtra)
    → let new = set_price o e in
      (new.option_id ≡ e.option_id) × (new.quantity ≡ e.quantity) × (new.deleted ≡ e.deleted)
set_price_keeps none e = (refl, refl, refl)
set_price_keeps (some (o, q)) e = (refl, refl, refl)

reprice_extra_keeps :
    (rows : List (VariantOption × ℕ)) (e : CartItemExtra)
    → let new = reprice_extra rows e in
      (new.option_id ≡ e.option_id) × (new.quantity ≡ e.quantity) × (new.deleted ≡ e.deleted)
reprice_extra_keeps rows e =
    ground (arith, set_price_keeps (find_first (λ (o, _). o.id == e.option_id) rows) e)

-- Repricing changes neither which options a line has nor their quantities.
ids_keep :
    (rows : List (VariantOption × ℕ)) (l : List CartItemExtra)
    → map (λ e. e.option_id) (keep (λ e. alive e.deleted) (map (reprice_extra rows) l))
      ≡ map (λ e. e.option_id) (keep (λ e. alive e.deleted) l)
ids_keep rows [] = refl
ids_keep rows (e ∷ l) = ground (arith, reprice_extra_keeps rows e, ids_keep rows l)

quantities_keep :
    (rows : List (VariantOption × ℕ)) (l : List CartItemExtra) (d : Quantities)
    → collect d (keep (λ e. alive e.deleted) (map (reprice_extra rows) l))
      ≡ collect d (keep (λ e. alive e.deleted) l)
quantities_keep rows [] d = refl
quantities_keep rows (e ∷ l) d = ground (
  arith,
  reprice_extra_keeps rows e,
  quantities_keep rows l d,
  quantities_keep rows l (set_key e.option_id e.quantity d),
)

entities_keep :
    (c : Catalog) (item : CartItem) (rows : Entities)
    → item_entities c (priced_item item rows) ≡ item_entities c item
unfolding item_entities priced_item
entities_keep c item (product, variant, extras) =
    rw (ids_keep extras item.extras, quantities_keep extras item.extras []) refl

priced_item-IsExact :
    (c : Catalog) (item : CartItem) (rows : Entities)
    → item_entities c item ≡ ok rows
    → IsExact c (priced_item item rows)
unfolding priced_item
priced_item-IsExact c item (product, variant, extras) loaded = λ _. (
  product,
  variant,
  extras,
  entities_keep c item (product, variant, extras) ∙ loaded,
  line_subtotal_exact product variant item.quantity extras,
)

reprice_items-IsExact :
    (c : Catalog) (items priced : List CartItem)
    → reprice_items c items ≡ ok priced
    → All (IsExact c) priced
unfolding reprice_items
reprice_items-IsExact c [] priced h = rw (sym (ok-injective [] priced h)) tt
reprice_items-IsExact c (item ∷ items) priced h = elim (Bool-cases (alive item.deleted)) [
  | inl live ↦
      let after : Entities → List CartItem → Result AppException (List CartItem) =
        λ rows l. ok (priced_item item rows ∷ l) in
      let (rows, loaded, h1) =
        chain-ok (item_entities c item) (λ rows. chain (reprice_items c items) (after rows)) priced
          (ground arith) in
      let (rest, e, h2) = chain-ok (reprice_items c items) (after rows) priced h1 in
      rw (sym (ok-injective (priced_item item rows ∷ rest) priced h2))
        (priced_item-IsExact c item rows loaded, reprice_items-IsExact c items rest e)
  | inr gone ↦
      let (rest, e, h2) =
        chain-ok (reprice_items c items) (λ l. ok (item ∷ l)) priced (ground arith) in
      rw (sym (ok-injective (item ∷ rest) priced h2))
        (λ here. ground arith, reprice_items-IsExact c items rest e)
]

response_le :
    (c : Coupon) (subtotal : Cents) (coupon_id : Option ℕ) (v : CouponValidationResponse)
    (r : Result AppException CouponValidationResponse)
    → r ≡ ok v
    → validation_response c subtotal ≡ v
    → (settle_coupon coupon_id r).1 ≤ subtotal
unfolding validation_response
response_le c subtotal coupon_id v r e shape =
    rw (e, sym shape) ((calculate_discount_bounds c subtotal).0)

sum-live :
    (items : List CartItem)
    → total (λ c. c) (map (λ i. i.subtotal) items) ≡ total (λ i. i.subtotal) items
sum-live [] = refl
sum-live (i ∷ items) = omega (arith, sum-live items)

-- The discount that the cart keeps is the coupon's, so no more than the subtotal.
cart_discount_le :
    (db : CouponTables) (now user_id : ℕ) (subtotal : Cents) (coupon_id : Option ℕ)
    (coupon : Option Coupon)
    → (cart_discount db now user_id subtotal coupon_id coupon).1 ≤ subtotal
unfolding cart_discount
cart_discount_le db now user_id subtotal coupon_id none = omega arith
cart_discount_le db now user_id subtotal coupon_id (some coupon) =
    elim (Result-cases (validate_for_user db now coupon.code user_id subtotal)) [
      | inl (v, e) ↦
          let (c, _, _, shape) =
            (validate_for_user_iff db now user_id subtotal coupon.code v).0 e in
          response_le c subtotal coupon_id v (validate_for_user db now coupon.code user_id subtotal)
            e shape
      | inr (x, e) ↦ ground arith
    ]

totalled-IsPriced :
    (commerce : CommerceConfig) (c : Catalog) (db : CouponTables) (now : ℕ) (coupon : Option Coupon)
    (cart : Cart) (items : List CartItem)
    → All (IsExact c) items
    → IsPriced commerce c (totalled commerce db now coupon cart items)
unfolding totalled order_totals
totalled-IsPriced commerce c db now coupon cart items h =
    let subtotal = cart_subtotal (map (λ i. i.subtotal) (live_items items)) in
    let le = cart_discount_le db now cart.user_id subtotal cart.coupon_id coupon in
    record {
      lines = h;
      sum = cart_subtotal_exact _ ∙ sum-live (live_items items);
      discounted = le;
      fee = rw money-of_cents refl;
      taxed = rw money-of_cents refl;
      balance = order_totals_balance commerce subtotal _ le;
    }

pub recalculate_with-IsPriced :
    (commerce : CommerceConfig) (c : Catalog) (db : CouponTables) (now : ℕ) (coupon : Option Coupon)
    (cart priced : Cart)
    → recalculate_with commerce c db now coupon cart ≡ ok priced
    → IsPriced commerce c priced
unfolding recalculate_with
recalculate_with-IsPriced commerce c db now coupon cart priced h =
    let (items, e, done) =
      chain-ok (reprice_items c cart.items)
        (λ items. ok (totalled commerce db now coupon cart items)) priced h in
    rw (sym (ok-injective (totalled commerce db now coupon cart items) priced done)) (
      totalled-IsPriced commerce c db now coupon cart items
        (reprice_items-IsExact c cart.items items e))

-- A cart that recalculation accepts comes out with every line at the catalog's price, the sum of
-- the lines as its subtotal, a discount of at most that, the fee and the tax of the discounted
-- subtotal, and the grand total that balances them.
pub recalculate-IsPriced :
    (commerce : CommerceConfig) (c : Catalog) (db : CouponTables) (now : ℕ) (cart priced : Cart)
    → recalculate commerce c db now cart ≡ ok priced
    → IsPriced commerce c priced
unfolding recalculate
recalculate-IsPriced commerce c db now cart priced h =
    recalculate_with-IsPriced commerce c db now (coupon_of db cart.coupon_id) cart priced h
