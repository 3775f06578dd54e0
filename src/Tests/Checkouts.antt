-- ===== src/Tests/Checkouts.antt =====
-- Placing orders.
use prime_pizza_backend.Base.{List, ℕ, ◌≡◌, refl, sym, false, some, [], ◌∷◌, arith, find_first, map}
use prime_pizza_backend.Coupon.{
  is_coupon, Coupon, CouponTables, count_for_user, coupon_issue, get_active_by_code, get_by_code,
  validate_coupon, validate_for_user,
}
use prime_pizza_backend.Pricing.{cart_subtotal, price_line}
use prime_pizza_backend.Commerce.{order_totals}
use prime_pizza_backend.Models.{Cart}
use prime_pizza_backend.Checkout.Redeemed.{Within, AllWithin}
use prime_pizza_backend.Checkout.Limited.{IsWithin, LeavesCoupons, shop_calls-IsWithin}
use prime_pizza_backend.Checkout.Numbers.{Numbering}
use prime_pizza_backend.Checkout.Numbered.{IsNumbered, LeavesNumbers, shop_calls-IsNumbered}
use prime_pizza_backend.Checkout.Stable.Requests.{ShopCall, order_call, shop_calls}
use prime_pizza_backend.Base.Exec.{Result, ok, err}
use prime_pizza_backend.Text.{Text, codes, upper, strip}
use prime_pizza_backend.Errors.{AppException}
use prime_pizza_backend.Orders.Views.{OrderDetailResponse, to_detail}
use prime_pizza_backend.Checkout.Draft.{PlaceOrderRequest}
use prime_pizza_backend.Checkout.Replay.{place_order_again}
use prime_pizza_backend.Cart.Service.{add_item, replace_cart}
use prime_pizza_backend.Cart.Lines.{validate_quantity, load_priced_entities, normalize_extras}
use prime_pizza_backend.Catalog.{get_product, variants_for_product, get_option, is_allowed_option}
use prime_pizza_backend.Cart.Edit.{add_line}
use prime_pizza_backend.Cart.Recalculate.{recalculate}
use prime_pizza_backend.Store.{Database, World}
use prime_pizza_backend.Cart.Calls.{add_call, cart_call}
use prime_pizza_backend.Checkout.Place.{place_order}
use prime_pizza_backend.Checkout.Placed.{Placement, place_order-Placement}
use prime_pizza_backend.Tests.Fixtures.{
  tenth, old_order, ana, settings, commerce, world, two_large, delivery,
}

-- The world with two large pizzas in the cart.
abbrev filled : World
filled = (cart_call settings commerce 1 (add_call two_large) world).1

place_order-Placement_example :
    Placement commerce ana delivery.idempotency_key filled
      (place_order settings commerce ana delivery filled)
place_order-Placement_example = place_order-Placement settings commerce ana delivery filled

abbrev placement : Result AppException OrderDetailResponse × World
placement = place_order settings commerce ana delivery filled

abbrev answer_of : Result AppException OrderDetailResponse → OrderDetailResponse
answer_of (ok r) = r
answer_of (err e) = to_detail old_order false

-- The same key with another note.
abbrev again : PlaceOrderRequest
again = record delivery { notes = some (codes "Ring twice") }

abbrev key_tail : Text → Text
key_tail [] = []
key_tail (c ∷ s) = s

place_order_again_example :
    place_order settings commerce ana again placement.1 ≡ (ok (answer_of placement.0), placement.1)
unfolding place_order cart_call add_item validate_quantity load_priced_entities get_product
    variants_for_product normalize_extras get_option is_allowed_option add_line replace_cart
    recalculate prime_pizza_backend.Addresses.get_for_user
place_order_again_example =
    place_order_again settings commerce ana delivery again filled placement.1
      (answer_of placement.0) 107 (key_tail (codes "key-0001")) refl refl refl
      (refl, (refl, (refl, tt))) refl

-- The coupon has not been used yet, and stands in the cart.
abbrev fresh : Coupon
fresh = record tenth { used_count = 0 }

abbrev fresh_tables : CouponTables
fresh_tables = record { coupons = fresh ∷ []; usages = [] }

abbrev couponed_database : Database
couponed_database = record filled.db {
  coupon_tables = fresh_tables;
  carts = map (λ (c : Cart). record c { coupon_id = some 20 }) filled.db.carts;
}

abbrev couponed : World
couponed = record filled { db = couponed_database; committed = couponed_database }

fresh-Within :
    (i : ℕ) (c : Coupon)
    → find_first (is_coupon i) fresh_tables.coupons ≡ some c
    → Within fresh_tables c
unfolding count_for_user
fresh-Within i c e =
    let same : fresh ≡ c = ground arith in
    rw (sym same)
      (record { counted = refl; within_limit = omega arith; within_user_limit = λ u. omega arith })

fresh-AllWithin : AllWithin fresh_tables
unfolding upper strip
fresh-AllWithin = record { is_unique = (refl, tt); is_normal = (refl, tt); within = fresh-Within }

abbrev requests : List (ShopCall LeavesCoupons)
requests = order_call commerce ana delivery ∷ []

shop_calls-IsWithin_example : IsWithin (shop_calls settings requests couponed)
shop_calls-IsWithin_example =
    shop_calls-IsWithin settings requests couponed
      (record { in_session = fresh-AllWithin; in_store = fresh-AllWithin })

-- The request uses the coupon.
shop_calls_run :
    map
      (λ (c : Coupon). c.used_count)
      (shop_calls settings requests couponed).db.coupon_tables.coupons
    ≡ 1 ∷ []
unfolding shop_calls place_order cart_call add_item validate_quantity load_priced_entities
    get_product variants_for_product normalize_extras get_option is_allowed_option add_line
    replace_cart recalculate prime_pizza_backend.Addresses.get_for_user validate_for_user
    get_active_by_code get_by_code upper strip validate_coupon coupon_issue count_for_user
    cart_subtotal price_line order_totals
shop_calls_run = refl

abbrev numbered_database : Database
numbered_database = record filled.db { orders = old_order ∷ []; sequences = (2026, 7) ∷ [] }

abbrev numbered : World
numbered = record filled { db = numbered_database; committed = numbered_database }

abbrev two_orders : List (ShopCall LeavesNumbers)
two_orders = order_call commerce ana delivery ∷ order_call commerce ana again ∷ []

shop_calls-IsNumbered_example : IsNumbered (shop_calls settings two_orders numbered)
shop_calls-IsNumbered_example =
    let one : Numbering ((2026, 7) ∷ []) ((2026, 7) ∷ []) = record {
      distinct = (refl, tt);
      drawn = (omega arith, tt);
    } in
    shop_calls-IsNumbered settings two_orders numbered (record { in_session = one; in_store = one })
