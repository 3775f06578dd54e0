-- ===== src/Tests/Carts.antt =====
-- Carts and addresses.
use prime_pizza_backend.Base.{ℕ, ◌≡◌, refl, true, false, none, some, List, [], ◌∷◌, arith, All}
use prime_pizza_backend.Base.Exec.{Result, ok, err}
use prime_pizza_backend.Text.{codes, upper, strip}
use prime_pizza_backend.Errors.{AppException}
use prime_pizza_backend.Money.{money}
use prime_pizza_backend.Pricing.{price_line, cart_subtotal}
use prime_pizza_backend.Commerce.{calculate_fee, calculate_tax, order_totals}
use prime_pizza_backend.Catalog.{get_product, variants_for_product, get_option}
use prime_pizza_backend.Coupon.{
  validate_for_user, get_active_by_code, get_by_code, validate_coupon, coupon_issue, count_for_user,
  validation_response, calculate_discount,
}
use prime_pizza_backend.Cart.Lines.{load_priced_entities}
use prime_pizza_backend.Models.{User, Cart}
use prime_pizza_backend.Store.{World}
use prime_pizza_backend.Cart.Recalculate.{recalculate, cart_discount}
use prime_pizza_backend.Cart.Priced.{IsPriced, recalculate-IsPriced}
use prime_pizza_backend.Cart.Service.{empty_cart, CartResponse}
use prime_pizza_backend.Cart.Calls.{
  CartCall, add_call, remove_call, clear_call, apply_call, cart_call,
}
use prime_pizza_backend.Cart.Bounds.{InBounds}
use prime_pizza_backend.Cart.Within.{AllInBounds}
use prime_pizza_backend.Cart.Limits.{cart_calls, cart_calls-AllInBounds}
use prime_pizza_backend.Addresses.Default.{OneDefault}
use prime_pizza_backend.Addresses.Default.Calls.{
  AddressCall, create_call, delete_call, default_call, address_calls, address_calls-OneDefault,
}
use prime_pizza_backend.Tests.Fixtures.{
  ana, cook, shop, tables, home_details, settings, commerce, world, two_large,
}

abbrev ok_or : {E A : Type 0} → Result E A → A → A
ok_or (ok a) _ = a
ok_or (err _) d = d

-- One large pizza, not priced yet, and the coupon.
abbrev unpriced : Cart
unpriced = record (empty_cart 50 1 900) {
  coupon_id = some 20;
  items =
      record {
        id = 60;
        product_id = 10;
        variant_id = some 11;
        quantity = 1;
        unit_price = 0;
        discount_price = none;
        subtotal = 0;
        special_instructions = none;
        extras_snapshot = [];
        extras = record { option_id = 12; quantity = 2; unit_price = 0; deleted = false } ∷ [];
        deleted = false;
      }
      ∷ [];
}

abbrev priced : Cart
priced = ok_or (recalculate commerce shop tables 1000 unpriced) unpriced

priced_lem : recalculate commerce shop tables 1000 unpriced ≡ ok priced
unfolding recalculate load_priced_entities get_product variants_for_product get_option
priced_lem = refl

-- 1500.00 and twice 50.25, less 10 percent, and 5 percent tax
priced_test : (priced.subtotal ≡ 160050) × (priced.grand_total ≡ 166247)
unfolding recalculate load_priced_entities get_product variants_for_product get_option cart_subtotal
    price_line cart_discount validate_for_user get_active_by_code get_by_code upper strip
    validate_coupon coupon_issue count_for_user validation_response calculate_discount calculate_fee
    calculate_tax order_totals money
priced_test = (refl, refl)

recalculate-IsPriced_example : IsPriced commerce shop priced
recalculate-IsPriced_example =
    recalculate-IsPriced commerce shop tables 1000 unpriced priced priced_lem

abbrev after_add : Result AppException CartResponse × World
after_add = cart_call settings commerce 1 (add_call two_large) world

abbrev no_response : CartResponse
no_response = record { cart = unpriced; item_count = 0 }

abbrev busy_cart : List (ℕ × CartCall)
busy_cart =
    (1, add_call two_large)
    ∷ (2, add_call two_large)
    ∷ (1, apply_call (codes "tenth"))
    ∷ (1, remove_call 100)
    ∷ (2, clear_call)
    ∷ []

world-AllInBounds : AllInBounds settings world
world-AllInBounds =
    let one : All (InBounds settings) world.db.carts =
      (record { quantities = tt; few = omega arith }, tt) in
    record { in_session = one; in_store = one }

cart_calls-AllInBounds_example : AllInBounds settings (cart_calls settings commerce busy_cart world)
cart_calls-AllInBounds_example =
    cart_calls-AllInBounds settings commerce busy_cart world world-AllInBounds

world-OneDefault : OneDefault world.db.addresses
world-OneDefault user_id = ground arith

abbrev moving_day : List (User × AddressCall)
moving_day =
    (ana, create_call record { details = home_details; is_default = true })
    ∷ (cook, create_call record { details = home_details; is_default = false })
    ∷ (ana, delete_call 100)
    ∷ (ana, default_call 30)
    ∷ []

address_calls-OneDefault_example : OneDefault (address_calls 10 moving_day world).db.addresses
address_calls-OneDefault_example = address_calls-OneDefault 10 moving_day world world-OneDefault
