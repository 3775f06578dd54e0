-- ===== src/Checkout/Place.antt =====
-- `OrderService.place_order`. The order's own coordinates, the synchronisation with the mirror
-- and the emails after the commit are left out: nothing that follows depends on them.
use prime_pizza_backend.Base.{
  ℕ, Bool, true, false, not, Option, none, some, [], ◌∷◌, ◌++◌, if◌then◌else◌,
}
use prime_pizza_backend.Base.Exec.{
  Result, ok, err, pure, raise, gets, or_raise, raise_if, modify, ◌>>=◌, ◌>>◌,
}
use prime_pizza_backend.Errors.{
  AppException, validation_exception, conflict_exception, assertion_error, text,
}
use prime_pizza_backend.Enums.{
  PaymentMethod, cash_on_delivery, card, online, wallet, CartStatus, active, checkout_ready,
  abandoned, converted,
}
use prime_pizza_backend.Commerce.{CommerceConfig}
use prime_pizza_backend.Models.{User, Cart, Order}
use prime_pizza_backend.Store.{World, Service, commit, rolled_back}
use prime_pizza_backend.Orders.Table.{get_detail, get_for_user}
use prime_pizza_backend.Orders.Views.{OrderDetailResponse, to_detail}
use prime_pizza_backend.Orders.Manage.{invalidate_order}
use prime_pizza_backend.Cart.Lines.{Settings}
use prime_pizza_backend.Cart.Recalculate.{live_items, coupon_of}
use prime_pizza_backend.Cart.Edit.{converted_cart}
use prime_pizza_backend.Cart.Service.{get_active, save_cart, new_id, priced_cart, invalidate_user}
use prime_pizza_backend.Checkout.Issues.{validate, is_nil}
use prime_pizza_backend.Checkout.Draft.{
  PlaceOrderRequest, destination, new_order, next_order_number, redeem,
}
use prime_pizza_backend.Checkout.Redis.{
  acquire_checkout_lock, get_idempotent_order_id, release_checkout_lock, store_idempotent_order_id,
}

abbrev pub is_converted : CartStatus → Bool
is_converted converted = true
is_converted active = false
is_converted checkout_ready = false
is_converted abandoned = false

abbrev pub open_cart : Option Cart → Service Cart
open_cart none = raise (validation_exception (text "Cart is empty or already checked out"))
open_cart (some cart) =
    if is_converted cart.status
    then raise (validation_exception (text "Cart is empty or already checked out"))
    else pure cart

abbrev pub find_open_cart : ℕ → Service Cart
find_open_cart user_id w = open_cart (get_active w.db.carts user_id) w

abbrev pub add_order : Order → World → World
add_order order w = record w { db = record w.db { orders = w.db.orders ++ order ∷ [] } }

abbrev pub is_online : PaymentMethod → Bool
is_online online = true
is_online cash_on_delivery = false
is_online card = false
is_online wallet = false

abbrev pub is_cash : PaymentMethod → Bool
is_cash cash_on_delivery = true
is_cash online = false
is_cash card = false
is_cash wallet = false

module _ (settings : Settings) (commerce : CommerceConfig) where
  -- The steps before anything of the order is written.
  unfoldable pub ready_cart : User → PlaceOrderRequest → Service Cart
  unfolding get_active validate priced_cart
  ready_cart user payload = do
    raise_if (is_online payload.payment_method)
        (validation_exception (text "Online payment is not available yet"))
    raise_if (not (is_cash payload.payment_method))
        (validation_exception (text "Unsupported payment method"))
    _ ← find_open_cart user.id
    validation ← validate settings commerce user false
    raise_if (not validation.is_valid) (validation_exception (text "Checkout validation failed"))
    cart ← find_open_cart user.id
    priced ← priced_cart settings commerce cart
    modify (save_cart priced)
    raise_if (is_nil (live_items priced.items)) (validation_exception (text "Cart is empty"))
    pure priced

  -- From the address to the coupon's use: the order that is to be written.
  unfoldable pub draft_order : User → PlaceOrderRequest → Cart → Service Order
  unfolding destination next_order_number redeem new_order coupon_of
  draft_order user payload cart = do
    target ← destination user payload payload.address_id
    order_number ← next_order_number
    order_id ← new_id
    order ← gets (λ w.
        new_order settings w user payload cart (coupon_of w.db.coupon_tables cart.coupon_id) target
          order_number order_id)
    _ ← redeem user cart order_id cart.coupon_id
    pure order

  -- The order and its rows, which are written before the coupon's use in the source (the use reads
  -- no order), the cart's conversion, the commit and what follows it.
  unfoldable pub close_order : User → PlaceOrderRequest → Cart → Order → Service OrderDetailResponse
  unfolding converted_cart invalidate_user store_idempotent_order_id invalidate_order get_detail
  close_order user payload cart order = do
    modify (add_order order)
    modify (λ w. save_cart (converted_cart w.now cart) w)
    modify (invalidate_user user.id)
    commit
    modify (invalidate_order order.id)
    modify (invalidate_user user.id)
    modify (store_idempotent_order_id user.id payload.idempotency_key order.id)
    detail ← (λ w. or_raise (get_detail w.db.orders order.id) assertion_error w)
    pure (to_detail detail false)

  -- The body of the `try`.
  unfoldable pub checked_order : User → PlaceOrderRequest → Service OrderDetailResponse
  unfolding ready_cart draft_order close_order
  checked_order user payload = do
    cart ← ready_cart user payload
    order ← draft_order user payload cart
    close_order user payload cart order

  -- `except Exception: rollback; raise`, and `finally`
  abbrev pub settle_checkout :
      ℕ
      → Result AppException OrderDetailResponse × World
      → Result AppException OrderDetailResponse × World
  settle_checkout user_id (ok r, w) = (ok r, release_checkout_lock user_id w)
  settle_checkout user_id (err e, w) = (err e, release_checkout_lock user_id (rolled_back w))

  abbrev pub locked_order :
      User → PlaceOrderRequest → Bool × World → Result AppException OrderDetailResponse × World
  locked_order user payload (true, w) = settle_checkout user.id (checked_order user payload w)
  locked_order user payload (false, w) =
      (err (conflict_exception (text "Checkout already in progress. Please wait.")), w)

  -- The order that an earlier request with the same key has placed.
  abbrev pub earlier_order : ℕ → Option ℕ → World → Option Order
  earlier_order user_id none w = none
  earlier_order user_id (some order_id) w = get_for_user w.db.orders order_id user_id

  abbrev pub replay_or_place : User → PlaceOrderRequest → Option Order → Service OrderDetailResponse
  replay_or_place user payload (some order) w = (ok (to_detail order false), w)
  replay_or_place user payload none w = locked_order user payload (acquire_checkout_lock user.id w)

  unfoldable pub place_order : User → PlaceOrderRequest → Service OrderDetailResponse
  unfolding checked_order acquire_checkout_lock release_checkout_lock get_idempotent_order_id
      get_for_user
  place_order user payload w =
      replay_or_place user payload
        (earlier_order user.id (get_idempotent_order_id user.id payload.idempotency_key w) w) w
