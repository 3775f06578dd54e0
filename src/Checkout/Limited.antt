-- ===== src/Checkout/Limited.antt =====
-- Requests to place an order and the limits of the coupons.
use prime_pizza_backend.Base.{List, ℕ, ◌≡◌, refl, Option, none, some, find_first}
use prime_pizza_backend.Base.Exec.{Result, ok, err, or_raise, pure, gets, modify, ◌>>=◌}
use prime_pizza_backend.Errors.{AppException, validation_exception, text}
use prime_pizza_backend.Commerce.{CommerceConfig}
use prime_pizza_backend.Coupon.{is_coupon, Coupon, CouponValidationResponse, validate_for_user}
use prime_pizza_backend.Models.{User, Cart}
use prime_pizza_backend.Store.{World, Service}
use prime_pizza_backend.Cart.Lines.{Settings}
use prime_pizza_backend.Cart.Recalculate.{coupon_of}
use prime_pizza_backend.Cart.Service.{new_id}
use prime_pizza_backend.Checkout.Draft.{
  PlaceOrderRequest, destination, new_order, next_order_number, redeem, with_usage,
}
use prime_pizza_backend.Checkout.Place.{draft_order}
use prime_pizza_backend.Checkout.Redeemed.{after-AllWithin}
use prime_pizza_backend.Checkout.Place.{checked_order, close_order, ready_cart}
use prime_pizza_backend.Store.{rolled_back}
use prime_pizza_backend.Checkout.Redeemed.{AllWithin}
use prime_pizza_backend.Checkout.Stable.{Stable, Keeps, Keeps-by, Keeps-bind, untouched}
use prime_pizza_backend.Checkout.Stable.Steps.{Keeps-ready, Keeps-destination, close_keeps}
use prime_pizza_backend.Checkout.Stable.Requests.{ShopCall, shop_calls, shop_calls_keep}

-- Of the rows of the session and of those that are committed.
pub record IsWithin (w : World) : Type 0 where
  pub in_session : AllWithin w.db.coupon_tables
  pub in_store : AllWithin w.committed.coupon_tables

pub IsWithin-same :
    (w w' : World)
    → w'.db.coupon_tables ≡ w.db.coupon_tables
    → w'.committed.coupon_tables ≡ w.committed.coupon_tables
    → IsWithin w
    → IsWithin w'
IsWithin-same w w' db committed h = record {
  in_session = rw db h.in_session;
  in_store = rw committed h.in_store;
}

stable : Stable IsWithin
stable = record {
  same = λ w w' db committed h. IsWithin-same w w' db.coupon_tables committed.coupon_tables h;
  stored = λ w h. record { in_session = h.in_session; in_store = h.in_session };
}

back : (w : World) → IsWithin w → IsWithin (rolled_back w)
back w h = record { in_session = h.in_store; in_store = h.in_store }

module _ (settings : Settings) (commerce : CommerceConfig) (user : User) where
  -- What follows the query for the coupon's row.
  abbrev use_coupon : Cart → ℕ → Coupon → World → World
  use_coupon cart order_id coupon w = record w {
    db = record w.db { coupon_tables = with_usage coupon user.id cart order_id w.db.coupon_tables };
  }

  abbrev use_of : Cart → ℕ → Coupon → Service (Unit {0})
  use_of cart order_id coupon = do
    _ ← (λ w. (validate_for_user w.db.coupon_tables w.now coupon.code user.id cart.subtotal, w))
    modify (use_coupon cart order_id coupon)

  used-IsWithin :
      (v : Result AppException CouponValidationResponse) (cart : Cart) (order_id coupon_id : ℕ)
      (coupon : Coupon) (w : World)
      → IsWithin w
      → find_first (is_coupon coupon_id) w.db.coupon_tables.coupons ≡ some coupon
      → validate_for_user w.db.coupon_tables w.now coupon.code user.id cart.subtotal ≡ v
      → IsWithin (((λ w. (v, w)) >>= λ _. modify (use_coupon cart order_id coupon)) w).1
  used-IsWithin (err e) cart order_id coupon_id coupon w h found valid = h
  used-IsWithin (ok r) cart order_id coupon_id coupon w h found valid = record {
    in_session =
        after-AllWithin w.db.coupon_tables cart user.id order_id w.now coupon_id coupon r
          h.in_session found valid;
    in_store = h.in_store;
  }

  found-IsWithin :
      (o : Option Coupon) (e : AppException) (cart : Cart) (order_id coupon_id : ℕ) (w : World)
      → IsWithin w
      → find_first (is_coupon coupon_id) w.db.coupon_tables.coupons ≡ o
      → IsWithin (((λ w. or_raise o e w) >>= use_of cart order_id) w).1
  found-IsWithin none e cart order_id coupon_id w h found = h
  found-IsWithin (some c) e cart order_id coupon_id w h found =
      used-IsWithin (validate_for_user w.db.coupon_tables w.now c.code user.id cart.subtotal) cart
        order_id coupon_id c w h found refl

  Keeps-redeem :
      (cart : Cart) (order_id : ℕ) (o : Option ℕ) → Keeps IsWithin (redeem user cart order_id o)
  unfolding redeem
  Keeps-redeem cart order_id none = Keeps-by IsWithin _ (λ w h. h)
  Keeps-redeem cart order_id (some coupon_id) =
      Keeps-by IsWithin (redeem user cart order_id (some coupon_id)) λ w h.
        found-IsWithin (find_first (is_coupon coupon_id) w.db.coupon_tables.coupons)
          (validation_exception (text "Coupon is no longer available")) cart order_id coupon_id w h
          refl

  Keeps-draft :
      (payload : PlaceOrderRequest) (cart : Cart)
      → Keeps IsWithin (draft_order settings commerce user payload cart)
  unfolding draft_order next_order_number
  Keeps-draft payload cart =
      Keeps-bind IsWithin (destination user payload payload.address_id) _
        (Keeps-destination IsWithin stable settings commerce user payload payload.address_id)
        λ target.
          Keeps-bind IsWithin next_order_number _
            (Keeps-by IsWithin next_order_number (λ w h. IsWithin-same w _ refl refl h))
            λ order_number.
              Keeps-bind IsWithin new_id _
                (Keeps-by IsWithin new_id
                  (λ w h. untouched IsWithin stable w _ refl refl refl refl h))
                λ order_id.
                  Keeps-bind IsWithin
                    (gets (λ w.
                      new_order settings w user payload cart
                        (coupon_of w.db.coupon_tables cart.coupon_id) target order_number order_id))
                    _ (Keeps-by IsWithin _ (λ w h. h))
                    λ order.
                      Keeps-bind IsWithin (redeem user cart order_id cart.coupon_id)
                        (λ _. pure order) (Keeps-redeem cart order_id cart.coupon_id)
                        (λ _. Keeps-by IsWithin (pure order) (λ w h. h))

  checked-IsWithin :
      (payload : PlaceOrderRequest) (w : World)
      → IsWithin w
      → IsWithin (checked_order settings commerce user payload w).1
  unfolding checked_order
  checked-IsWithin payload w h =
      ((Keeps-bind IsWithin (ready_cart settings commerce user payload) _
          (Keeps-ready IsWithin stable settings commerce user payload)
          λ cart.
            Keeps-bind IsWithin (draft_order settings commerce user payload cart)
              (close_order settings commerce user payload cart) (Keeps-draft payload cart)
              λ order.
                Keeps-by IsWithin (close_order settings commerce user payload cart order) λ w h.
                  close_keeps IsWithin stable settings commerce user payload cart order w
                    (record { in_session = h.in_session; in_store = h.in_store })).run
        w h).0

-- The tables of coupons are as before.
pub record LeavesCoupons (w w' : World) : Type 0 where
  pub in_session : w'.db.coupon_tables ≡ w.db.coupon_tables
  pub in_store : w'.committed.coupon_tables ≡ w.committed.coupon_tables

-- From tables of coupons, stored and committed, in which no two coupons that are not deleted have
-- one code, every code is stripped and in upper case, every coupon's counter is the number of its
-- uses, and no coupon is over its limit or that of a user: after any sequence of requests to place
-- an order, of any users, successful or refused, with anything between them that leaves the tables
-- of coupons alone, this holds again.
pub shop_calls-IsWithin :
    (settings : Settings) (cs : List (ShopCall LeavesCoupons)) (w : World)
    → IsWithin w
    → IsWithin (shop_calls settings cs w)
shop_calls-IsWithin settings cs w h =
    shop_calls_keep IsWithin stable back settings (checked-IsWithin settings) LeavesCoupons
      (λ w w' l h. IsWithin-same w w' l.in_session l.in_store h) cs w h
