-- ===== src/Checkout/Drafted.antt =====
-- The order that a checkout drafts, and what drafting it keeps.
use prime_pizza_backend.Orders.Manage.{add_timeline}
use prime_pizza_backend.Enums.{pending, payment_pending}
use prime_pizza_backend.Coupon.{is_coupon, Coupon, validate_for_user}
use prime_pizza_backend.Base.{map, ℕ, ◌≡◌, refl, ◌∙◌, sym, false, Option, none, some, find_first}
use prime_pizza_backend.Base.Exec.{or_raise, pure, gets, modify, ok-injective}
use prime_pizza_backend.Base.Hoare.{Safe-pure, Safe-ask, Safe, Safe-bind}
use prime_pizza_backend.Errors.{not_found_exception, AppException, text, validation_exception}
use prime_pizza_backend.Catalog.{Catalog}
use prime_pizza_backend.Commerce.{CommerceConfig}
use prime_pizza_backend.Models.{Snapshot, User, Cart, Order}
use prime_pizza_backend.Store.{World}
use prime_pizza_backend.Addresses.{get_for_user as get_address}
use prime_pizza_backend.Cart.Lines.{Settings}
use prime_pizza_backend.Cart.Recalculate.{coupon_of, live_items}
use prime_pizza_backend.Cart.Service.{new_id}
use prime_pizza_backend.Checkout.Draft.{
  PlaceOrderRequest, address_snapshot, destination, new_order, next_order_number, order_item,
  redeem, with_coordinates, with_usage,
}
use prime_pizza_backend.Checkout.Place.{draft_order}
use prime_pizza_backend.Checkout.Ready.{Before}

-- A new order of a user, with the lines and the totals of a cart.
pub record FromCart (c : Catalog) (user : User) (cart : Cart) (order : Order) : Type 0 where
  pub owner : order.user_id ≡ user.id
  pub is_new : order.status ≡ pending
  pub unpaid : order.payment_status ≡ payment_pending
  pub present : order.deleted ≡ false
  pub lines : order.items ≡ map (order_item c) (live_items cart.items)
  pub subtotal : order.subtotal ≡ cart.subtotal
  pub discount : order.discount ≡ cart.discount
  pub delivery_fee : order.delivery_fee ≡ cart.delivery_fee
  pub tax : order.tax ≡ cart.tax
  pub grand_total : order.grand_total ≡ cart.grand_total

new_order-FromCart :
    (settings : Settings) (w : World) (user : User) (payload : PlaceOrderRequest) (cart : Cart)
    (coupon : Option Coupon) (target : Option ℕ × Snapshot) (order_number : ℕ × ℕ) (order_id : ℕ)
    → FromCart w.db.catalog user cart
        (new_order settings w user payload cart coupon target order_number order_id)
unfolding new_order add_timeline
new_order-FromCart settings w user payload cart coupon (a, s) order_number order_id = record {
  owner = refl;
  is_new = refl;
  unpaid = refl;
  present = refl;
  lines = refl;
  subtotal = refl;
  discount = refl;
  delivery_fee = refl;
  tax = refl;
  grand_total = refl;
}

module _ (settings : Settings) (commerce : CommerceConfig) (w0 : World) (user : User)
    (start : Cart) where
  abbrev Kept : World → Type 0
  Kept = Before w0 user.id start

  Safe-destination :
      (payload : PlaceOrderRequest) (o : Option ℕ)
      → Safe Kept (λ _. Unit {0}) (destination user payload o)
  unfolding destination
  Safe-destination payload none = Safe-pure Kept (λ _. Unit {0}) _ tt
  Safe-destination payload (some address_id) =
      Safe-bind Kept (λ _. Unit {0}) (λ _. Unit {0})
        (λ w.
          or_raise (get_address w.db.addresses address_id user.id)
            (not_found_exception (text "Address not found")) w)
        _ (Safe-ask Kept (λ w. get_address w.db.addresses address_id user.id) _)
        λ a _.
          Safe-pure Kept (λ _. Unit {0}) (some a.id, with_coordinates payload (address_snapshot a))
            tt

  same-Kept :
      (w w' : World)
      → w'.committed ≡ w.committed
      → w'.db.orders ≡ w.db.orders
      → w'.db.catalog ≡ w.db.catalog
      → w'.db.carts ≡ w.db.carts
      → Kept w
      → Kept w'
  same-Kept w w' h1 h2 h3 h4 b = record {
    same_committed = h1 ∙ b.same_committed;
    same_orders = h2 ∙ b.same_orders;
    same_catalog = h3 ∙ b.same_catalog;
    cart = b.cart;
    has_cart = rw h4 b.has_cart;
    same_cart = b.same_cart;
  }

  Safe-number : Safe Kept (λ _. Unit {0}) next_order_number
  unfolding next_order_number
  Safe-number = record { run = λ w b. (same-Kept w _ refl refl refl refl b, λ _ _. tt) }

  Safe-id : Safe Kept (λ _. Unit {0}) new_id
  Safe-id = record { run = λ w b. (same-Kept w _ refl refl refl refl b, λ _ _. tt) }

  Safe-redeem :
      (cart : Cart) (order_id : ℕ) (o : Option ℕ)
      → Safe Kept (λ _. Unit {0}) (redeem user cart order_id o)
  unfolding redeem
  Safe-redeem cart order_id none = Safe-pure Kept (λ _. Unit {0}) tt tt
  Safe-redeem cart order_id (some coupon_id) =
      Safe-bind Kept (λ _. Unit {0}) (λ _. Unit {0})
        (λ w.
          or_raise (find_first (is_coupon coupon_id) w.db.coupon_tables.coupons)
            (validation_exception (text "Coupon is no longer available")) w)
        _ (Safe-ask Kept (λ w. find_first (is_coupon coupon_id) w.db.coupon_tables.coupons) _)
        λ coupon _.
          Safe-bind Kept (λ _. Unit {0}) (λ _. Unit {0})
            (λ w. (validate_for_user w.db.coupon_tables w.now coupon.code user.id cart.subtotal, w))
            (λ _. modify (λ w. record w {
              db = record w.db {
                coupon_tables = with_usage coupon user.id cart order_id w.db.coupon_tables;
              };
            }))
            (record { run = λ w b. (b, λ _ _. tt) })
            (λ _ _. record { run = λ w b. (same-Kept w _ refl refl refl refl b, λ _ _. tt) })

  Safe-new_order :
      (payload : PlaceOrderRequest) (cart : Cart) (target : Option ℕ × Snapshot)
      (order_number : ℕ × ℕ) (order_id : ℕ)
      → Safe {E = AppException} Kept (FromCart w0.db.catalog user cart) (
          gets (λ w.
            new_order settings w user payload cart
              (coupon_of w.db.coupon_tables cart.coupon_id)
              target
              order_number
              order_id))
  Safe-new_order payload cart target order_number order_id = record {
    run = λ w b. (
      b,
      λ order e.
          let c = coupon_of w.db.coupon_tables cart.coupon_id in
          rw
            (
              sym (
                  ok-injective
                    (new_order settings w user payload cart c target order_number order_id) order
                    e),
              sym b.same_catalog,
            )
            (new_order-FromCart settings w user payload cart c target order_number order_id),
    );
  }

  pub Safe-draft :
      (payload : PlaceOrderRequest) (cart : Cart)
      → Safe Kept
          (FromCart w0.db.catalog user cart)
          (draft_order settings commerce user payload cart)
  unfolding draft_order
  Safe-draft payload cart =
      let Q = FromCart w0.db.catalog user cart in
      Safe-bind Kept (λ _. Unit {0}) Q (destination user payload payload.address_id) _
        (Safe-destination payload payload.address_id)
        λ target _.
          Safe-bind Kept (λ _. Unit {0}) Q next_order_number _ Safe-number
            λ order_number _.
              Safe-bind Kept (λ _. Unit {0}) Q new_id _ Safe-id
                λ order_id _.
                  Safe-bind Kept Q Q
                    (gets (λ w.
                      new_order settings w user payload cart
                        (coupon_of w.db.coupon_tables cart.coupon_id) target order_number order_id))
                    _ (Safe-new_order payload cart target order_number order_id)
                    λ order from.
                      Safe-bind Kept (λ _. Unit {0}) Q (redeem user cart order_id cart.coupon_id)
                        (λ _. pure order) (Safe-redeem cart order_id cart.coupon_id)
                        (λ _ _. Safe-pure Kept Q order from)
