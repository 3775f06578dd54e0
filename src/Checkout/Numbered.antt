-- ===== src/Checkout/Numbered.antt =====
-- Requests to place an order and the numbers of the orders.
use prime_pizza_backend.Base.{
  ap, ℕ, ◌≡◌, refl, sym, ◌∙◌, Option, none, some, List, [], ◌∷◌, map, find_first,
}
use mathlib.Core.List.{map-append}
use prime_pizza_backend.Base.Exec.{
  Result, ok, err, or_raise, pure, gets, modify, ok-injective, ◌>>=◌,
}
use prime_pizza_backend.Base.Hoare.{Safe, Safe-bind, Safe-pure, Good}
use prime_pizza_backend.Errors.{AppException, validation_exception, text}
use prime_pizza_backend.Commerce.{CommerceConfig}
use prime_pizza_backend.Coupon.{is_coupon, Coupon, validate_for_user}
use prime_pizza_backend.Models.{User, Cart, Order, Snapshot}
use prime_pizza_backend.Store.{Database, World, Service, rolled_back}
use prime_pizza_backend.Orders.Manage.{add_timeline}
use prime_pizza_backend.Cart.Lines.{Settings}
use prime_pizza_backend.Cart.Recalculate.{coupon_of}
use prime_pizza_backend.Cart.Service.{new_id}
use prime_pizza_backend.Checkout.Draft.{
  PlaceOrderRequest, bump, destination, new_order, next_order_number, redeem, with_usage,
}
use prime_pizza_backend.Checkout.Place.{checked_order, close_order, draft_order, ready_cart}
use prime_pizza_backend.Checkout.Numbers.{Numbering, Reserved, bump-Reserved, add-Numbering}
use prime_pizza_backend.Checkout.Stable.{Stable, Keeps, Keeps-by, Keeps-bind, Keeps-ask}
use prime_pizza_backend.Checkout.Stable.Steps.{Keeps-ready, Keeps-destination, close_keeps}
use prime_pizza_backend.Checkout.Stable.Requests.{ShopCall, shop_calls, shop_calls_keep}

abbrev pub numbers : Database → List (ℕ × ℕ)
numbers d = map (λ o. o.order_number) d.orders

-- Of the orders of the session and of those that are committed.
pub record IsNumbered (w : World) : Type 0 where
  pub in_session : Numbering (numbers w.db) w.db.sequences
  pub in_store : Numbering (numbers w.committed) w.committed.sequences

pub record LeavesNumbers (w w' : World) : Type 0 where
  pub numbers_kept : numbers w'.db ≡ numbers w.db
  pub sequences_kept : w'.db.sequences ≡ w.db.sequences
  pub stored_numbers : numbers w'.committed ≡ numbers w.committed
  pub stored_sequences : w'.committed.sequences ≡ w.committed.sequences

IsNumbered-left : (w w' : World) → LeavesNumbers w w' → IsNumbered w → IsNumbered w'
IsNumbered-left w w' l h = record {
  in_session = rw (l.numbers_kept, l.sequences_kept) h.in_session;
  in_store = rw (l.stored_numbers, l.stored_sequences) h.in_store;
}

stable : Stable IsNumbered
stable = record {
  same = λ w w' db committed h.
      IsNumbered-left w w'
        (record {
          numbers_kept = ap (map (λ o. o.order_number)) db.orders;
          sequences_kept = db.sequences;
          stored_numbers = ap (map (λ o. o.order_number)) committed.orders;
          stored_sequences = committed.sequences;
        })
        h;
  stored = λ w h. record { in_session = h.in_session; in_store = h.in_session };
}

back : (w : World) → IsNumbered w → IsNumbered (rolled_back w)
back w h = record { in_session = h.in_store; in_store = h.in_store }

-- The number `r` has been drawn for an order that is not written yet.
record HasReserved (r : ℕ × ℕ) (w : World) : Type 0 where
  in_session : Reserved r (numbers w.db) w.db.sequences
  in_store : Numbering (numbers w.committed) w.committed.sequences

new_order-number :
    (settings : Settings) (w : World) (user : User) (payload : PlaceOrderRequest) (cart : Cart)
    (coupon : Option Coupon) (target : Option ℕ × Snapshot) (r : ℕ × ℕ) (order_id : ℕ)
    → (new_order settings w user payload cart coupon target r order_id).order_number ≡ r
unfolding new_order add_timeline
new_order-number settings w user payload cart coupon (a, s) r order_id = refl

-- How the draft ends: with an order under a number that is reserved for it, or not at all.
abbrev Drafted : Result AppException Order × World → Type 0
Drafted (ok order, w) = HasReserved order.order_number w
Drafted (err e, w) = IsNumbered w

released : (r : ℕ × ℕ) (w : World) → HasReserved r w → IsNumbered w
released r w h = record { in_session = h.in_session.numbering; in_store = h.in_store }

Drafted-of :
    (r : ℕ × ℕ) (p : Result AppException Order × World)
    → Good (HasReserved r) (λ (order : Order). order.order_number ≡ r) p
    → Drafted p
Drafted-of r (ok order, w) (h, q) = rw (q order refl) h
Drafted-of r (err e, w) (h, q) = released r w h

module _ (settings : Settings) (commerce : CommerceConfig) (user : User) where
  module _ (r : ℕ × ℕ) where
    Keeps-redeem :
        (cart : Cart) (order_id : ℕ) (o : Option ℕ)
        → Keeps (HasReserved r) (redeem user cart order_id o)
    unfolding redeem
    Keeps-redeem cart order_id none = Keeps-by (HasReserved r) (pure tt) (λ w h. h)
    Keeps-redeem cart order_id (some coupon_id) =
        Keeps-bind (HasReserved r)
          (λ w.
            or_raise (find_first (is_coupon coupon_id) w.db.coupon_tables.coupons)
              (validation_exception (text "Coupon is no longer available")) w)
          _
          (Keeps-ask (HasReserved r)
            (λ w. find_first (is_coupon coupon_id) w.db.coupon_tables.coupons) _)
          λ coupon.
            Keeps-bind (HasReserved r)
              (λ w.
                (validate_for_user w.db.coupon_tables w.now coupon.code user.id cart.subtotal, w))
              (λ _. modify (λ w. record w {
                db = record w.db {
                  coupon_tables = with_usage coupon user.id cart order_id w.db.coupon_tables;
                };
              }))
              (Keeps-by (HasReserved r) _ (λ w h. h))
              (λ _.
                Keeps-by (HasReserved r) _
                  (λ w h. record { in_session = h.in_session; in_store = h.in_store }))

    -- The draft from the order's number on.
    abbrev rest_of : PlaceOrderRequest → Cart → Option ℕ × Snapshot → Service Order
    rest_of payload cart target = do
      order_id ← new_id
      order ← gets (λ w.
          new_order settings w user payload cart (coupon_of w.db.coupon_tables cart.coupon_id)
            target r order_id)
      _ ← redeem user cart order_id cart.coupon_id
      pure order

    Safe-rest :
        (payload : PlaceOrderRequest) (cart : Cart) (target : Option ℕ × Snapshot)
        → Safe (HasReserved r) (λ order. order.order_number ≡ r) (rest_of payload cart target)
    Safe-rest payload cart target =
        let Q = λ (order : Order). order.order_number ≡ r in
        Safe-bind (HasReserved r) (λ _. Unit {0}) Q new_id _
          (Keeps-by (HasReserved r) new_id
            (λ w h. record { in_session = h.in_session; in_store = h.in_store }))
          λ order_id _.
            Safe-bind (HasReserved r) Q Q
              (gets (λ w.
                new_order settings w user payload cart (coupon_of w.db.coupon_tables cart.coupon_id)
                  target r order_id))
              _
              (record {
                run = λ w h. (
                  h,
                  λ order e.
                      let coupon = coupon_of w.db.coupon_tables cart.coupon_id in
                      ap (λ o. o.order_number) (sym (ok-injective _ order e))
                      ∙ new_order-number settings w user payload cart coupon target r order_id,
                );
              })
              λ order same.
                Safe-bind (HasReserved r) (λ _. Unit {0}) Q
                  (redeem user cart order_id cart.coupon_id) (λ _. pure order)
                  (Keeps-redeem cart order_id cart.coupon_id)
                  (λ _ _. Safe-pure (HasReserved r) Q order same)

  numbered_rest :
      (payload : PlaceOrderRequest) (cart : Cart) (target : Option ℕ × Snapshot) (w : World)
      → IsNumbered w
      → Drafted ((next_order_number >>= λ r. rest_of r payload cart target) w)
  unfolding next_order_number
  numbered_rest payload cart target w h =
      let (n, rows) = bump w.year w.db.sequences in
      let r : ℕ × ℕ = (w.year, n) in
      let w' = record w { db = record w.db { sequences = rows } } in
      Drafted-of r (rest_of r payload cart target w') (
        (Safe-rest r payload cart target).run w' (record {
          in_session = bump-Reserved w.year (numbers w.db) w.db.sequences h.in_session;
          in_store = h.in_store;
        }))

  bind-Drafted :
      {A : Type 0} (p : Result AppException A × World) (k : A → Service Order) (w : World)
      → IsNumbered p.1
      → ((a : A) (t : World) → IsNumbered t → Drafted (k a t))
      → Drafted (((λ _. p) >>= k) w)
  bind-Drafted (ok a, t) k w h hk = hk a t h
  bind-Drafted (err e, t) k w h hk = h

  draft_order-Drafted :
      (payload : PlaceOrderRequest) (cart : Cart) (w : World)
      → IsNumbered w
      → Drafted (draft_order settings commerce user payload cart w)
  unfolding draft_order
  draft_order-Drafted payload cart w h =
      bind-Drafted (destination user payload payload.address_id w)
        (λ target. next_order_number >>= λ r. rest_of r payload cart target) w
        ((Keeps-destination IsNumbered stable settings commerce user payload payload.address_id).run
          w h).0
        (λ target t. numbered_rest payload cart target t)

  close_draft :
      (payload : PlaceOrderRequest) (cart : Cart) (p : Result AppException Order × World)
      (w : World)
      → Drafted p
      → IsNumbered (((λ _. p) >>= close_order settings commerce user payload cart) w).1
  close_draft payload cart (ok order, t) w h =
      close_keeps IsNumbered stable settings commerce user payload cart order t (record {
        in_session =
            rw (map-append (λ (o : Order). o.order_number) t.db.orders (order ∷ []))
              (add-Numbering order.order_number (numbers t.db) t.db.sequences h.in_session);
        in_store = h.in_store;
      })
  close_draft payload cart (err e, t) w h = h

  checked-IsNumbered :
      (payload : PlaceOrderRequest) (w : World)
      → IsNumbered w
      → IsNumbered (checked_order settings commerce user payload w).1
  unfolding checked_order
  checked-IsNumbered payload w h =
      ((Keeps-bind IsNumbered (ready_cart settings commerce user payload) _
          (Keeps-ready IsNumbered stable settings commerce user payload)
          λ cart.
            Keeps-by IsNumbered
              (draft_order settings commerce user payload cart
                >>= close_order settings commerce user payload cart)
              (λ w h.
                close_draft payload cart (draft_order settings commerce user payload cart w) w
                  (draft_order-Drafted payload cart w h))).run
        w h).0

-- Where the numbers of the orders, stored and committed, are distinct and none is above the last one
-- drawn for its year: after any sequence of requests to place an order, of any users and in any
-- years, successful or refused, with anything between them that leaves the orders' numbers and the
-- sequences alone, this holds again.
pub shop_calls-IsNumbered :
    (settings : Settings) (cs : List (ShopCall LeavesNumbers)) (w : World)
    → IsNumbered w
    → IsNumbered (shop_calls settings cs w)
shop_calls-IsNumbered settings cs w h =
    shop_calls_keep IsNumbered stable back settings (checked-IsNumbered settings) LeavesNumbers
      IsNumbered-left cs w h
