-- ===== src/Checkout/Closed.antt =====
-- The end of a checkout: the order is added, the cart converted, and both are committed.
use prime_pizza_backend.Base.{
  ap, eqb_refl, ℕ, ◌≡◌, refl, ◌∙◌, sym, inl, inr, true, false, Option, none, some, List, [], ◌∷◌,
  ◌++◌, arith, is_some, Option-cases,
}
use prime_pizza_backend.Base.Exec.{ok}
use prime_pizza_backend.Text.{Text, text_eq_refl}
use prime_pizza_backend.Commerce.{CommerceConfig}
use prime_pizza_backend.Models.{User, Cart, Order}
use prime_pizza_backend.Store.{World}
use prime_pizza_backend.Orders.Table.{get_detail}
use prime_pizza_backend.Orders.Views.{OrderDetailResponse, to_detail}
use prime_pizza_backend.Orders.Manage.{invalidate_order}
use prime_pizza_backend.Cart.Lines.{Settings}
use prime_pizza_backend.Cart.Edit.{converted_cart}
use prime_pizza_backend.Cart.Service.{save_cart, invalidate_user}
use prime_pizza_backend.Checkout.Redis.{store_idempotent_order_id, get_idempotent_order_id}
use prime_pizza_backend.Checkout.Place.{add_order, close_order}
use prime_pizza_backend.Checkout.Draft.{PlaceOrderRequest}

appended_is_some :
    (orders : List Order) (order : Order)
    → order.deleted ≡ false
    → is_some (get_detail (orders ++ order ∷ []) order.id) ≡ true
unfolding get_detail
appended_is_some [] order here = ground (arith, eqb_refl order.id)
appended_is_some (o ∷ orders) order here = ground (arith, appended_is_some orders order here)

get_detail-appended :
    (orders : List Order) (order : Order)
    → order.deleted ≡ false
    → (d : Order) × (get_detail (orders ++ order ∷ []) order.id ≡ some d)
get_detail-appended orders order here =
    elim (Option-cases (get_detail (orders ++ order ∷ []) order.id)) [
      | inl gone ↦ let there = appended_is_some orders order here in ground arith
      | inr found ↦ found
    ]

invalidate_order_db :
    (order_id : ℕ) (w : World)
    → ((invalidate_order order_id w).db ≡ w.db)
      × ((invalidate_order order_id w).committed ≡ w.committed)
unfolding invalidate_order
invalidate_order_db order_id w = ground arith

invalidate_user_db :
    (user_id : ℕ) (w : World)
    → ((invalidate_user user_id w).db ≡ w.db)
      × ((invalidate_user user_id w).committed ≡ w.committed)
unfolding invalidate_user
invalidate_user_db user_id w = ground arith

store_key_db :
    (user_id : ℕ) (key : Option Text) (order_id : ℕ) (w : World)
    → let w' = store_idempotent_order_id user_id key order_id w in
      (w'.db ≡ w.db) × (w'.committed ≡ w.committed)
unfolding store_idempotent_order_id
store_key_db user_id none order_id w = (refl, refl)
store_key_db user_id (some []) order_id w = (refl, refl)
store_key_db user_id (some (c ∷ s)) order_id w = ground arith

store_key_found :
    (user_id : ℕ) (key : Option Text) (order_id : ℕ) (w : World) (c : ℕ) (s : Text)
    → key ≡ some (c ∷ s)
    → (store_idempotent_order_id user_id key order_id w).redis.is_up ≡ true
    → get_idempotent_order_id user_id key (store_idempotent_order_id user_id key order_id w)
      ≡ some order_id
unfolding store_idempotent_order_id get_idempotent_order_id
store_key_found user_id none order_id w c s e up = ground arith
store_key_found user_id (some []) order_id w c s e up = ground arith
store_key_found user_id (some (a ∷ t)) order_id w c s e up =
    ground (arith, text_eq_refl (a ∷ t), eqb_refl user_id)

-- The order is there, committed, and the answer shows the row under its id.
-- A later request with the key finds it.
pub record Closed (user_id : ℕ) (key : Option Text) (w : World) (order : Order)
    (r : OrderDetailResponse) (w' : World) : Type 0 where
  pub added : w'.db.orders ≡ w.db.orders ++ order ∷ []
  pub is_committed : w'.committed ≡ w'.db
  pub row : Order
  pub stored : get_detail w'.db.orders order.id ≡ some row
  pub shown : r ≡ to_detail row false
  pub is_keyed :
      (c : ℕ) (s : Text)
      → key ≡ some (c ∷ s)
      → w'.redis.is_up ≡ true
      → get_idempotent_order_id user_id key w' ≡ some order.id

module _ (settings : Settings) (commerce : CommerceConfig) (user : User)
    (payload : PlaceOrderRequest) where
  -- The world that the last query of `close_order` reads.
  abbrev pub closed : Cart → Order → World → World
  closed cart order w =
      let w1 = add_order order w in
      let w2 = invalidate_user user.id (save_cart (converted_cart w1.now cart) w1) in
      let w3 = record w2 { committed = w2.db } in
      store_idempotent_order_id user.id payload.idempotency_key order.id
        (invalidate_user user.id (invalidate_order order.id w3))

  pub closed_db :
      (cart : Cart) (order : Order) (w : World)
      → let w' = closed cart order w in
        (w'.db ≡ (save_cart (converted_cart w.now cart) (add_order order w)).db)
        × (w'.committed ≡ w'.db)
  closed_db cart order w =
      let w1 = add_order order w in
      let w2' = save_cart (converted_cart w1.now cart) w1 in
      let w2 = invalidate_user user.id w2' in
      let w3 = record w2 { committed = w2.db } in
      let w4 = invalidate_order order.id w3 in
      let w5 = invalidate_user user.id w4 in
      let (d2, _) = invalidate_user_db user.id w2' in
      let (d4, c4) = invalidate_order_db order.id w3 in
      let (d5, c5) = invalidate_user_db user.id w4 in
      let (d6, c6) = store_key_db user.id payload.idempotency_key order.id w5 in
      let db = d6 ∙ d5 ∙ d4 in (db ∙ d2, c6 ∙ c5 ∙ c4 ∙ sym db)

  pub close_order-Closed :
      (cart : Cart) (order : Order) (w : World)
      → order.deleted ≡ false
      → (r : OrderDetailResponse) × (close_order settings commerce user payload cart order w
          ≡ (ok r, closed cart order w))
        × Closed user.id payload.idempotency_key w order r (closed cart order w)
  unfolding close_order
  close_order-Closed cart order w here =
      let (db, committed) = closed_db cart order w in
      let orders = ap (λ d. d.orders) db in
      let (row, found) = get_detail-appended w.db.orders order here in
      let found' : get_detail (closed cart order w).db.orders order.id ≡ some row =
        rw orders found in
      (
        to_detail row false,
        ground (arith, found'),
        record {
          added = orders;
          is_committed = committed;
          row = row;
          stored = found';
          shown = refl;
          is_keyed =
              λ c s e up. store_key_found user.id payload.idempotency_key order.id _ c s e up;
        },
      )
