-- ===== src/Checkout/Stable/Steps.antt =====
-- The steps of a checkout and the invariants that do not concern them.
use prime_pizza_backend.Base.{
  ap, ◌∙◌, ℕ, refl, inl, inr, false, not, Option, none, some, [], ◌∷◌, ◌++◌, ◌+◌, Bool-cases,
}
use prime_pizza_backend.Base.Exec.{Result, ok, err, or_raise, pure, gets, modify, raise_if}
use prime_pizza_backend.Errors.{
  AppException, assertion_error, not_found_exception, validation_exception, text,
}
use prime_pizza_backend.Commerce.{CommerceConfig}
use prime_pizza_backend.Models.{User, Cart, Order}
use prime_pizza_backend.Store.{World}
use prime_pizza_backend.Addresses.{get_for_user as get_address}
use prime_pizza_backend.Orders.Table.{get_detail}
use prime_pizza_backend.Orders.Views.{to_detail}
use prime_pizza_backend.Checkout.Closed.{closed, closed_db}
use prime_pizza_backend.Cart.Lines.{Settings}
use prime_pizza_backend.Cart.Recalculate.{live_items, recalculate}
use prime_pizza_backend.Cart.Service.{
  create_if_none, empty_cart, get_active, get_or_create_cart, priced_cart, require_cart, save_cart,
}
use prime_pizza_backend.Checkout.Issues.{all_issues, answer, is_nil, reprice_step, validate}
use prime_pizza_backend.Checkout.Draft.{
  PlaceOrderRequest, address_snapshot, with_coordinates, destination,
}
use prime_pizza_backend.Checkout.Place.{
  add_order, close_order, find_open_cart, is_cash, is_converted, is_online, open_cart, ready_cart,
}
use prime_pizza_backend.Checkout.Ready.{reprice_err}
use prime_pizza_backend.Checkout.Closed.{closed}
use prime_pizza_backend.Checkout.Stable.{
  Stable, untouched, Keeps, Keeps-by, Keeps-bind, Keeps-raise_if, Keeps-ask, ask_keeps,
}

module _ (I : World → Type 0) (stable : Stable I) where
  open_keeps : (o : Option Cart) (w : World) → I w → I (open_cart o w).1
  open_keeps none w h = h
  open_keeps (some c) w h = elim (Bool-cases (is_converted c.status)) [
    | inl closed ↦ rw closed h
    | inr going ↦ rw going h
  ]

  Keeps-open : (user_id : ℕ) → Keeps I (find_open_cart user_id)
  Keeps-open user_id =
      Keeps-by I (find_open_cart user_id) (λ w h. open_keeps (get_active w.db.carts user_id) w h)

  create_keeps :
      (o : Option Cart) (user_id : ℕ) (w : World) → I w → I (create_if_none o user_id w).1
  unfolding require_cart
  create_keeps (some cart) user_id w h = h
  create_keeps none user_id w h =
      let old = record w.db { next_id = w.db.next_id + 1 } in
      let db = record old { carts = old.carts ++ empty_cart w.db.next_id user_id w.now ∷ [] } in
      let w' = record w { db = db; committed = db } in
      ask_keeps I (get_active db.carts user_id) (not_found_exception (text "Cart not found")) w' (
        stable.stored (record w { db = db })
          (untouched I stable w (record w { db = db }) refl refl refl refl h))

  Keeps-cart : (user_id : ℕ) → Keeps I (get_or_create_cart user_id)
  unfolding get_or_create_cart
  Keeps-cart user_id =
      Keeps-by I (get_or_create_cart user_id)
        (λ w h. create_keeps (get_active w.db.carts user_id) user_id w h)

  module _ (settings : Settings) (commerce : CommerceConfig) (user : User) where
    reprice_keeps :
        (r : Result AppException Cart) (w : World) → I w → I (reprice_step false user r w).1
    reprice_keeps (ok c) w h = unfold reprice_step in untouched I stable w _ refl refl refl refl h
    reprice_keeps (err e) w h = rw (reprice_err user e w) h

    Keeps-validate : Keeps I (validate settings commerce user false)
    unfolding validate
    Keeps-validate = Keeps-bind I (get_or_create_cart user.id) _ (Keeps-cart user.id) λ cart.
        Keeps-bind I
          (λ w.
            reprice_step false user
              (recalculate commerce w.db.catalog w.db.coupon_tables w.now cart) w)
          _
          (Keeps-by I _ λ w h.
            reprice_keeps (recalculate commerce w.db.catalog w.db.coupon_tables w.now cart) w h)
          λ pricing.
            Keeps-bind I (λ w. or_raise (get_active w.db.carts user.id) assertion_error w)
              (λ cart.
                gets (λ w. answer settings w user cart (all_issues settings w user pricing cart)))
              (Keeps-ask I (λ w. get_active w.db.carts user.id) assertion_error)
              (λ cart. Keeps-by I _ (λ w h. h))

    Keeps-saved : (cart : Cart) → Keeps I (modify (save_cart cart))
    Keeps-saved cart = Keeps-by I _ (λ w h. untouched I stable w _ refl refl refl refl h)

    pub Keeps-ready :
        (payload : PlaceOrderRequest) → Keeps I (ready_cart settings commerce user payload)
    unfolding ready_cart priced_cart
    Keeps-ready payload =
        Keeps-bind I
          (raise_if (is_online payload.payment_method)
            (validation_exception (text "Online payment is not available yet")))
          _ (Keeps-raise_if I _ _)
          λ _.
            Keeps-bind I
              (raise_if (not (is_cash payload.payment_method))
                (validation_exception (text "Unsupported payment method")))
              _ (Keeps-raise_if I _ _)
              λ _. Keeps-bind I (find_open_cart user.id) _ (Keeps-open user.id) λ _.
                Keeps-bind I (validate settings commerce user false) _ Keeps-validate λ validation.
                  Keeps-bind I
                    (raise_if (not validation.is_valid)
                      (validation_exception (text "Checkout validation failed")))
                    _ (Keeps-raise_if I _ _)
                    λ _. Keeps-bind I (find_open_cart user.id) _ (Keeps-open user.id) λ cart.
                      Keeps-bind I (priced_cart settings commerce cart) _ (Keeps-by I _ (λ w h. h))
                        λ priced.
                          Keeps-bind I (modify (save_cart priced)) _ (Keeps-saved priced) λ _.
                            Keeps-bind I
                              (raise_if (is_nil (live_items priced.items))
                                (validation_exception (text "Cart is empty")))
                              (λ _. pure priced) (Keeps-raise_if I _ _)
                              (λ _. Keeps-by I _ (λ w h. h))

    pub Keeps-destination :
        (payload : PlaceOrderRequest) (o : Option ℕ) → Keeps I (destination user payload o)
    unfolding destination
    Keeps-destination payload none = Keeps-by I _ (λ w h. h)
    Keeps-destination payload (some address_id) =
        Keeps-bind I
          (λ w.
            or_raise (get_address w.db.addresses address_id user.id)
              (not_found_exception (text "Address not found")) w)
          _ (Keeps-ask I (λ w. get_address w.db.addresses address_id user.id) _)
          (λ a.
            Keeps-by I (pure (some a.id, with_coordinates payload (address_snapshot a))) (λ w h. h))

    -- The end of a checkout only adds the order, and commits.
    pub close_keeps :
        (payload : PlaceOrderRequest) (cart : Cart) (order : Order) (w : World)
        → I (add_order order w)
        → I (close_order settings commerce user payload cart order w).1
    unfolding close_order
    close_keeps payload cart order w h =
        let w1 = add_order order w in
        let w2 = record w1 { committed = w1.db } in
        let w' = closed settings commerce user payload cart order w in
        let (db, committed) = closed_db settings commerce user payload cart order w in
        let all = committed ∙ db in
        let after : I w' =
          stable.same w2 w'
            (record {
              coupon_tables = ap (λ d. d.coupon_tables) db;
              orders = ap (λ d. d.orders) db;
              sequences = ap (λ d. d.sequences) db;
            })
            (record {
              coupon_tables = ap (λ d. d.coupon_tables) all;
              orders = ap (λ d. d.orders) all;
              sequences = ap (λ d. d.sequences) all;
            })
            (stable.stored w1 h) in
        ((Keeps-bind I (λ w. or_raise (get_detail w.db.orders order.id) assertion_error w)
            (λ detail. pure (to_detail detail false))
            (Keeps-ask I (λ w. get_detail w.db.orders order.id) assertion_error)
            (λ detail. Keeps-by I _ (λ w h. h))).run
          w' after).0
