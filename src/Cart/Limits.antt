-- ===== src/Cart/Limits.antt =====
-- The limits on carts through sequences of calls.
use prime_pizza_backend.Base.{ℕ, true, none, some, List, [], ◌∷◌}
use prime_pizza_backend.Base.Exec.{Result, ok, err, lift, pure}
use prime_pizza_backend.Base.Hoare.{Safe, Safe-bind, Safe-read}
use prime_pizza_backend.Commerce.{CommerceConfig}
use prime_pizza_backend.Coupon.{validate_for_user, get_active_by_code}
use prime_pizza_backend.Errors.{AppException}
use prime_pizza_backend.Store.{World, finish, run_request}
use prime_pizza_backend.Cart.Lines.{
  Settings, keys, load_priced_entities, normalize_extras, validate_quantity,
}
use prime_pizza_backend.Cart.Edit.{add_line, change_line, drop_line, emptied}
use prime_pizza_backend.Cart.Service.{
  CartResponse, new_id, get_or_create_cart, priced_cart, add_item, update_item, remove_item, clear,
  apply_coupon, remove_coupon,
}
use prime_pizza_backend.Cart.Calls.{
  CartCall, add_call, update_call, remove_call, clear_call, apply_call, uncoupon_call, cart_call,
}
use prime_pizza_backend.Cart.Bounds.{
  IsAllowed, InBounds, same_lines-InBounds, add_line-InBounds, validate_quantity-IsAllowed,
}
use prime_pizza_backend.Cart.Bounds.Edits.{
  change_line-InBounds, drop_line-InBounds, emptied-InBounds,
}
use prime_pizza_backend.Cart.Within.{
  AllInBounds, Safe-IsPriced, Safe-cart, Safe-finish, Safe-new_id, Safe-settle,
}

module _ (settings : Settings) (commerce : CommerceConfig) where
  cart_call-Safe :
      (user_id : ℕ) (c : CartCall)
      → Safe (AllInBounds settings) (λ _. Unit {0}) (cart_call settings commerce user_id c)
  unfolding cart_call add_item update_item remove_item clear apply_coupon remove_coupon
  cart_call-Safe user_id (add_call payload) =
      Safe-bind (AllInBounds settings) (λ _. IsAllowed settings payload.quantity) _
        (lift (validate_quantity settings payload.quantity)) _
        (Safe-read (AllInBounds settings) (λ _. IsAllowed settings payload.quantity)
          (λ _. validate_quantity settings payload.quantity)
          (λ _ u e. validate_quantity-IsAllowed settings payload.quantity u e))
        λ _ q.
          Safe-bind (AllInBounds settings) (InBounds settings) _ (get_or_create_cart user_id) _
            (Safe-cart settings user_id)
            λ cart good.
              Safe-bind (AllInBounds settings) (λ _. Unit {0}) _
                (pure (normalize_extras payload.extras payload.extra_option_ids)) _
                (record { run = λ w b. (b, λ _ _. tt) })
                λ quantities _.
                  Safe-bind (AllInBounds settings) (λ _. Unit {0}) _
                    (λ w. (
                      load_priced_entities w.db.catalog payload.product_id true payload.variant_id
                          (keys quantities) quantities,
                      w,
                    ))
                    _ (record { run = λ w b. (b, λ _ _. tt) })
                    λ rows _.
                      Safe-bind (AllInBounds settings) (λ _. Unit {0}) _ new_id _
                        (Safe-new_id settings)
                        λ item_id _.
                          Safe-bind (AllInBounds settings) (InBounds settings) _
                            (lift (add_line settings item_id payload rows cart)) _
                            (Safe-read (AllInBounds settings) (InBounds settings)
                              (λ _. add_line settings item_id payload rows cart)
                              (λ _ a e.
                                add_line-InBounds settings item_id payload rows cart a q good e))
                            (Safe-finish settings commerce user_id cart)
  cart_call-Safe user_id (update_call item payload) =
      Safe-bind (AllInBounds settings) (InBounds settings) _ (get_or_create_cart user_id) _
        (Safe-cart settings user_id)
        λ cart good.
          Safe-bind (AllInBounds settings) (InBounds settings) _
            (λ w. (change_line settings w.db.catalog item payload cart, w)) _
            (Safe-read (AllInBounds settings) (InBounds settings)
              (λ w. change_line settings w.db.catalog item payload cart)
              (λ w a e. change_line-InBounds settings w.db.catalog item payload cart a good e))
            (Safe-finish settings commerce user_id cart)
  cart_call-Safe user_id (remove_call item) =
      Safe-bind (AllInBounds settings) (InBounds settings) _ (get_or_create_cart user_id) _
        (Safe-cart settings user_id)
        λ cart good.
          Safe-bind (AllInBounds settings) (InBounds settings) _
            (lift (drop_line settings item cart)) _
            (Safe-read (AllInBounds settings) (InBounds settings)
              (λ _. drop_line settings item cart)
              (λ _ a e. drop_line-InBounds settings item cart a good e))
            (Safe-finish settings commerce user_id cart)
  cart_call-Safe user_id clear_call =
      Safe-bind (AllInBounds settings) (InBounds settings) _ (get_or_create_cart user_id) _
        (Safe-cart settings user_id)
        λ cart _.
          Safe-finish settings commerce user_id cart (emptied cart) (emptied-InBounds settings cart)
  cart_call-Safe user_id (apply_call code) =
      Safe-bind (AllInBounds settings) (InBounds settings) _ (get_or_create_cart user_id) _
        (Safe-cart settings user_id)
        λ cart good.
          Safe-bind (AllInBounds settings) (InBounds settings) _
            (priced_cart settings commerce cart) _ (Safe-IsPriced settings commerce cart good)
            λ priced good.
              Safe-bind (AllInBounds settings) (λ _. Unit {0}) _
                (λ w. (validate_for_user w.db.coupon_tables w.now code user_id priced.subtotal, w))
                _ (record { run = λ w b. (b, λ _ _. tt) })
                λ validation _.
                  Safe-bind (AllInBounds settings) (λ _. Unit {0}) _
                    (λ w. (get_active_by_code w.db.coupon_tables validation.code, w)) _
                    (record { run = λ w b. (b, λ _ _. tt) })
                    λ coupon _.
                      Safe-settle settings commerce cart
                        (record priced { coupon_id = some coupon.id })
                        (same_lines-InBounds settings priced (some coupon.id) good)
  cart_call-Safe user_id uncoupon_call =
      Safe-bind (AllInBounds settings) (InBounds settings) _ (get_or_create_cart user_id) _
        (Safe-cart settings user_id)
        λ cart good.
          Safe-settle settings commerce cart (record cart { coupon_id = none })
            (same_lines-InBounds settings cart none good)

  -- Requests one after another, each in a session of its own: one that raises is rolled back.
  unfoldable pub cart_calls : List (ℕ × CartCall) → World → World
  unfolding cart_call run_request
  cart_calls [] w = w
  cart_calls ((user_id, c) ∷ cs) w =
      cart_calls cs (run_request (cart_call settings commerce user_id c) w).1

  run_request-AllInBounds :
      (p : Result AppException CartResponse × World)
      → AllInBounds settings p.1
      → AllInBounds settings (finish p).1
  run_request-AllInBounds (ok r, w) b = b
  run_request-AllInBounds (err e, w) b = record { in_session = b.in_store; in_store = b.in_store }

  -- From a state in which, stored and committed, no line that is not deleted has fewer or more
  -- units than the settings allow, and no cart more such lines: this holds again after any calls of
  -- any users, in any order, whether they succeed or are refused and rolled back.
  pub cart_calls-AllInBounds :
      (cs : List (ℕ × CartCall)) (w : World)
      → AllInBounds settings w
      → AllInBounds settings (cart_calls cs w)
  unfolding cart_calls run_request
  cart_calls-AllInBounds [] w b = b
  cart_calls-AllInBounds ((user_id, c) ∷ cs) w b = cart_calls-AllInBounds cs _ (
      run_request-AllInBounds (cart_call settings commerce user_id c w)
        (((cart_call-Safe user_id c).run w b).0))
