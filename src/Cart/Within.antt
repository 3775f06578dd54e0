-- ===== src/Cart/Within.antt =====
-- The limits on carts through the steps that the methods share.
use prime_pizza_backend.Base.{
  ℕ, ◌+◌, ◌≡◌, refl, sym, inl, inr, ◌&&◌, Option, none, some, [], ◌∷◌, ◌++◌, arith, ◌==◌,
  find_first, All, All-append, All-find_first, All-update_where, Option-cases,
}
use prime_pizza_backend.Base.Exec.{pure, ok-injective, ◌>>=◌}
use prime_pizza_backend.Base.Hoare.{Safe, Safe-bind, Safe-read}
use prime_pizza_backend.Catalog.{alive}
use prime_pizza_backend.Commerce.{CommerceConfig}
use prime_pizza_backend.Models.{Cart}
use prime_pizza_backend.Store.{World}
use prime_pizza_backend.Cart.Lines.{Settings}
use prime_pizza_backend.Cart.Service.{
  to_response, priced_view, get_active, replace_cart, save_cart, require_cart, empty_cart, new_id,
  create_if_none, get_or_create_cart, priced_cart, settle, reload, invalidate_user,
}
use prime_pizza_backend.Cart.Bounds.{InBounds, empty-InBounds}
use prime_pizza_backend.Cart.Bounds.Totals.{written-InBounds, recalculate-InBounds}
use prime_pizza_backend.Cart.Recalculate.{recalculate_with}
use prime_pizza_backend.Cart.Session.{loaded_coupon, seen, written_back}

module _ (settings : Settings) where
  -- Every cart is within the limits, as the request in progress sees it and as it is committed.
  pub record AllInBounds (w : World) : Type 0 where
    pub in_session : All (InBounds settings) w.db.carts
    pub in_store : All (InBounds settings) w.committed.carts

  pub Safe-new_id : Safe AllInBounds (λ _. Unit {0}) new_id
  Safe-new_id = record {
    run = λ w b. (record { in_session = b.in_session; in_store = b.in_store }, λ _ _. tt);
  }

  pub Safe-require : (user_id : ℕ) → Safe AllInBounds (InBounds settings) (require_cart user_id)
  unfolding require_cart get_active
  Safe-require user_id = record {
    run = λ w b.
        let p = λ (c : Cart). c.user_id == user_id && c.is_active && alive c.deleted in
        elim (Option-cases (find_first p w.db.carts)) [
          | inl gone ↦ (ground (arith, b), λ a e. ground arith)
          | inr (c, found) ↦ (
            ground (arith, b),
            λ a e.
                let same : c ≡ a = ground arith in
                rw (sym same)
                  (All-find_first (InBounds settings) p w.db.carts c b.in_session found),
          )
        ];
  }

  save_cart-AllInBounds :
      (cart : Cart) (w : World)
      → InBounds settings cart
      → AllInBounds w
      → AllInBounds (save_cart cart w)
  unfolding replace_cart
  save_cart-AllInBounds cart w c b = record {
    in_session =
        All-update_where (InBounds settings) (λ o. o.id == cart.id) (λ _. cart) w.db.carts
          (λ _ _. c) b.in_session;
    in_store = b.in_store;
  }

  pub Safe-create :
      (user_id : ℕ) (o : Option Cart)
      → ((c : Cart) → o ≡ some c → InBounds settings c)
      → Safe AllInBounds (InBounds settings) (create_if_none o user_id)
  Safe-create user_id (some cart) h = record {
    run = λ w b. (b, λ a e. rw (sym (ok-injective cart a e)) (h cart refl));
  }
  Safe-create user_id none h = record {
    run = λ w b.
        let c = empty_cart w.db.next_id user_id w.now in
        let new : World = record w {
          db = record w.db { next_id = w.db.next_id + 1; carts = w.db.carts ++ c ∷ [] };
        } in
        (Safe-require user_id).run (record new { committed = new.db })
          (let all =
              All-append (InBounds settings) w.db.carts (c ∷ []) b.in_session
                (empty-InBounds settings c refl, tt) in
            record { in_session = all; in_store = all });
  }

  pub Safe-cart : (user_id : ℕ) → Safe AllInBounds (InBounds settings) (get_or_create_cart user_id)
  unfolding get_or_create_cart get_active
  Safe-cart user_id = record {
    run = λ w b.
        let p = λ (c : Cart). c.user_id == user_id && c.is_active && alive c.deleted in
        (Safe-create user_id (find_first p w.db.carts)
            (λ c found. All-find_first (InBounds settings) p w.db.carts c b.in_session found)).run
          w b;
  }

  invalidate-carts :
      (user_id : ℕ) (w : World) → AllInBounds w → AllInBounds (invalidate_user user_id w)
  unfolding invalidate_user
  invalidate-carts user_id w b = record {
    in_session = ground (arith, b.in_session);
    in_store = ground (arith, b.in_store);
  }

  module _ (commerce : CommerceConfig) where
    pub Safe-IsPriced :
        (cart : Cart)
        → InBounds settings cart
        → Safe AllInBounds (InBounds settings) (priced_cart settings commerce cart)
    unfolding priced_cart
    Safe-IsPriced cart c = record {
      run = λ w b. (
        b,
        λ p e.
            recalculate-InBounds settings commerce w.db.catalog w.db.coupon_tables w.now cart p c e,
      );
    }

    pub Safe-reload :
        (user_id : ℕ) (cart : Cart)
        → InBounds settings cart
        → Safe AllInBounds (InBounds settings) (reload settings commerce user_id cart)
    unfolding reload
    Safe-reload user_id cart c = record {
      run = λ w b. (Safe-require user_id).run (save_cart cart w) (save_cart-AllInBounds cart w c b);
    }

    pub Safe-view :
        (loaded cart : Cart)
        → InBounds settings cart
        → Safe AllInBounds
            (λ priced. InBounds settings (written_back cart priced))
            (priced_view settings commerce loaded cart)
    unfolding priced_view
    Safe-view loaded cart c =
        Safe-read AllInBounds (λ priced. InBounds settings (written_back cart priced))
          (λ w.
            recalculate_with commerce w.db.catalog w.db.coupon_tables w.now
              (loaded_coupon w.db.coupon_tables loaded.coupon_id cart.coupon_id) (seen loaded cart))
          (λ w priced e.
            written-InBounds settings commerce w.db.catalog w.db.coupon_tables w.now
              (loaded_coupon w.db.coupon_tables loaded.coupon_id cart.coupon_id) loaded cart priced
              c e)

    pub Safe-settle :
        (loaded cart : Cart)
        → InBounds settings cart
        → Safe AllInBounds (λ _. Unit {0}) (settle settings commerce loaded cart)
    unfolding settle
    Safe-settle loaded cart c =
        Safe-bind AllInBounds (λ priced. InBounds settings (written_back cart priced)) _
          (priced_view settings commerce loaded cart) _ (Safe-view loaded cart c)
          λ priced good. record {
            run = λ w b.
                let saved = save_cart (written_back cart priced) w in
                let all = (save_cart-AllInBounds (written_back cart priced) w good b).in_session in
                let done = record saved { committed = saved.db } in
                (Safe-bind AllInBounds (InBounds settings) (λ _. Unit {0})
                    (require_cart cart.user_id) (λ _. pure (to_response priced))
                    (Safe-require cart.user_id) (λ _ _. record { run = λ w b. (b, λ _ _. tt) })).run
                  (invalidate_user cart.user_id done)
                  (invalidate-carts cart.user_id done
                    (record { in_session = all; in_store = all }));
          }

    pub Safe-finish :
        (user_id : ℕ) (loaded cart : Cart)
        → InBounds settings cart
        → Safe AllInBounds
            (λ _. Unit {0})
            (reload settings commerce user_id cart >>= settle settings commerce loaded)
    Safe-finish user_id loaded cart c =
        Safe-bind AllInBounds (InBounds settings) _ (reload settings commerce user_id cart)
          (settle settings commerce loaded) (Safe-reload user_id cart c) (Safe-settle loaded)
