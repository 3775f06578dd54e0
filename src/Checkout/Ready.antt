-- ===== src/Checkout/Ready.antt =====
-- The part of a checkout that only prepares.
use prime_pizza_backend.Base.{
  ℕ, ◌≡◌, ap, refl, ◌∙◌, sym, inl, inr, true, false, not, Option, none, some, arith, is_some,
  Bool-cases,
}
use prime_pizza_backend.Base.Exec.{
  or_raise, Result, ok, err, pure, gets, raise_if, modify, ok-injective, ◌>>◌,
}
use prime_pizza_backend.Base.Hoare.{Safe-pure, Safe-raise_if, Safe-ask, Good, Safe, Safe-bind}
use prime_pizza_backend.Errors.{assertion_error, AppException, text, validation_exception}
use prime_pizza_backend.Commerce.{CommerceConfig}
use prime_pizza_backend.Models.{User, Cart}
use prime_pizza_backend.Store.{World}
use prime_pizza_backend.Cart.Lines.{Settings}
use prime_pizza_backend.Cart.Recalculate.{recalculate, live_items}
use prime_pizza_backend.Cart.Priced.{IsPriced, recalculate-IsPriced}
use prime_pizza_backend.Cart.Service.{
  create_if_none, get_active, save_cart, get_or_create_cart, priced_cart,
}
use prime_pizza_backend.Cart.Edits.{get_active-replace}
use prime_pizza_backend.Checkout.SameCart.{SameCart, recalculate-SameCart}
use prime_pizza_backend.Checkout.Issues.{answer, all_issues, reprice_step, validate, is_nil}
use prime_pizza_backend.Checkout.Draft.{PlaceOrderRequest}
use prime_pizza_backend.Checkout.Place.{
  find_open_cart, is_cash, is_converted, is_online, open_cart, ready_cart,
}

-- What a checkout keeps until it writes the order.
pub record Before (w0 : World) (user_id : ℕ) (start : Cart) (w : World) : Type 0 where
  pub same_committed : w.committed ≡ w0.committed
  pub same_orders : w.db.orders ≡ w0.db.orders
  pub same_catalog : w.db.catalog ≡ w0.db.catalog
  pub cart : Cart
  pub has_cart : get_active w.db.carts user_id ≡ some cart
  pub same_cart : SameCart start cart

pub reprice_err :
    (user : User) (e : AppException) (w : World) → reprice_step false user (err e) w ≡ (err e, w)
unfolding reprice_step
reprice_err user e w = ground arith

module _ (settings : Settings) (commerce : CommerceConfig) (w0 : World) (user : User)
    (start : Cart) where
  abbrev Kept : World → Type 0
  Kept = Before w0 user.id start

  save_cart-Kept :
      (cart : Cart) (w : World) → SameCart start cart → Kept w → Kept (save_cart cart w)
  save_cart-Kept cart w m b =
      let k = m.same_key in
      let l = b.same_cart.same_key in
      record {
        same_committed = b.same_committed;
        same_orders = b.same_orders;
        same_catalog = b.same_catalog;
        cart = cart;
        has_cart = get_active-replace w.db.carts user.id b.cart cart b.has_cart record {
          same_id = k.same_id ∙ sym l.same_id;
          same_user = k.same_user ∙ sym l.same_user;
          same_active = k.same_active ∙ sym l.same_active;
          same_deleted = k.same_deleted ∙ sym l.same_deleted;
        };
        same_cart = m;
      }

  open-Good :
      (o : Option Cart) (w : World)
      → Kept w
      → ((c : Cart) → o ≡ some c → SameCart start c)
      → Good Kept (SameCart start) (open_cart o w)
  open-Good none w b h = (b, λ a e. ground arith)
  open-Good (some c) w b h = elim (Bool-cases (is_converted c.status)) [
    | inl closed ↦ rw closed (b, λ a e. ground arith)
    | inr going ↦
        rw going (b, λ a e. let same : c ≡ a = ok-injective c a e in rw (sym same) (h c refl))
  ]

  some-injective : {A : Type 0} (a b : A) → some a ≡ some b → a ≡ b
  some-injective a b e = cc

  active-Matches :
      (w : World) (c : Cart) → Kept w → get_active w.db.carts user.id ≡ some c → SameCart start c
  active-Matches w c b found =
      rw (sym (some-injective b.cart c (sym b.has_cart ∙ found))) b.same_cart

  Safe-open : Safe Kept (SameCart start) (find_open_cart user.id)
  Safe-open = record {
    run = λ w b. open-Good (get_active w.db.carts user.id) w b (λ c. active-Matches w c b);
  }

  Safe-IsPriced :
      (cart : Cart)
      → SameCart start cart
      → Safe Kept
          (λ c. SameCart start c × IsPriced commerce w0.db.catalog c)
          (priced_cart settings commerce cart)
  unfolding priced_cart
  Safe-IsPriced cart m = record {
    run = λ w b. (
      b,
      λ p e. (
        recalculate-SameCart commerce w.db.catalog w.db.coupon_tables w.now start cart p m e,
        rw (sym b.same_catalog)
            (recalculate-IsPriced commerce w.db.catalog w.db.coupon_tables w.now cart p e),
      ),
    );
  }

  create-Good :
      (o : Option Cart) (w : World)
      → Kept w
      → is_some o ≡ true
      → ((c : Cart) → o ≡ some c → SameCart start c)
      → Good Kept (SameCart start) (create_if_none o user.id w)
  create-Good none w b there h = ground arith
  create-Good (some c) w b there h =
      (b, λ a e. let same : c ≡ a = ok-injective c a e in rw (sym same) (h c refl))

  Safe-cart : Safe Kept (SameCart start) (get_or_create_cart user.id)
  unfolding get_or_create_cart
  Safe-cart = record {
    run = λ w b.
        create-Good (get_active w.db.carts user.id) w b (ap is_some b.has_cart)
          (λ c. active-Matches w c b);
  }

  reprice-Good :
      (r : Result AppException Cart) (w : World)
      → Kept w
      → ((c : Cart) → r ≡ ok c → SameCart start c)
      → Good Kept (λ _. Unit {0}) (reprice_step false user r w)
  unfolding reprice_step
  reprice-Good (ok c) w b h = (save_cart-Kept c w (h c refl) b, λ _ _. tt)
  reprice-Good (err e) w b h = rw (reprice_err user e w) (b, λ a e. tt)

  Safe-validate : Safe Kept (λ _. Unit {0}) (validate settings commerce user false)
  unfolding validate
  Safe-validate =
      Safe-bind Kept (SameCart start) (λ _. Unit {0}) (get_or_create_cart user.id) _ Safe-cart
        λ cart m.
          Safe-bind Kept (λ _. Unit {0}) (λ _. Unit {0})
            (λ w.
              reprice_step false user
                (recalculate commerce w.db.catalog w.db.coupon_tables w.now cart) w)
            _
            (record {
              run = λ w b.
                  reprice-Good (recalculate commerce w.db.catalog w.db.coupon_tables w.now cart) w b
                    (λ c e.
                      recalculate-SameCart commerce w.db.catalog w.db.coupon_tables w.now start cart
                        c m e);
            })
            λ pricing _.
              Safe-bind Kept (λ _. Unit {0}) (λ _. Unit {0})
                (λ w. or_raise (get_active w.db.carts user.id) assertion_error w)
                (λ cart.
                  gets (λ w. answer settings w user cart (all_issues settings w user pricing cart)))
                (Safe-ask Kept (λ w. get_active w.db.carts user.id) assertion_error)
                λ cart _. record { run = λ w b. (b, λ _ _. tt) }

  -- Saving the priced cart, and the test that it has a line.
  Safe-rest :
      (c : Cart)
      → SameCart start c × IsPriced commerce w0.db.catalog c
      → Safe Kept
          (λ c.
            SameCart start c
            × IsPriced commerce w0.db.catalog c
            × (is_nil (live_items c.items) ≡ false))
          (modify (save_cart c)
            >> (raise_if (is_nil (live_items c.items)) (validation_exception (text "Cart is empty"))
                >> pure c))
  Safe-rest c (m, priced) =
      let Q = λ (c : Cart).
        SameCart start c
        × IsPriced commerce w0.db.catalog c
        × (is_nil (live_items c.items) ≡ false) in
      Safe-bind Kept (λ _. Unit {0}) Q (modify (save_cart c)) _
        (record { run = λ w b. (save_cart-Kept c w m b, λ _ _. tt) })
        λ _ _.
          Safe-bind Kept (λ _. is_nil (live_items c.items) ≡ false) Q
            (raise_if (is_nil (live_items c.items)) (validation_exception (text "Cart is empty")))
            (λ _. pure c) (Safe-raise_if Kept _ _)
            (λ _ some_lines. Safe-pure Kept Q c (m, priced, some_lines))

  pub Safe-ready :
      (payload : PlaceOrderRequest)
      → Safe Kept
          (λ c.
            SameCart start c
            × IsPriced commerce w0.db.catalog c
            × (is_nil (live_items c.items) ≡ false))
          (ready_cart settings commerce user payload)
  unfolding ready_cart
  Safe-ready payload =
      let Q = λ (c : Cart).
        SameCart start c
        × IsPriced commerce w0.db.catalog c
        × (is_nil (live_items c.items) ≡ false) in
      Safe-bind Kept _ Q
        (raise_if (is_online payload.payment_method)
          (validation_exception (text "Online payment is not available yet")))
        _ (Safe-raise_if Kept _ _)
        λ _ _.
          Safe-bind Kept _ Q
            (raise_if (not (is_cash payload.payment_method))
              (validation_exception (text "Unsupported payment method")))
            _ (Safe-raise_if Kept _ _)
            λ _ _. Safe-bind Kept (SameCart start) Q (find_open_cart user.id) _ Safe-open λ _ _.
              Safe-bind Kept (λ _. Unit {0}) Q (validate settings commerce user false) _
                Safe-validate
                λ validation _.
                  Safe-bind Kept _ Q
                    (raise_if (not validation.is_valid)
                      (validation_exception (text "Checkout validation failed")))
                    _ (Safe-raise_if Kept _ _)
                    λ _ _.
                      Safe-bind Kept (SameCart start) Q (find_open_cart user.id) _ Safe-open
                        λ cart m.
                          Safe-bind Kept (λ c. SameCart start c × IsPriced commerce w0.db.catalog c)
                            Q (priced_cart settings commerce cart) _ (Safe-IsPriced cart m)
                            Safe-rest
