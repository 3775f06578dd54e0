-- ===== src/Checkout/Ended.antt =====
-- How a checkout ends before its lock is released.
use prime_pizza_backend.Base.{
  ap, sym, some, ◌≡◌, refl, ◌∙◌, inl, inr, false, Option, none, [], ◌∷◌, ◌++◌, arith, Option-cases,
  Bool-cases,
}
use prime_pizza_backend.Base.Exec.{Result, ok, err, ◌>>=◌}
use prime_pizza_backend.Text.{Text}
use prime_pizza_backend.Base.Hoare.{Good}
use prime_pizza_backend.Errors.{AppException, text, validation_exception}
use prime_pizza_backend.Commerce.{CommerceConfig}
use prime_pizza_backend.Models.{User, Cart, Order}
use prime_pizza_backend.Store.{World, Service}
use prime_pizza_backend.Orders.Views.{OrderDetailResponse}
use prime_pizza_backend.Cart.Lines.{Settings}
use prime_pizza_backend.Cart.Recalculate.{live_items}
use prime_pizza_backend.Cart.Priced.{IsPriced}
use prime_pizza_backend.Cart.Service.{get_active}
use prime_pizza_backend.Checkout.Issues.{is_nil}
use prime_pizza_backend.Checkout.Place.{
  checked_order, close_order, draft_order, is_cash, is_online, ready_cart,
}
use prime_pizza_backend.Checkout.Draft.{PlaceOrderRequest}
use prime_pizza_backend.Checkout.Ready.{Before, Safe-ready}
use prime_pizza_backend.Checkout.SameCart.{SameCart, SameCart-refl}
use prime_pizza_backend.Checkout.Drafted.{FromCart, Safe-draft}
use prime_pizza_backend.Checkout.Closed.{Closed, close_order-Closed, closed}

-- A new order for the user's active cart, which is priced from the catalog and has lines, with the
-- cart's lines and totals.
pub record Placed (commerce : CommerceConfig) (user : User) (key : Option Text) (w0 : World)
    (r : OrderDetailResponse) (w' : World) : Type 0 where
  pub start : Cart
  pub cart : Cart
  pub order : Order
  pub is_start : get_active w0.db.carts user.id ≡ some start
  pub same_cart : SameCart start cart
  pub is_priced : IsPriced commerce w0.db.catalog cart
  pub has_lines : is_nil (live_items cart.items) ≡ false
  pub from_cart : FromCart w0.db.catalog user cart order
  pub is_closed : Closed user.id key w0 order r w'

pub data Outcome (commerce : CommerceConfig) (user : User) (key : Option Text) (w0 : World)
    : Result AppException OrderDetailResponse × World → Type 0 where
  refused :
      (e : AppException) (w : World)
      → w.committed ≡ w0.committed
      → Outcome commerce user key w0 (err e, w)
  placed :
      (r : OrderDetailResponse) (w : World)
      → Placed commerce user key w0 r w
      → Outcome commerce user key w0 (ok r, w)

module _ (settings : Settings) (commerce : CommerceConfig) (user : User) (w0 : World) where
  abbrev Ends : Option Text → Result AppException OrderDetailResponse × World → Type 0
  Ends key = Outcome commerce user key w0

  Ends-bind :
      {key : Option Text} {A : Type 0} (start : Cart) (Q : A → Type 0)
      (p : Result AppException A × World) (k : A → Service OrderDetailResponse) (w : World)
      → Good (Before w0 user.id start) Q p
      → ((a : A) (t : World) → Before w0 user.id start t → Q a → Ends key (k a t))
      → Ends key (((λ _. p) >>= k) w)
  Ends-bind start Q (ok a, t) k w (b, q) h = h a t b (q a refl)
  Ends-bind start Q (err e, t) k w (b, q) h = refused e t b.same_committed

  close-Ends :
      (payload : PlaceOrderRequest) (start cart : Cart) (order : Order) (w : World)
      → get_active w0.db.carts user.id ≡ some start
      → Before w0 user.id start w
      → SameCart start cart
        × IsPriced commerce w0.db.catalog cart
        × (is_nil (live_items cart.items) ≡ false)
      → FromCart w0.db.catalog user cart order
      → Ends payload.idempotency_key (close_order settings commerce user payload cart order w)
  close-Ends payload start cart order w found b (same, priced, lines) from =
      let (r, e, done) =
        close_order-Closed settings commerce user payload cart order w from.present in
      rw e (
        placed r (closed settings commerce user payload cart order w) record {
          start = start;
          cart = cart;
          order = order;
          is_start = found;
          same_cart = same;
          is_priced = priced;
          has_lines = lines;
          from_cart = from;
          is_closed = record {
            added = done.added ∙ ap (λ l. l ++ order ∷ []) b.same_orders;
            is_committed = done.is_committed;
            row = done.row;
            stored = done.stored;
            shown = done.shown;
            is_keyed = done.is_keyed;
          };
        })

  checked-Ends :
      (payload : PlaceOrderRequest) (start : Cart) (w : World)
      → get_active w0.db.carts user.id ≡ some start
      → Before w0 user.id start w
      → Ends payload.idempotency_key (checked_order settings commerce user payload w)
  unfolding checked_order
  checked-Ends payload start w found b =
      Ends-bind start _ (ready_cart settings commerce user payload w) _ w
        ((Safe-ready settings commerce w0 user start payload).run w b)
        λ cart t b q.
          Ends-bind start _ (draft_order settings commerce user payload cart t)
            (close_order settings commerce user payload cart) t
            ((Safe-draft settings commerce w0 user start payload cart).run t b)
            (λ order t b from. close-Ends payload start cart order t found b q from)

  -- Without an active cart the checkout stops at once.
  checked-no_cart :
      (payload : PlaceOrderRequest) (w : World)
      → get_active w.db.carts user.id ≡ none
      → w.committed ≡ w0.committed
      → Ends payload.idempotency_key (checked_order settings commerce user payload w)
  unfolding checked_order ready_cart
  checked-no_cart payload w gone same = elim (Bool-cases (is_online payload.payment_method)) [
    | inl online ↦
        let e : checked_order settings commerce user payload w
            ≡ (err (validation_exception (text "Online payment is not available yet")), w) =
          ground arith in
        rw e (refused _ w same)
    | inr offline ↦ elim (Bool-cases (is_cash payload.payment_method)) [
      | inl cash ↦
          let e : checked_order settings commerce user payload w
              ≡ (err (validation_exception (text "Cart is empty or already checked out")), w) =
            ground arith in
          rw e (refused _ w same)
      | inr other ↦
          let e : checked_order settings commerce user payload w
              ≡ (err (validation_exception (text "Unsupported payment method")), w) =
            ground arith in
          rw e (refused _ w same)
    ]
  ]

  pub checked-any :
      (payload : PlaceOrderRequest) (w : World)
      → w.committed ≡ w0.committed
      → w.db ≡ w0.db
      → Ends payload.idempotency_key (checked_order settings commerce user payload w)
  checked-any payload w same db = elim (Option-cases (get_active w.db.carts user.id)) [
    | inl gone ↦ checked-no_cart payload w gone same
    | inr (cart, found) ↦
        checked-Ends payload cart w (ap (λ d. get_active d.carts user.id) (sym db) ∙ found) record {
          same_committed = same;
          same_orders = ap (λ d. d.orders) db;
          same_catalog = ap (λ d. d.catalog) db;
          cart = cart;
          has_cart = found;
          same_cart = SameCart-refl cart;
        }
  ]
