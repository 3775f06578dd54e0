-- ===== src/Checkout/Replay.antt =====
-- A request to place an order that is sent again.
use prime_pizza_backend.Base.{
  any, ap, ℕ, ◌≡◌, refl, ◌∙◌, sym, inl, inr, Bool, true, false, Option, none, some, List, [], ◌∷◌,
  ◌++◌, arith, ◌==◌, eqb_refl, Option-cases,
}
use prime_pizza_backend.Base.Exec.{Result, ok, ok-injective}
use prime_pizza_backend.Text.{Text}
use prime_pizza_backend.Errors.{AppException}
use prime_pizza_backend.Commerce.{CommerceConfig}
use prime_pizza_backend.Models.{User, Order}
use prime_pizza_backend.Store.{World}
use prime_pizza_backend.Orders.Table.{get_detail, get_for_user, get_for_user-own, IsKeyed}
use prime_pizza_backend.Orders.Views.{OrderDetailResponse, to_detail}
use prime_pizza_backend.Cart.Lines.{Settings}
use prime_pizza_backend.Checkout.Redis.{
  acquire_checkout_lock, get_idempotent_order_id, release_checkout_lock,
}
use prime_pizza_backend.Checkout.Place.{
  earlier_order, locked_order, place_order, replay_or_place, settle_checkout,
}
use prime_pizza_backend.Checkout.Draft.{PlaceOrderRequest}
use prime_pizza_backend.Checkout.Ended.{Placed, Outcome, refused, placed, checked-any}
use prime_pizza_backend.Checkout.Placed.{release_lem, release_key}
use prime_pizza_backend.Checkout.Earlier.{acquire_lem}

any-last :
    (i : ℕ) (orders : List Order) (o : Order)
    → o.id ≡ i
    → any (λ p. p.id == i) (orders ++ o ∷ []) ≡ true
any-last i [] o e = ground (arith, eqb_refl i)
any-last i (p ∷ orders) o e = ground (arith, any-last i orders o)

get_detail-last :
    (orders : List Order) (o : Order)
    → IsKeyed (orders ++ o ∷ [])
    → o.deleted ≡ false
    → get_detail (orders ++ o ∷ []) o.id ≡ some o
unfolding get_detail
get_detail-last [] o k here = ground (arith, eqb_refl o.id)
get_detail-last (p ∷ orders) o (new, k) here =
    ground (arith, get_detail-last orders o k here, any-last p.id orders o)

some-injective : {A : Type 0} (a b : A) → some a ≡ some b → a ≡ b
some-injective a b e = cc

module _ (settings : Settings) (commerce : CommerceConfig) (user : User) where
  -- The order of a key answers every later request with it.
  earlier_answers :
      (payload : PlaceOrderRequest) (w : World) (order : Order)
      → earlier_order settings commerce user.id
          (get_idempotent_order_id user.id payload.idempotency_key w)
          w
        ≡ some order
      → place_order settings commerce user payload w ≡ (ok (to_detail order false), w)
  unfolding place_order
  earlier_answers payload w order e = ap (λ o. replay_or_place settings commerce user payload o w) e

  placed-earlier :
      (key : Option Text) (w0 x : World) (r : OrderDetailResponse) (c : ℕ) (s : Text)
      → Placed commerce user key w0 r x
      → key ≡ some (c ∷ s)
      → IsKeyed x.db.orders
      → x.redis.is_up ≡ true
      → (order : Order) × (earlier_order settings commerce user.id
            (get_idempotent_order_id user.id key x)
            x
          ≡ some order)
        × (r ≡ to_detail order false)
  placed-earlier key w0 x r c s p e k up =
      let closed = p.is_closed in
      let last : get_detail x.db.orders p.order.id ≡ some p.order =
        rw closed.added
          (get_detail-last w0.db.orders p.order (rw closed.added at k) p.from_cart.present) in
      let same : closed.row ≡ p.order =
        some-injective closed.row p.order (sym closed.stored ∙ last) in
      (
        p.order,
        rw (closed.is_keyed c s e up)
            (get_for_user-own x.db.orders p.order.id user.id p.order last p.from_cart.owner),
        closed.shown ∙ ap (λ o. to_detail o false) same,
      )

  unearlier :
      (payload : PlaceOrderRequest) (w : World)
      → earlier_order settings commerce user.id
          (get_idempotent_order_id user.id payload.idempotency_key w)
          w
        ≡ none
      → place_order settings commerce user payload w
        ≡ locked_order settings commerce user payload (acquire_checkout_lock user.id w)
  unfolding place_order
  unearlier payload w e = ap (λ o. replay_or_place settings commerce user payload o w) e

  settled :
      (key : Option Text) (w0 w' : World) (q : Result AppException OrderDetailResponse × World)
      (r : OrderDetailResponse)
      → Outcome commerce user key w0 q
      → settle_checkout settings commerce user.id q ≡ (ok r, w')
      → (x : World) × Placed commerce user key w0 r x × (w' ≡ release_checkout_lock user.id x)
  settled key w0 w' _ r (refused e x same) h = ground arith
  settled key w0 w' _ r (placed r' x p) h =
      let same : r' ≡ r = ok-injective r' r (ap (λ p. p.0) h) in
      (x, rw (sym same) p, sym (ap (λ p. p.1) h))

  locked-placed :
      (payload : PlaceOrderRequest) (w0 w' : World) (p : Bool × World) (r : OrderDetailResponse)
      → p.1.db ≡ w0.db
      → p.1.committed ≡ w0.committed
      → locked_order settings commerce user payload p ≡ (ok r, w')
      → (x : World) × Placed commerce user payload.idempotency_key w0 r x
        × (w' ≡ release_checkout_lock user.id x)
  locked-placed payload w0 w' (true, v) r db same h =
      settled payload.idempotency_key w0 w' _ r
        (checked-any settings commerce user w0 payload v same db) h
  locked-placed payload w0 w' (false, v) r db same h = ground arith

  earlier-same :
      (i : Option ℕ) (v w : World)
      → v.db ≡ w.db
      → earlier_order settings commerce user.id i v ≡ earlier_order settings commerce user.id i w
  earlier-same none v w e = refl
  earlier-same (some order_id) v w e = ap (λ d. get_for_user d.orders order_id user.id) e

  released-answers :
      (again : PlaceOrderRequest) (w0 x : World) (r : OrderDetailResponse) (c : ℕ) (s : Text)
      → Placed commerce user again.idempotency_key w0 r x
      → again.idempotency_key ≡ some (c ∷ s)
      → IsKeyed (release_checkout_lock user.id x).db.orders
      → (release_checkout_lock user.id x).redis.is_up ≡ true
      → place_order settings commerce user again (release_checkout_lock user.id x)
        ≡ (ok r, release_checkout_lock user.id x)
  released-answers again w0 x r c s p e k up =
      let w' = release_checkout_lock user.id x in
      let (db, _, _) = release_lem user.id x in
      let (same_up, same_key) = release_key user.id again.idempotency_key x in
      let (order, found, shown) =
        placed-earlier again.idempotency_key w0 x r c s p e (rw (sym db) k) (sym same_up ∙ up) in
      let found' : earlier_order settings commerce user.id
            (get_idempotent_order_id user.id again.idempotency_key w') w'
          ≡ some order =
        ap (λ i. earlier_order settings commerce user.id i w') same_key
        ∙ earlier-same (get_idempotent_order_id user.id again.idempotency_key x) w' x db
        ∙ found in
      earlier_answers again w' order found' ∙ ap (λ d. (ok d, w')) (sym shown)

  -- With a key that is not empty, while Redis is up, and where no two orders have one id: once a
  -- request to place an order has been answered, a further request of the user with the same key,
  -- whatever else it asks for, is answered with the same order and changes nothing.
  pub place_order_again :
      (payload again : PlaceOrderRequest) (w w' : World) (r : OrderDetailResponse) (c : ℕ)
      (s : Text)
      → payload.idempotency_key ≡ some (c ∷ s)
      → again.idempotency_key ≡ some (c ∷ s)
      → place_order settings commerce user payload w ≡ (ok r, w')
      → IsKeyed w'.db.orders
      → w'.redis.is_up ≡ true
      → place_order settings commerce user again w' ≡ (ok r, w')
  place_order_again payload again w w' r c s e e' run k up =
      let key : again.idempotency_key ≡ payload.idempotency_key = e' ∙ sym e in
      elim (Option-cases (
        earlier_order settings commerce user.id
          (get_idempotent_order_id user.id payload.idempotency_key w) w)) [
            | inr (d, found) ↦
                let first = sym run ∙ earlier_answers payload w d found in
                let world : w' ≡ w = ap (λ p. p.1) first in
                let shown : r ≡ to_detail d false = ok-injective r _ (ap (λ p. p.0) first) in
                rw (world, shown)
                  (earlier_answers again w d (
                    ap
                      (λ k.
                        earlier_order settings commerce user.id
                          (get_idempotent_order_id user.id k w) w)
                      key
                    ∙ found))
            | inl none_ ↦
                let (db, same, _) = acquire_lem user.id w in
                let (x, p, world) =
                  locked-placed payload w w' (acquire_checkout_lock user.id w) r db same
                    (sym (unearlier payload w none_) ∙ run) in
                rw world
                  (released-answers again w x r c s (rw key p) e' (rw world at k) (rw world at up))
          ]
