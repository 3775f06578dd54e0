-- ===== src/Checkout/Placed.antt =====
-- How a request to place an order ends.
use prime_pizza_backend.Base.{
  any, any-keep-not, ap, ℕ, ◌≡◌, refl, ◌∙◌, sym, Bool, true, false, Option, none, some, [], ◌∷◌,
  arith, ◌==◌,
}
use prime_pizza_backend.Base.Exec.{Result, ok, err}
use prime_pizza_backend.Text.{Text}
use prime_pizza_backend.Errors.{AppException, status_code}
use prime_pizza_backend.Commerce.{CommerceConfig}
use prime_pizza_backend.Models.{User, Order}
use prime_pizza_backend.Store.{rolled_back, World}
use prime_pizza_backend.Orders.Views.{OrderDetailResponse, to_detail}
use prime_pizza_backend.Cart.Lines.{Settings}
use prime_pizza_backend.Checkout.Redis.{
  acquire_checkout_lock, get_idempotent_order_id, release_checkout_lock,
}
use prime_pizza_backend.Checkout.Place.{locked_order, place_order, replay_or_place, settle_checkout}
use prime_pizza_backend.Checkout.Draft.{PlaceOrderRequest}
use prime_pizza_backend.Checkout.Earlier.{Barred, Earlier, acquire_lem, earlier_order-Earlier}
use prime_pizza_backend.Checkout.Ended.{Placed, Outcome, refused, placed, checked-any}

-- The user's checkout lock is not taken, while Redis can be reached.
abbrev pub IsFree : ℕ → World → Type 0
IsFree user_id w = w.redis.is_up ≡ true → any (λ u. u == user_id) w.redis.locks ≡ false

pub release_lem :
    (user_id : ℕ) (w : World)
    → let w' = release_checkout_lock user_id w in
      (w'.db ≡ w.db)
      × (w'.committed ≡ w.committed)
      × (w'.redis.is_up ≡ true → any (λ u. u == user_id) w'.redis.locks ≡ false)
unfolding release_checkout_lock
release_lem user_id w = ground (arith, any-keep-not (λ u. u == user_id) w.redis.locks)

pub release_key :
    (user_id : ℕ) (key : Option Text) (w : World)
    → let w' = release_checkout_lock user_id w in
      (w'.redis.is_up ≡ w.redis.is_up)
      × (get_idempotent_order_id user_id key w' ≡ get_idempotent_order_id user_id key w)
unfolding release_checkout_lock get_idempotent_order_id
release_key user_id none w = ground arith
release_key user_id (some []) w = ground arith
release_key user_id (some (c ∷ s)) w = ground arith

-- How a request to place an order can end.
pub data Placement (commerce : CommerceConfig) (user : User) (key : Option Text) (w0 : World)
    : Result AppException OrderDetailResponse × World → Type 0 where
  -- The user's order that Redis has under the user's key.
  replayed :
      (order : Order)
      → Earlier user.id key w0 order
      → Placement commerce user key w0 (ok (to_detail order false), w0)
  -- Another checkout of the user is going on, or Redis is down.
  turned_away :
      (e : AppException) (w : World)
      → status_code e ≡ 409
      → Barred user.id w0
      → w ≡ w0
      → Placement commerce user key w0 (err e, w)
  -- Nothing of the database has changed.
  rolled :
      (e : AppException) (w : World)
      → w.db ≡ w0.committed
      → w.committed ≡ w0.committed
      → IsFree user.id w
      → Placement commerce user key w0 (err e, w)
  fulfilled :
      (r : OrderDetailResponse) (w : World)
      → Placed commerce user key w0 r w
      → IsFree user.id w
      → Placement commerce user key w0 (ok r, w)

settle-Placement :
    (settings : Settings) (commerce : CommerceConfig) (user : User) {key : Option Text} (w0 : World)
    (p : Result AppException OrderDetailResponse × World)
    → Outcome commerce user key w0 p
    → Placement commerce user key w0 (settle_checkout settings commerce user.id p)
settle-Placement settings commerce user w0 _ (refused e w same) =
    let (d, c, f) = release_lem user.id (rolled_back w) in
    rolled e (release_checkout_lock user.id (rolled_back w)) (d ∙ same) (c ∙ same) f
settle-Placement settings commerce user {key = key} w0 _ (placed r w p) =
    let (d, c, f) = release_lem user.id w in
    let k = p.is_closed in
    fulfilled r (release_checkout_lock user.id w)
      (record {
        start = p.start;
        cart = p.cart;
        order = p.order;
        is_start = p.is_start;
        same_cart = p.same_cart;
        is_priced = p.is_priced;
        has_lines = p.has_lines;
        from_cart = p.from_cart;
        is_closed = record {
          added = ap (λ x. x.orders) d ∙ k.added;
          is_committed = c ∙ k.is_committed ∙ sym d;
          row = k.row;
          stored = rw d k.stored;
          shown = k.shown;
          is_keyed = λ c s e up.
              let (same_up, same_key) = release_key user.id key w in
              same_key ∙ k.is_keyed c s e (sym same_up ∙ up);
        };
      })
      f

module _ (settings : Settings) (commerce : CommerceConfig) (user : User)
    (payload : PlaceOrderRequest) where
  locked-Placement :
      (w : World) (p : Bool × World)
      → p.1.db ≡ w.db
      → p.1.committed ≡ w.committed
      → (p.0 ≡ false → (p.1 ≡ w) × Barred user.id w)
      → Placement commerce user payload.idempotency_key w
          (locked_order settings commerce user payload p)
  unfolding status_code
  locked-Placement w (true, v) db same kept =
      settle-Placement settings commerce user w _
        (checked-any settings commerce user w payload v same db)
  locked-Placement w (false, v) db same kept =
      let (same_world, barred) = kept refl in turned_away _ v refl barred same_world

  replay-Placement :
      (w : World) (o : Option Order)
      → ((d : Order) → o ≡ some d → Earlier user.id payload.idempotency_key w d)
      → Placement commerce user payload.idempotency_key w
          (replay_or_place settings commerce user payload o w)
  replay-Placement w (some d) own = replayed d (own d refl)
  replay-Placement w none own =
      let (db, same, kept) = acquire_lem user.id w in
      locked-Placement w (acquire_checkout_lock user.id w) db same kept

-- Every request to place an order ends in one of four ways. It is answered with an order of the user
-- that Redis has under this user and this key, which is not empty, and nothing changes. Or it is
-- refused with 409 because Redis is down or a checkout of the user holds the lock, and nothing
-- changes. Or it is refused and the database is as last committed. Or there is exactly one order
-- more, committed, pending and unpaid, with the lines and totals of the cart that was the user's
-- active one at the start: its goods and quantities are the same, it is priced from the catalog, and
-- it is not empty. In the last two the lock is free again.
pub place_order-Placement :
    (settings : Settings) (commerce : CommerceConfig) (user : User) (payload : PlaceOrderRequest)
    (w : World)
    → Placement commerce user payload.idempotency_key w
        (place_order settings commerce user payload w)
unfolding place_order
place_order-Placement settings commerce user payload w =
    replay-Placement settings commerce user payload w _
      (earlier_order-Earlier settings commerce user.id payload.idempotency_key w)
