-- ===== src/Checkout/Stable/Requests.antt =====
-- Requests to place an order, and other work between them, keep an invariant that the draft and the
-- end of a checkout keep.
use prime_pizza_backend.Base.{Bool, true, false, Option, none, some, List, [], ◌∷◌}
use prime_pizza_backend.Base.Exec.{Result, ok, err}
use prime_pizza_backend.Errors.{AppException}
use prime_pizza_backend.Commerce.{CommerceConfig}
use prime_pizza_backend.Models.{User, Order}
use prime_pizza_backend.Store.{World, finish, rolled_back, run_request}
use prime_pizza_backend.Orders.Views.{OrderDetailResponse}
use prime_pizza_backend.Cart.Lines.{Settings}
use prime_pizza_backend.Checkout.Draft.{PlaceOrderRequest}
use prime_pizza_backend.Checkout.Redis.{acquire_checkout_lock, release_checkout_lock}
use prime_pizza_backend.Checkout.Place.{
  checked_order, locked_order, place_order, replay_or_place, settle_checkout,
}
use prime_pizza_backend.Checkout.Earlier.{acquire_lem}
use prime_pizza_backend.Checkout.Placed.{release_lem}
use prime_pizza_backend.Checkout.Stable.{Stable, SameRows-of}

-- A request to place an order, or any other work, of which we know what it leaves alone.
pub data ShopCall (Leaves : World → World → Type 0) : Type 0 where
  order_call : CommerceConfig → User → PlaceOrderRequest → ShopCall Leaves
  other_call : (f : World → World) → ((w : World) → Leaves w (f w)) → ShopCall Leaves

unfoldable pub shop_call :
    {Leaves : World → World → Type 0} → Settings → ShopCall Leaves → World → World
unfolding run_request
shop_call settings (order_call commerce user payload) w =
    (run_request (place_order settings commerce user payload) w).1
shop_call settings (other_call f same) w = f w

unfoldable pub shop_calls :
    {Leaves : World → World → Type 0} → Settings → List (ShopCall Leaves) → World → World
unfolding shop_call
shop_calls settings [] w = w
shop_calls settings (c ∷ cs) w = shop_calls settings cs (shop_call settings c w)

module _ (I : World → Type 0) (stable : Stable I) (back : (w : World) → I w → I (rolled_back w))
    (settings : Settings)
    (checked : (commerce : CommerceConfig) (user : User) (payload : PlaceOrderRequest) (w : World)
      → I w
      → I (checked_order settings commerce user payload w).1) where
  module _ (commerce : CommerceConfig) (user : User) where
    release_keeps : (w : World) → I w → I (release_checkout_lock user.id w)
    release_keeps w h =
        let (db, committed, _) = release_lem user.id w in
        let w' = release_checkout_lock user.id w in
        stable.same w w' (SameRows-of w.db w'.db db)
          (SameRows-of w.committed w'.committed committed) h

    settle_keeps :
        (p : Result AppException OrderDetailResponse × World)
        → I p.1
        → I (settle_checkout settings commerce user.id p).1
    settle_keeps (ok r, w) h = release_keeps w h
    settle_keeps (err e, w) h = release_keeps (rolled_back w) (back w h)

    locked_keeps :
        (payload : PlaceOrderRequest) (p : Bool × World)
        → I p.1
        → I (locked_order settings commerce user payload p).1
    locked_keeps payload (true, w) h =
        settle_keeps (checked_order settings commerce user payload w)
          (checked commerce user payload w h)
    locked_keeps payload (false, w) h = h

    replay_keeps :
        (payload : PlaceOrderRequest) (o : Option Order) (w : World)
        → I w
        → I (replay_or_place settings commerce user payload o w).1
    replay_keeps payload (some order) w h = h
    replay_keeps payload none w h =
        let (db, committed, _) = acquire_lem user.id w in
        let w' = (acquire_checkout_lock user.id w).1 in
        locked_keeps payload (acquire_checkout_lock user.id w) (
          stable.same w w' (SameRows-of w.db w'.db db)
            (SameRows-of w.committed w'.committed committed) h)

    place_keeps :
        (payload : PlaceOrderRequest) (w : World)
        → I w
        → I (place_order settings commerce user payload w).1
    unfolding place_order
    place_keeps payload w h = replay_keeps payload _ w h

  finish_keeps : (p : Result AppException OrderDetailResponse × World) → I p.1 → I (finish p).1
  finish_keeps (ok r, w) h = h
  finish_keeps (err e, w) h = back w h

  module _ (Leaves : World → World → Type 0)
      (kept : (w w' : World) → Leaves w w' → I w → I w') where
    shop_call_keeps : (c : ShopCall Leaves) (w : World) → I w → I (shop_call settings c w)
    unfolding shop_call
    shop_call_keeps (order_call commerce user payload) w h =
        finish_keeps (place_order settings commerce user payload w)
          (place_keeps commerce user payload w h)
    shop_call_keeps (other_call f same) w h = kept w (f w) (same w) h

    pub shop_calls_keep :
        (cs : List (ShopCall Leaves)) (w : World) → I w → I (shop_calls settings cs w)
    unfolding shop_calls
    shop_calls_keep [] w h = h
    shop_calls_keep (c ∷ cs) w h =
        shop_calls_keep cs (shop_call settings c w) (shop_call_keeps c w h)
