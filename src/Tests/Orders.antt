-- ===== src/Tests/Orders.antt =====
-- Placed orders: the status machine, the managing methods, the cache and the kitchen.
use prime_pizza_backend.Base.{
  ℕ, ◌+◌, ◌≡◌, ◌≢◌, ◌⊎◌, refl, true, false, Option, none, some, List, [], ◌∷◌, map, arith, inl,
  keep, length,
}
use prime_pizza_backend.Base.Exec.{ok, err}
use prime_pizza_backend.Text.{codes}
use prime_pizza_backend.Errors.{AppException, status_code}
use prime_pizza_backend.Enums.{
  pending, confirmed, preparing, ready, delivered, cancelled, refunded, paid,
}
use prime_pizza_backend.Models.{User, Order}
use prime_pizza_backend.Orders.Status.{is_allowed}
use prime_pizza_backend.Orders.Status.Progress.{
  ◌⟶*◌, here, next, no_status_cycle, settled_reach, open_reach,
}
use prime_pizza_backend.Orders.Table.{get_detail, get_for_user, IsKeyed}
use prime_pizza_backend.Orders.Moved.{Moved, Answers}
use prime_pizza_backend.Orders.Manage.{
  update_status, cancel_my_order, track_my_order, tracking_of, cached_tracking,
}
use prime_pizza_backend.Orders.Effects.{
  Changes, MayCancel, update_status_allowed, update_status_refused, cancel_my_order_allowed,
  cancel_my_order_refused,
}
use prime_pizza_backend.Orders.Calls.{Call, status_call, payment_call, cancel_call, calls}
use prime_pizza_backend.Orders.Cache.{IsCoherent, calls-IsCoherent, track_my_order-current}
use prime_pizza_backend.Orders.History.{Evolves, calls-Evolves}
use prime_pizza_backend.Kitchen.Board.{get_board, list_by_statuses, all_statuses, card}
use prime_pizza_backend.Kitchen.Columns.{Column, cards, in_column, get_board-columns}
use prime_pizza_backend.Kitchen.Actions.{apply_action, update_status as update_kitchen_status}
use prime_pizza_backend.Kitchen.Moves.{accept, Shows, apply_action_allowed, update_status_pending}
use prime_pizza_backend.Tests.Fixtures.{old_order, done_order, world}

no_status_cycle_example : delivered ≢ pending
unfolding is_allowed
no_status_cycle_example =
    no_status_cycle pending confirmed delivered refl
      (next {t = ready} (next {t = preparing} (next {t = confirmed} here refl) refl) refl)

settled_reach_example : (refunded ≡ delivered) ⊎ (refunded ≡ refunded)
unfolding is_allowed
settled_reach_example = settled_reach delivered refunded (inl refl) (next {t = delivered} here refl)

open_reach_example : (ready ⟶* delivered) × (ready ⟶* cancelled)
open_reach_example = open_reach ready (omega arith)

old_order_found : get_detail world.db.orders 40 ≡ some old_order
unfolding get_detail
old_order_found = refl

done_order_found : get_detail world.db.orders 41 ≡ some done_order
unfolding get_detail
done_order_found = refl

pending_confirmed : is_allowed pending confirmed ≡ true
unfolding is_allowed
pending_confirmed = refl

update_status_allowed_example :
    let (r, w') = update_status 2 40 confirmed none world in
    (new : Order) × Moved confirmed 2 none old_order new
    × Changes world w' 40 new
    × Answers old_order new r
update_status_allowed_example =
    update_status_allowed world 2 40 confirmed none old_order old_order_found pending_confirmed

delivered_barred :
    (order : Order)
    → get_detail world.db.orders 41 ≡ some order
    → is_allowed order.status pending ≡ false
unfolding get_detail is_allowed
delivered_barred order e = ground arith

update_status_refused_example :
    (e : AppException) × (update_status 2 41 pending none world ≡ (err e, world))
    × ((status_code e ≡ 422) ⊎ (status_code e ≡ 404))
update_status_refused_example = update_status_refused world 2 41 pending none delivered_barred

may_cancel : MayCancel world 5 1 old_order
may_cancel = record { is_owner = refl; is_cancelable = inl refl; in_window = omega arith }

cancel_my_order_allowed_example :
    let (r, w') = cancel_my_order 5 1 40 none world in
    (new : Order) × Moved cancelled 1 (some (codes "Cancelled by customer")) old_order new
    × Changes world w' 40 new
    × Answers old_order new r
cancel_my_order_allowed_example =
    cancel_my_order_allowed world 5 1 40 none old_order old_order_found may_cancel

not_mine :
    (order : Order) → get_for_user world.db.orders 41 1 ≡ some order → ¬ MayCancel world 5 1 order
unfolding get_for_user
not_mine order e may = ground arith

cancel_my_order_refused_example :
    (e : AppException) × (cancel_my_order 5 1 41 none world ≡ (err e, world))
    × ((status_code e ≡ 422) ⊎ (status_code e ≡ 404))
cancel_my_order_refused_example = cancel_my_order_refused world 5 1 41 none not_mine

abbrev busy_day : List Call
busy_day =
    status_call 2 40 confirmed none
    ∷ cancel_call 1 41 none
    ∷ payment_call 2 40 paid none
    ∷ status_call 2 40 preparing none
    ∷ []

world-IsKeyed : IsKeyed world.db.orders
world-IsKeyed = (refl, (refl, tt))

calls-Evolves_example :
    (q : Order) × (get_detail (calls 5 busy_day world).db.orders 40 ≡ some q) × Evolves old_order q
calls-Evolves_example = calls-Evolves 5 busy_day world 40 old_order world-IsKeyed old_order_found

world-IsCoherent : IsCoherent world
world-IsCoherent = record { is_current = λ i t e. ground arith }

calls-IsCoherent_example : IsCoherent (calls 5 busy_day world)
calls-IsCoherent_example = calls-IsCoherent 5 busy_day world world-IsKeyed refl world-IsCoherent

tracked : (track_my_order 1 40 world).0 ≡ ok (tracking_of old_order)
unfolding track_my_order get_for_user cached_tracking
tracked = refl

track_my_order-current_example :
    (o : Order) × (get_detail world.db.orders 40 ≡ some o)
    × (o.user_id ≡ 1)
    × (tracking_of old_order ≡ tracking_of o)
track_my_order-current_example =
    track_my_order-current world 1 40 (tracking_of old_order) world-IsCoherent world-IsKeyed tracked

abbrev nobody : ℕ → Option User
nobody _ = none

get_board-columns_example :
    let rows = list_by_statuses world.db.orders all_statuses 200 in
    let board = get_board nobody world.db.orders in
    ((c : Column) → cards c board ≡ map (card nobody) (keep (in_column c) rows))
    × (length board.incoming
          + length board.preparing
          + length board.ready
          + length board.completed
          + length board.cancelled
        ≡ length rows)
get_board-columns_example = get_board-columns nobody world.db.orders

apply_action_allowed_example :
    let (r, w') = apply_action nobody 2 40 (codes "accept") none world in
    (new : Order) × Moved confirmed 2 none old_order new × Changes world w' 40 new × Shows new r
apply_action_allowed_example =
    apply_action_allowed nobody world 2 40 (codes "accept") none old_order confirmed accept
      old_order_found pending_confirmed

update_status_pending_example :
    (e : AppException) × (update_kitchen_status nobody 2 40 (codes "pending") none world
      ≡ (err e, world))
    × ((status_code e ≡ 422) ⊎ (status_code e ≡ 404))
update_status_pending_example = update_status_pending nobody world 2 40 none
