-- ===== src/Orders/Manage.antt =====
-- The methods of `OrderService` on an order that has been placed, as actions on the store.
use prime_pizza_backend.Base.{
  ℕ, ◌*◌, ◌-◌, Bool, true, false, ◌&&◌, not, Option, none, some, [], ◌∷◌, ◌++◌, ltb, ◌==◌, keep,
  find_first, is_none, if◌then◌else◌,
}
use prime_pizza_backend.Base.Exec.{pure, gets, modify, raise_if, or_raise, ◌>>=◌, ◌>>◌}
use prime_pizza_backend.Text.{Text, codes}
use prime_pizza_backend.Errors.{
  validation_exception, not_found_exception, assertion_error, text, transition,
}
use prime_pizza_backend.Enums.{
  OrderStatus, cancelled, refunded, PaymentStatus, payment_pending, paid, failed, payment_refunded,
  partially_refunded, payment_cancelled, same_status, same_payment, status_in,
}
use prime_pizza_backend.Catalog.{alive}
use prime_pizza_backend.Models.{User, Order, OrderTimelineEvent}
use prime_pizza_backend.Authorization.Ownership.{ensure_owner_or_self}
use prime_pizza_backend.Store.{World, Tracking, Service, commit}
use prime_pizza_backend.Orders.Status.{status_title, customer_cancelable, is_allowed}
use prime_pizza_backend.Orders.Table.{get_detail, get_for_user, replace_order}
use prime_pizza_backend.Orders.Views.{OrderDetailResponse, to_detail}

-- `a or b` at texts
abbrev pub text_or : Option Text → Text → Text
text_or none d = d
text_or (some []) d = d
text_or (some (c ∷ s)) d = c ∷ s

-- `_add_timeline`
unfoldable pub add_timeline : OrderStatus → ℕ → Option Text → Order → Order
add_timeline status performed_by notes order =
    let event : OrderTimelineEvent = record {
      status = status;
      title = status_title status;
      notes = notes;
      performed_by = some performed_by;
      deleted = false;
    } in
    record order { timeline = order.timeline ++ event ∷ [] }

-- `OrderCacheService.invalidate_order`: of the keys that it deletes only the tracking view is ever
-- read. While Redis is down the error is logged and the entry stays.
unfoldable pub invalidate_order : ℕ → World → World
invalidate_order order_id w =
    if w.redis.is_up
    then record w {
      redis = record w.redis {
        tracking = keep (λ t. not (t.order_id == order_id)) w.redis.tracking;
      };
    }
    else w

abbrev pub save_order : Order → World → World
save_order order w = record w { db = record w.db { orders = replace_order order w.db.orders } }

-- The reloaded row is the object that the method loaded at its start: its columns have the values
-- that were assigned, and its timeline is the collection that was loaded then. The session refreshes
-- no loaded collection, so an event that was added by its foreign key is not in it.
abbrev pub as_loaded : Order → Order → Order
as_loaded loaded detail = record detail { timeline = loaded.timeline }

-- The tail of a method that loaded the order: answer from the reloaded row.
unfoldable pub respond : Order → ℕ → Bool → Service OrderDetailResponse
respond loaded order_id include_internal = do
  detail ← (λ w. or_raise (get_detail w.db.orders order_id) assertion_error w)
  pure (to_detail (as_loaded loaded detail) include_internal)

-- `session.commit()`, then `invalidate_order`
unfoldable pub store_change : Order → Service (Unit {0})
unfolding invalidate_order
store_change order = do modify (save_order order); commit; modify (invalidate_order order.id)

-- The assignments of `update_status`.
unfoldable pub with_status : OrderStatus → Order → Order
with_status status order = record order {
  status = status;
  payment_status =
      if same_status status refunded
      then payment_refunded
      else if same_status status cancelled && same_payment order.payment_status payment_pending
      then payment_cancelled
      else order.payment_status;
}

abbrev pub find_detail : ℕ → Service Order
find_detail order_id w =
    or_raise (get_detail w.db.orders order_id) (not_found_exception (text "Order not found")) w

abbrev pub find_for_user : ℕ → ℕ → Service Order
find_for_user order_id user_id w =
    or_raise (get_for_user w.db.orders order_id user_id)
      (not_found_exception (text "Order not found")) w

unfoldable pub update_status : ℕ → ℕ → OrderStatus → Option Text → Service OrderDetailResponse
update_status actor_id order_id status notes = do
  order ← find_detail order_id
  raise_if (same_status status order.status)
      (validation_exception (text "Order is already in this status"))
  raise_if (not (is_allowed order.status status))
      (validation_exception (transition order.status status))
  store_change (add_timeline status actor_id notes (with_status status order))
  respond order order_id true

-- `window` is the setting `order_cancel_window_minutes`; times are seconds. On the truncated
-- difference a row from the future is inside the window, as in the source.
unfoldable pub cancel_my_order : ℕ → ℕ → ℕ → Option Text → Service OrderDetailResponse
cancel_my_order window user_id order_id reason = do
  order ← find_for_user order_id user_id
  raise_if (not (status_in order.status customer_cancelable))
      (validation_exception (text "Order can no longer be cancelled"))
  now ← gets (λ w. w.now)
  raise_if (ltb (window * 60) (now - order.created_at))
      (validation_exception (text "Cancellation window has expired"))
  store_change (
      add_timeline cancelled user_id (some (text_or reason (codes "Cancelled by customer")))
        (record order {
          status = cancelled;
          payment_status =
              if same_payment order.payment_status payment_pending
              then payment_cancelled
              else order.payment_status;
        }))
  respond order order_id false

abbrev pub payment_value : PaymentStatus → Text
payment_value payment_pending = codes "pending"
payment_value paid = codes "paid"
payment_value failed = codes "failed"
payment_value payment_refunded = codes "refunded"
payment_value partially_refunded = codes "partially_refunded"
payment_value payment_cancelled = codes "cancelled"

unfoldable pub update_payment : ℕ → ℕ → PaymentStatus → Option Text → Service OrderDetailResponse
update_payment actor_id order_id payment_status notes = do
  order ← find_detail order_id
  store_change (
      add_timeline order.status actor_id
        (some (text_or notes (codes "Payment status: " ++ payment_value payment_status)))
        (record order { payment_status = payment_status }))
  respond order order_id true

-- The fields that the request sets, each to a text or to null.
pub record UpdateOrderNotesRequest : Type 0 where
  pub notes : Option (Option Text)
  pub kitchen_notes : Option (Option Text)
  pub internal_notes : Option (Option Text)

abbrev pub set_or_keep : Option (Option Text) → Option Text → Option Text
set_or_keep none old = old
set_or_keep (some new) _ = new

unfoldable pub update_notes : ℕ → UpdateOrderNotesRequest → Service OrderDetailResponse
update_notes order_id payload = do
  order ← find_detail order_id
  raise_if
      (is_none payload.notes && is_none payload.kitchen_notes && is_none payload.internal_notes)
      (validation_exception (text "No note fields provided"))
  store_change (record order {
    notes = set_or_keep payload.notes order.notes;
    kitchen_notes = set_or_keep payload.kitchen_notes order.kitchen_notes;
    internal_notes = set_or_keep payload.internal_notes order.internal_notes;
  })
  respond order order_id true

unfoldable pub get_my_order : User → ℕ → Service OrderDetailResponse
get_my_order user order_id = do
  order ← find_for_user order_id user.id
  (λ w. (ensure_owner_or_self user (some order.user_id) (codes "order") true, w))
  pure (to_detail order false)

unfoldable pub get_admin_order : ℕ → Service OrderDetailResponse
get_admin_order order_id = do order ← find_detail order_id; pure (to_detail order true)

-- The view that tracking builds from a row.
unfoldable pub tracking_of : Order → Tracking
tracking_of order = record {
  order_id = order.id;
  user_id = order.user_id;
  current_status = order.status;
  payment_status = order.payment_status;
  timeline = keep (λ e. alive e.deleted) order.timeline;
  estimated_preparation_minutes = order.estimated_preparation_minutes;
  estimated_delivery_time = order.estimated_delivery_time;
}

-- The test of the cached entry's owner.
abbrev pub owned_by : ℕ → Option Tracking → Option Tracking
owned_by user_id none = none
owned_by user_id (some t) = if t.user_id == user_id then some t else none

-- `OrderCacheService.get_json(tracking_key(…))`, with that test
unfoldable pub cached_tracking : World → ℕ → ℕ → Option Tracking
cached_tracking w order_id user_id =
    if w.redis.is_up
    then owned_by user_id (find_first (λ t. t.order_id == order_id) w.redis.tracking)
    else none

-- `set_json`: a key has one value
unfoldable pub cache_tracking : Tracking → World → World
cache_tracking t w =
    if w.redis.is_up
    then record w {
      redis = record w.redis {
        tracking = t ∷ keep (λ u. not (u.order_id == t.order_id)) w.redis.tracking;
      };
    }
    else w

abbrev pub track_from : Option Tracking → ℕ → ℕ → Service Tracking
track_from (some t) _ _ = pure t
track_from none user_id order_id = do
  order ← find_for_user order_id user_id
  modify (cache_tracking (tracking_of order))
  pure (tracking_of order)

unfoldable pub track_my_order : ℕ → ℕ → Service Tracking
track_my_order user_id order_id = do
  cached ← gets (λ w. cached_tracking w order_id user_id)
  track_from cached user_id order_id
