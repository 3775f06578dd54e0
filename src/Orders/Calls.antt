-- ===== src/Orders/Calls.antt =====
-- Any sequence of the methods that change a placed order, and what each call may write.
use prime_pizza_backend.Base.{
  ltb, ◌++◌, ◌*◌, ◌-◌, ℕ, ◌≡◌, ◌⊎◌, inl, inr, refl, Bool, true, false, Option, some, List, [], ◌∷◌,
  arith, Option-cases, Bool-cases,
}
use prime_pizza_backend.Base.Exec.{◌>>◌}
use prime_pizza_backend.Text.{Text, codes}
use prime_pizza_backend.Enums.{OrderStatus, PaymentStatus, same_status, status_in, cancelled}
use prime_pizza_backend.Models.{Order, OrderTimelineEvent}
use prime_pizza_backend.Store.{World}
use prime_pizza_backend.Orders.Table.{
  replace_order-IsKeyed, IsKeyed, get_detail, get_for_user, get_for_user-get_detail,
}
use prime_pizza_backend.Orders.Status.{status_title, customer_cancelable, is_allowed}
use prime_pizza_backend.Orders.Manage.{
  store_change, respond, add_timeline, with_status, text_or, payment_value, update_status,
  update_payment, cancel_my_order,
}
use prime_pizza_backend.Orders.Moved.{moved, withdrawn}

-- What one call may make of a row: a status that is the same or allowed, one event more with that
-- status, and the owner and the amounts as they were.
pub record Follows (old new : Order) : Type 0 where
  pub same_id : new.id ≡ old.id
  pub same_deleted : new.deleted ≡ old.deleted
  pub same_owner : new.user_id ≡ old.user_id
  pub same_total : new.grand_total ≡ old.grand_total
  pub same_items : new.items ≡ old.items
  pub step : (new.status ≡ old.status) ⊎ (is_allowed old.status new.status ≡ true)
  pub event : OrderTimelineEvent
  pub logged : new.timeline ≡ old.timeline ++ event ∷ []
  pub event_status : event.status ≡ new.status

-- How a call leaves the world: as it was, or with one row stored that follows the old one.
pub data Writes (w w' : World) : Type 0 where
  unchanged : w' ≡ w → Writes w w'
  stored :
      (order_id : ℕ) (old new : Order)
      → get_detail w.db.orders order_id ≡ some old
      → Follows old new
      → w' ≡ (store_change new w).1
      → Writes w w'

event_of : OrderStatus → ℕ → Option Text → OrderTimelineEvent
event_of status actor notes = record {
  status = status;
  title = status_title status;
  notes = notes;
  performed_by = some actor;
  deleted = false;
}

moved-Follows :
    (actor : ℕ) (status : OrderStatus) (notes : Option Text) (order : Order)
    → is_allowed order.status status ≡ true
    → Follows order (moved actor status notes order)
unfolding add_timeline with_status event_of
moved-Follows actor status notes order allowed = record {
  same_id = refl;
  same_deleted = refl;
  same_owner = refl;
  same_total = refl;
  same_items = refl;
  step = inr allowed;
  event = event_of status actor notes;
  logged = refl;
  event_status = refl;
}

-- The row that `update_payment` writes.
abbrev pub paid_as : ℕ → PaymentStatus → Option Text → Order → Order
paid_as actor payment notes order =
    add_timeline order.status actor
      (some (text_or notes (codes "Payment status: " ++ payment_value payment)))
      (record order { payment_status = payment })

paid_as-Follows :
    (actor : ℕ) (payment : PaymentStatus) (notes : Option Text) (order : Order)
    → Follows order (paid_as actor payment notes order)
unfolding add_timeline event_of
paid_as-Follows actor payment notes order = record {
  same_id = refl;
  same_deleted = refl;
  same_owner = refl;
  same_total = refl;
  same_items = refl;
  step = inl refl;
  event =
      event_of order.status actor
        (some (text_or notes (codes "Payment status: " ++ payment_value payment)));
  logged = refl;
  event_status = refl;
}

cancelable-is_allowed :
    (s : OrderStatus) → status_in s customer_cancelable ≡ true → is_allowed s cancelled ≡ true
unfolding is_allowed
cancelable-is_allowed s h = ground arith

withdrawn-Follows :
    (user_id : ℕ) (reason : Option Text) (order : Order)
    → status_in order.status customer_cancelable ≡ true
    → Follows order (withdrawn user_id reason order)
unfolding add_timeline event_of
withdrawn-Follows user_id reason order early = record {
  same_id = refl;
  same_deleted = refl;
  same_owner = refl;
  same_total = refl;
  same_items = refl;
  step = inr (cancelable-is_allowed order.status early);
  event = event_of cancelled user_id (some (text_or reason (codes "Cancelled by customer")));
  logged = refl;
  event_status = refl;
}

respond-state :
    (old : Order) (order_id : ℕ) (internal : Bool) (w : World)
    → (respond old order_id internal w).1 ≡ w
unfolding respond
respond-state old order_id internal w = ground arith

tail-state :
    (old order : Order) (order_id : ℕ) (internal : Bool) (w : World)
    → ((store_change order >> respond old order_id internal) w).1 ≡ (store_change order w).1
unfolding store_change
tail-state old order order_id internal w =
    respond-state old order_id internal (store_change order w).1

module _ (w : World) (actor_id order_id : ℕ) where
  update_status-Writes :
      (status : OrderStatus) (notes : Option Text)
      → Writes w (update_status actor_id order_id status notes w).1
  unfolding update_status
  update_status-Writes status notes = elim (Option-cases (get_detail w.db.orders order_id)) [
    | inl gone ↦ unchanged (ground arith)
    | inr (order, found) ↦ elim (Bool-cases (same_status status order.status)) [
      | inl same ↦ unchanged (ground arith)
      | inr other ↦ elim (Bool-cases (is_allowed order.status status)) [
        | inr barred ↦ unchanged (ground arith)
        | inl allowed ↦
            let new = moved actor_id status notes order in
            stored order_id order new found (moved-Follows actor_id status notes order allowed)
              (ground (arith, tail-state order new order_id true w))
      ]
    ]
  ]

  update_payment-Writes :
      (payment_status : PaymentStatus) (notes : Option Text)
      → Writes w (update_payment actor_id order_id payment_status notes w).1
  unfolding update_payment
  update_payment-Writes payment_status notes =
      elim (Option-cases (get_detail w.db.orders order_id)) [
        | inl gone ↦ unchanged (ground arith)
        | inr (order, found) ↦
            let new = paid_as actor_id payment_status notes order in
            stored order_id order new found (paid_as-Follows actor_id payment_status notes order)
              (ground (arith, tail-state order new order_id true w))
      ]

  cancel_my_order-Writes :
      (window : ℕ) (reason : Option Text)
      → IsKeyed w.db.orders
      → Writes w (cancel_my_order window actor_id order_id reason w).1
  unfolding cancel_my_order
  cancel_my_order-Writes window reason keyed =
      elim (Option-cases (get_for_user w.db.orders order_id actor_id)) [
        | inl gone ↦ unchanged (ground arith)
        | inr (order, found) ↦ elim (Bool-cases (status_in order.status customer_cancelable)) [
          | inr barred ↦ unchanged (ground arith)
          | inl early ↦ elim (Bool-cases (ltb (window * 60) (w.now - order.created_at))) [
            | inl late ↦ unchanged (ground arith)
            | inr soon ↦
                let new = withdrawn actor_id reason order in
                stored order_id order new
                  (get_for_user-get_detail w.db.orders order_id actor_id order keyed found)
                  (withdrawn-Follows actor_id reason order early)
                  (ground (arith, tail-state order new order_id false w))
          ]
        ]
      ]

-- The methods that change an order that has been placed.
pub data Call : Type 0 where
  status_call : ℕ → ℕ → OrderStatus → Option Text → Call
  payment_call : ℕ → ℕ → PaymentStatus → Option Text → Call
  cancel_call : ℕ → ℕ → Option Text → Call

unfoldable pub call : ℕ → Call → World → World
call window (status_call actor order status notes) w = (update_status actor order status notes w).1
call window (payment_call actor order payment notes) w =
    (update_payment actor order payment notes w).1
call window (cancel_call user order reason) w = (cancel_my_order window user order reason w).1

pub call-Writes :
    (window : ℕ) (c : Call) (w : World) → IsKeyed w.db.orders → Writes w (call window c w)
unfolding call
call-Writes window (status_call actor order status notes) w k =
    update_status-Writes w actor order status notes
call-Writes window (payment_call actor order payment notes) w k =
    update_payment-Writes w actor order payment notes
call-Writes window (cancel_call user order reason) w k =
    cancel_my_order-Writes w user order window reason k

unfoldable pub calls : ℕ → List Call → World → World
calls window [] w = w
calls window (c ∷ cs) w = calls window cs (call window c w)

store_change-IsKeyed :
    (order : Order) (w : World) → IsKeyed w.db.orders → IsKeyed (store_change order w).1.db.orders
unfolding store_change
store_change-IsKeyed order w k = ground (arith, replace_order-IsKeyed order w.db.orders k)

pub Writes-IsKeyed : (w w' : World) → IsKeyed w.db.orders → Writes w w' → IsKeyed w'.db.orders
Writes-IsKeyed w w' k (unchanged e) = rw e k
Writes-IsKeyed w w' k (stored order_id old new found f e) = rw e (store_change-IsKeyed new w k)
