-- ===== src/Orders/Effects.antt =====
-- What each managing method does to the table of orders, on every branch.
use prime_pizza_backend.Base.{
  ℕ, ◌*◌, ◌-◌, ◌≤◌, ◌≡◌, ◌≢◌, ◌⊎◌, ◌∙◌, Bool-cases, ◌+◌, Bool, true, false, Option, some, arith,
  ltb, Option-cases, inl, inr,
}
use prime_pizza_backend.Base.Exec.{ok, err, ◌>>◌}
use prime_pizza_backend.Text.{Text, codes}
use prime_pizza_backend.Errors.{
  AppException, status_code, not_found_exception, validation_exception, text, transition,
}
use prime_pizza_backend.Enums.{OrderStatus, same_status, status_in, pending, confirmed, cancelled}
use prime_pizza_backend.Models.{Order}
use prime_pizza_backend.Store.{World}
use prime_pizza_backend.Orders.Status.{is_allowed, customer_cancelable}
use prime_pizza_backend.Orders.Table.{
  get_detail, get_for_user, get_detail-replace_self, get_detail-replace_ne, get_detail-found,
  get_for_user-found, get_for_user-own,
}
use prime_pizza_backend.Orders.Views.{to_detail}
use prime_pizza_backend.Orders.Manage.{
  as_loaded, respond, store_change, text_or, update_status, cancel_my_order,
}
use prime_pizza_backend.Orders.Moved.{
  Moved, Answers, to_detail-Answers, moved, moved_keeps, moved-Moved, withdrawn, withdrawn_keeps,
  withdrawn-Moved,
}

-- One order has become another, committed, and every other order is as it was.
pub record Changes (before after : World) (order_id : ℕ) (order : Order) : Type 0 where
  pub is_committed : after.db ≡ after.committed
  pub changed : get_detail after.db.orders order_id ≡ some order
  pub others :
      (other : ℕ)
      → other ≢ order_id
      → get_detail after.db.orders other ≡ get_detail before.db.orders other

store_change-Changes :
    (w : World) (old order : Order) (order_id : ℕ)
    → get_detail w.db.orders order_id ≡ some old
    → order.id ≡ order_id
    → order.deleted ≡ false
    → Changes w (store_change order w).1 order_id order
unfolding store_change
store_change-Changes w old order order_id found same here = record {
  is_committed = ground arith;
  changed = ground (arith, get_detail-replace_self w.db.orders old order order_id found same here);
  others = λ other ne. ground (arith, get_detail-replace_ne w.db.orders order other);
}

respond_lem :
    (w : World) (old order : Order) (order_id : ℕ) (internal : Bool)
    → get_detail w.db.orders order_id ≡ some order
    → respond old order_id internal w ≡ (ok (to_detail (as_loaded old order) internal), w)
unfolding respond
respond_lem w old order order_id internal found = ground arith

-- The rest of a method once it has its new row.
finish_lem :
    (w : World) (old order : Order) (order_id : ℕ) (internal : Bool)
    → get_detail w.db.orders order_id ≡ some old
    → order.id ≡ order_id
    → order.deleted ≡ false
    → (store_change order >> respond old order_id internal) w
      ≡ (ok (to_detail (as_loaded old order) internal), (store_change order w).1)
unfolding store_change
finish_lem w old order order_id internal found same here =
    let done = store_change-Changes w old order order_id found same here in
    respond_lem (store_change order w).1 old order order_id internal done.changed

is_allowed-ne : (s t : OrderStatus) → is_allowed s t ≡ true → same_status t s ≡ false
unfolding is_allowed
is_allowed-ne s t h = ground arith

update_status_run :
    (w : World) (actor_id order_id : ℕ) (status : OrderStatus) (notes : Option Text) (order : Order)
    → get_detail w.db.orders order_id ≡ some order
    → is_allowed order.status status ≡ true
    → let new = moved actor_id status notes order in
      update_status actor_id order_id status notes w
      ≡ (ok (to_detail (as_loaded order new) true), (store_change new w).1)
unfolding update_status
update_status_run w actor_id order_id status notes order found allowed =
    let (same, here) = get_detail-found w.db.orders order_id order found in
    let (id, deleted) = moved_keeps actor_id status notes order in
    let new = moved actor_id status notes order in
    ground (
      arith,
      is_allowed-ne order.status status allowed,
      finish_lem w order new order_id true found (id ∙ same) (deleted ∙ here),
    )

-- An allowed move of an order succeeds: its row gets the status, and one timeline event of that
-- status with the user and the notes; a refund makes the payment refunded, a cancellation makes a
-- pending payment cancelled, and in every other case the payment status stays, as the owner, the
-- items and the total do; the row is committed, and no other order changes. The answer has the new
-- status and payment status, and the timeline as it was before the event.
pub update_status_allowed :
    (w : World) (actor_id order_id : ℕ) (status : OrderStatus) (notes : Option Text) (order : Order)
    → get_detail w.db.orders order_id ≡ some order
    → is_allowed order.status status ≡ true
    → let (r, w') = update_status actor_id order_id status notes w in
      (new : Order) × Moved status actor_id notes order new
      × Changes w w' order_id new
      × Answers order new r
update_status_allowed w actor_id order_id status notes order found allowed =
    let (same, here) = get_detail-found w.db.orders order_id order found in
    let (id, deleted) = moved_keeps actor_id status notes order in
    let new = moved actor_id status notes order in
    let m = moved-Moved actor_id status notes order in
    rw (update_status_run w actor_id order_id status notes order found allowed) (
      new,
      m,
      store_change-Changes w order new order_id found (id ∙ same) (deleted ∙ here),
      to_detail-Answers status actor_id notes order new true m,
    )

-- A move that the table does not allow, or of an order that is not there, is refused with 422 or
-- 404, and nothing in the world changes.
pub update_status_refused :
    (w : World) (actor_id order_id : ℕ) (status : OrderStatus) (notes : Option Text)
    → ((order : Order)
        → get_detail w.db.orders order_id ≡ some order
        → is_allowed order.status status ≡ false)
    → (e : AppException) × (update_status actor_id order_id status notes w ≡ (err e, w))
      × ((status_code e ≡ 422) ⊎ (status_code e ≡ 404))
unfolding update_status status_code
update_status_refused w actor_id order_id status notes barred =
    elim (Option-cases (get_detail w.db.orders order_id)) [
      | inl gone ↦ (not_found_exception (text "Order not found"), ground arith, ground arith)
      | inr (order, found) ↦ elim (Bool-cases (same_status status order.status)) [
        | inl same ↦ (
          validation_exception (text "Order is already in this status"),
          ground arith,
          ground arith,
        )
        | inr other ↦ (
          validation_exception (transition order.status status),
          ground (arith, barred order),
          ground arith,
        )
      ]
    ]

-- What the cancelling customer needs: an own order, not yet in preparation, inside the window.
pub record MayCancel (w : World) (window user_id : ℕ) (order : Order) : Type 0 where
  pub is_owner : order.user_id ≡ user_id
  pub is_cancelable : (order.status ≡ pending) ⊎ (order.status ≡ confirmed)
  pub in_window : w.now ≤ order.created_at + window * 60

cancel_my_order_run :
    (w : World) (window user_id order_id : ℕ) (reason : Option Text) (order : Order)
    → get_detail w.db.orders order_id ≡ some order
    → MayCancel w window user_id order
    → let new = withdrawn user_id reason order in
      cancel_my_order window user_id order_id reason w
      ≡ (ok (to_detail (as_loaded order new) false), (store_change new w).1)
unfolding cancel_my_order
cancel_my_order_run w window user_id order_id reason order found may =
    let (same, here) = get_detail-found w.db.orders order_id order found in
    let (id, deleted) = withdrawn_keeps user_id reason order in
    let new = withdrawn user_id reason order in
    ground (
      arith,
      get_for_user-own w.db.orders order_id user_id order found may.is_owner,
      finish_lem w order new order_id false found (id ∙ same) (deleted ∙ here),
    )

-- A customer who may cancel an order does: its row becomes cancelled with one timeline event more,
-- of that status, with the user and the reason or else "Cancelled by customer"; a payment that was
-- pending is cancelled with it and any other stays, as the owner, the items and the total do; the
-- row is committed, and no other order changes. The answer has the new status and payment status,
-- and the timeline as it was before the event.
pub cancel_my_order_allowed :
    (w : World) (window user_id order_id : ℕ) (reason : Option Text) (order : Order)
    → get_detail w.db.orders order_id ≡ some order
    → MayCancel w window user_id order
    → let (r, w') = cancel_my_order window user_id order_id reason w in
      let notes = some (text_or reason (codes "Cancelled by customer")) in
      (new : Order) × Moved cancelled user_id notes order new
      × Changes w w' order_id new
      × Answers order new r
cancel_my_order_allowed w window user_id order_id reason order found may =
    let (same, here) = get_detail-found w.db.orders order_id order found in
    let (id, deleted) = withdrawn_keeps user_id reason order in
    let new = withdrawn user_id reason order in
    let m = withdrawn-Moved user_id reason order in
    rw (cancel_my_order_run w window user_id order_id reason order found may) (
      new,
      m,
      store_change-Changes w order new order_id found (id ∙ same) (deleted ∙ here),
      to_detail-Answers cancelled user_id _ order new false m,
    )

cancelable-cases :
    (s : OrderStatus) → status_in s customer_cancelable ≡ true → (s ≡ pending) ⊎ (s ≡ confirmed)
cancelable-cases s h = ground arith

too_late :
    (w : World) (window user_id order_id : ℕ) (order : Order)
    → get_for_user w.db.orders order_id user_id ≡ some order
    → ¬ MayCancel w window user_id order
    → status_in order.status customer_cancelable ≡ true
    → ltb (window * 60) (w.now - order.created_at) ≡ true
too_late w window user_id order_id order found barred early =
    elim (Bool-cases (ltb (window * 60) (w.now - order.created_at))) [
      | inl late ↦ late
      | inr soon ↦ absurd (
          barred record {
            is_owner = (get_for_user-found w.db.orders order_id user_id order found).1;
            is_cancelable = cancelable-cases order.status early;
            in_window = ground arith;
          })
    ]

-- In every other case the cancellation is refused with 422 or 404 and changes nothing.
pub cancel_my_order_refused :
    (w : World) (window user_id order_id : ℕ) (reason : Option Text)
    → ((order : Order)
        → get_for_user w.db.orders order_id user_id ≡ some order
        → ¬ MayCancel w window user_id order)
    → (e : AppException) × (cancel_my_order window user_id order_id reason w ≡ (err e, w))
      × ((status_code e ≡ 422) ⊎ (status_code e ≡ 404))
unfolding cancel_my_order status_code
cancel_my_order_refused w window user_id order_id reason barred =
    elim (Option-cases (get_for_user w.db.orders order_id user_id)) [
      | inl gone ↦ (not_found_exception (text "Order not found"), ground arith, ground arith)
      | inr (order, found) ↦ elim (Bool-cases (status_in order.status customer_cancelable)) [
        | inl early ↦ (
          validation_exception (text "Cancellation window has expired"),
          ground (arith, too_late w window user_id order_id order found (barred order found) early),
          ground arith,
        )
        | inr later ↦ (
          validation_exception (text "Order can no longer be cancelled"),
          ground arith,
          ground arith,
        )
      ]
    ]
