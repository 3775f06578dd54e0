-- ===== src/Orders/Moved.antt =====
-- What a new status makes of an order's row, and what the methods that set one answer.
use prime_pizza_backend.Base.{
  ℕ, ◌≡◌, ◌≢◌, refl, Bool, false, Option, some, [], ◌∷◌, ◌++◌, arith, keep, if◌then◌else◌,
}
use prime_pizza_backend.Base.Exec.{Result, ok}
use prime_pizza_backend.Text.{Text, codes}
use prime_pizza_backend.Errors.{AppException}
use prime_pizza_backend.Enums.{
  OrderStatus, PaymentStatus, cancelled, refunded, payment_pending, payment_refunded,
  payment_cancelled, same_payment,
}
use prime_pizza_backend.Catalog.{alive}
use prime_pizza_backend.Models.{Order, OrderTimelineEvent}
use prime_pizza_backend.Orders.Views.{OrderDetailResponse, to_detail}
use prime_pizza_backend.Orders.Manage.{add_timeline, as_loaded, with_status, text_or}

-- The payment status that goes with a new status.
pub record Settles (status : OrderStatus) (before after : PaymentStatus) : Type 0 where
  pub refund : status ≡ refunded → after ≡ payment_refunded
  pub pending_cancelled : status ≡ cancelled → before ≡ payment_pending → after ≡ payment_cancelled
  pub other_cancelled : status ≡ cancelled → before ≢ payment_pending → after ≡ before
  pub other_status : status ≢ refunded → status ≢ cancelled → after ≡ before

-- The row after a move to a status, by a user and with notes.
pub record Moved (status : OrderStatus) (actor_id : ℕ) (notes : Option Text) (old new : Order)
    : Type 0 where
  pub same_id : new.id ≡ old.id
  pub same_owner : new.user_id ≡ old.user_id
  pub same_items : new.items ≡ old.items
  pub same_total : new.grand_total ≡ old.grand_total
  pub new_status : new.status ≡ status
  pub payment : Settles status old.payment_status new.payment_status
  pub event : OrderTimelineEvent
  pub logged : new.timeline ≡ old.timeline ++ event ∷ []
  pub event_status : event.status ≡ status
  pub event_actor : event.performed_by ≡ some actor_id
  pub event_notes : event.notes ≡ notes
  pub event_here : event.deleted ≡ false

-- The answer has the new row's status and payment status, and the events that the order had before.
pub record Answers (old new : Order) (r : Result AppException OrderDetailResponse) : Type 0 where
  pub detail : OrderDetailResponse
  pub answered : r ≡ ok detail
  pub answer_id : detail.id ≡ old.id
  pub answer_status : detail.status ≡ new.status
  pub answer_payment : detail.payment_status ≡ new.payment_status
  pub answer_total : detail.grand_total ≡ old.grand_total
  pub answer_timeline : detail.timeline ≡ keep (λ e. alive e.deleted) old.timeline

pub to_detail-Answers :
    (status : OrderStatus) (actor_id : ℕ) (notes : Option Text) (old new : Order) (internal : Bool)
    → Moved status actor_id notes old new
    → Answers old new (ok (to_detail (as_loaded old new) internal))
unfolding to_detail
to_detail-Answers status actor_id notes old new internal m = record {
  detail = to_detail (as_loaded old new) internal;
  answered = refl;
  answer_id = m.same_id;
  answer_status = refl;
  answer_payment = refl;
  answer_total = m.same_total;
  answer_timeline = refl;
}

-- The row that `update_status` writes.
abbrev pub moved : ℕ → OrderStatus → Option Text → Order → Order
moved actor_id status notes order = add_timeline status actor_id notes (with_status status order)

pub moved_keeps :
    (actor_id : ℕ) (status : OrderStatus) (notes : Option Text) (order : Order)
    → ((moved actor_id status notes order).id ≡ order.id)
      × ((moved actor_id status notes order).deleted ≡ order.deleted)
unfolding add_timeline with_status
moved_keeps actor_id status notes order = (refl, refl)

with_status-Settles :
    (status : OrderStatus) (order : Order)
    → Settles status order.payment_status (with_status status order).payment_status
unfolding with_status
with_status-Settles status order = record {
  refund = λ e. ground arith;
  pending_cancelled = λ e p. ground arith;
  other_cancelled = λ e p. ground arith;
  other_status = λ e f. ground arith;
}

pub moved-Moved :
    (actor_id : ℕ) (status : OrderStatus) (notes : Option Text) (order : Order)
    → Moved status actor_id notes order (moved actor_id status notes order)
unfolding add_timeline with_status
moved-Moved actor_id status notes order = record {
  same_id = refl;
  same_owner = refl;
  same_items = refl;
  same_total = refl;
  new_status = refl;
  payment = with_status-Settles status order;
  event = _;
  logged = refl;
  event_status = refl;
  event_actor = refl;
  event_notes = refl;
  event_here = refl;
}

-- The row that `cancel_my_order` writes.
abbrev pub withdrawn : ℕ → Option Text → Order → Order
withdrawn user_id reason order =
    add_timeline cancelled user_id (some (text_or reason (codes "Cancelled by customer")))
      (record order {
        status = cancelled;
        payment_status =
            if same_payment order.payment_status payment_pending
            then payment_cancelled
            else order.payment_status;
      })

pub withdrawn_keeps :
    (user_id : ℕ) (reason : Option Text) (order : Order)
    → ((withdrawn user_id reason order).id ≡ order.id)
      × ((withdrawn user_id reason order).deleted ≡ order.deleted)
unfolding add_timeline
withdrawn_keeps user_id reason order = (refl, refl)

pub withdrawn-Moved :
    (user_id : ℕ) (reason : Option Text) (order : Order)
    → Moved cancelled user_id
        (some (text_or reason (codes "Cancelled by customer")))
        order
        (withdrawn user_id reason order)
unfolding add_timeline
withdrawn-Moved user_id reason order = record {
  same_id = refl;
  same_owner = refl;
  same_items = refl;
  same_total = refl;
  new_status = refl;
  payment = record {
    refund = λ e. ground arith;
    pending_cancelled = λ e p. ground arith;
    other_cancelled = λ e p. ground arith;
    other_status = λ e f. ground arith;
  };
  event = _;
  logged = refl;
  event_status = refl;
  event_actor = refl;
  event_notes = refl;
  event_here = refl;
}
