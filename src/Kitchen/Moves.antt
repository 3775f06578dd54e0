-- ===== src/Kitchen/Moves.antt =====
-- What the kitchen's two ways of moving an order do.
use prime_pizza_backend.Base.{ℕ, ◌≡◌, refl, ◌⊎◌, true, false, Option, some, arith}
use prime_pizza_backend.Base.Exec.{Result, ok, err}
use prime_pizza_backend.Text.{Text, codes, text_eq}
use prime_pizza_backend.Errors.{AppException, status_code}
use prime_pizza_backend.Enums.{
  OrderStatus, pending, confirmed, preparing, ready, delivered, cancelled,
}
use prime_pizza_backend.Models.{User, Order}
use prime_pizza_backend.Store.{World}
use prime_pizza_backend.Orders.Status.{is_allowed}
use prime_pizza_backend.Orders.Table.{get_detail}
use prime_pizza_backend.Orders.Effects.{Changes, update_status_allowed, update_status_refused}
use prime_pizza_backend.Orders.Moved.{Moved}
use prime_pizza_backend.Kitchen.Card.{KitchenOrderCardResponse, to_card}
use prime_pizza_backend.Kitchen.Board.{card}
use prime_pizza_backend.Kitchen.Actions.{
  action_target, status_target, move_to, apply_action, update_status,
}

move_to_refused :
    (users : ℕ → Option User) (w : World) (chef_id order_id : ℕ) (target : OrderStatus)
    (notes : Option Text)
    → ((order : Order)
        → get_detail w.db.orders order_id ≡ some order
        → is_allowed order.status target ≡ false)
    → (e : AppException) × (move_to users chef_id order_id target notes w ≡ (err e, w))
      × ((status_code e ≡ 422) ⊎ (status_code e ≡ 404))
unfolding move_to
move_to_refused users w chef_id order_id target notes barred =
    let (e, run, code) = update_status_refused w chef_id order_id target notes barred in
    (e, ground arith, code)

never_to_pending : (s : OrderStatus) → is_allowed s pending ≡ false
unfolding is_allowed
never_to_pending s = ground arith

-- The actions that the kitchen knows, each with the status that it is for.
pub data Action : Text → OrderStatus → Type 0 where
  accept : Action (codes "accept") confirmed
  start_preparing : Action (codes "start-preparing") preparing
  mark_ready : Action (codes "mark-ready") ready
  complete : Action (codes "complete") delivered
  cancel : Action (codes "cancel") cancelled

Action-action_target :
    (action : Text) (target : OrderStatus)
    → Action action target
    → action_target action ≡ some target
unfolding action_target text_eq
Action-action_target _ _ accept = refl
Action-action_target _ _ start_preparing = refl
Action-action_target _ _ mark_ready = refl
Action-action_target _ _ complete = refl
Action-action_target _ _ cancel = refl

-- The card is that of the order, with the status and the payment status of the new row.
pub record Shows (new : Order) (r : Result AppException KitchenOrderCardResponse) : Type 0 where
  pub shown : KitchenOrderCardResponse
  pub answered : r ≡ ok shown
  pub shown_id : shown.id ≡ new.id
  pub shown_status : shown.status ≡ new.status
  pub shown_payment : shown.payment_status ≡ new.payment_status
  pub shown_total : shown.grand_total ≡ new.grand_total

card-Shows : (users : ℕ → Option User) (new : Order) → Shows new (ok (card users new))
unfolding to_card
card-Shows users new = record {
  shown = card users new;
  answered = refl;
  shown_id = refl;
  shown_status = refl;
  shown_payment = refl;
  shown_total = refl;
}

-- Each of the five actions of the kitchen, accept, start-preparing, mark-ready, complete and cancel,
-- where the table of transitions allows the status that it is for, moves the order as the order
-- service does: the row gets that status, one timeline event of it with the chef and the notes, and
-- the payment status that goes with it; it is committed, no other order changes, and the answer is
-- the order's card with the new status and payment status.
pub apply_action_allowed :
    (users : ℕ → Option User) (w : World) (chef_id order_id : ℕ) (action : Text)
    (notes : Option Text) (order : Order) (target : OrderStatus)
    → Action action target
    → get_detail w.db.orders order_id ≡ some order
    → is_allowed order.status target ≡ true
    → let (r, w') = apply_action users chef_id order_id action notes w in
      (new : Order) × Moved target chef_id notes order new × Changes w w' order_id new × Shows new r
unfolding apply_action move_to
apply_action_allowed users w chef_id order_id action notes order target known found allowed =
    let (new, m, done, answer) =
      update_status_allowed w chef_id order_id target notes order found allowed in
    rw (Action-action_target action target known) (
      new,
      m,
      ground (arith, done, answer.answered),
      ground (arith, done.changed, answer.answered, card-Shows users new),
    )

-- The kitchen's status endpoint refuses the status "pending", which its schema offers, for every
-- order and in every state, with 422 or 404, and changes nothing.
pub update_status_pending :
    (users : ℕ → Option User) (w : World) (chef_id order_id : ℕ) (notes : Option Text)
    → (e : AppException) × (update_status users chef_id order_id (codes "pending") notes w
        ≡ (err e, w))
      × ((status_code e ≡ 422) ⊎ (status_code e ≡ 404))
unfolding update_status status_target text_eq
update_status_pending users w chef_id order_id notes =
    move_to_refused users w chef_id order_id pending notes
      (λ order _. never_to_pending order.status)
