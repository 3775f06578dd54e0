-- ===== src/Kitchen/Actions.antt =====
-- The two ways in which the kitchen moves an order, through `OrderService.update_status`.
use prime_pizza_backend.Base.{ℕ, Option, none, some, if◌then◌else◌}
use prime_pizza_backend.Base.Exec.{pure, raise, or_raise, ◌>>=◌}
use prime_pizza_backend.Text.{Text, codes, text_eq}
use prime_pizza_backend.Errors.{AppException, validation_exception, assertion_error, with_text}
use prime_pizza_backend.Enums.{
  OrderStatus, pending, confirmed, preparing, ready, delivered, cancelled,
}
use prime_pizza_backend.Models.{User}
use prime_pizza_backend.Store.{Service}
use prime_pizza_backend.Orders.Table.{get_detail}
use prime_pizza_backend.Orders.Manage.{find_detail, update_status as update_order_status}
use prime_pizza_backend.Kitchen.Card.{KitchenOrderCardResponse}
use prime_pizza_backend.Kitchen.Board.{card}

-- `_ACTION_TARGET.get(action)`
unfoldable pub action_target : Text → Option OrderStatus
action_target action =
    if text_eq action (codes "accept")
    then some confirmed
    else if text_eq action (codes "start-preparing")
    then some preparing
    else if text_eq action (codes "mark-ready")
    then some ready
    else if text_eq action (codes "complete")
    then some delivered
    else if text_eq action (codes "cancel")
    then some cancelled
    else none

-- `_STATUS_TARGET.get(status)`
unfoldable pub status_target : Text → Option OrderStatus
status_target status =
    if text_eq status (codes "pending")
    then some pending
    else if text_eq status (codes "preparing")
    then some preparing
    else if text_eq status (codes "ready")
    then some ready
    else if text_eq status (codes "completed")
    then some delivered
    else if text_eq status (codes "cancelled")
    then some cancelled
    else none

module _ (users : ℕ → Option User) where
  unfoldable pub get_order : ℕ → Service KitchenOrderCardResponse
  get_order order_id = do order ← find_detail order_id; pure (card users order)

  -- Both methods from the target status on.
  unfoldable pub move_to : ℕ → ℕ → OrderStatus → Option Text → Service KitchenOrderCardResponse
  move_to chef_id order_id target notes = do
    _ ← update_order_status chef_id order_id target notes
    order ← (λ w. or_raise (get_detail w.db.orders order_id) assertion_error w)
    pure (card users order)

  abbrev pub move_or_raise :
      Option OrderStatus → AppException → ℕ → ℕ → Option Text → Service KitchenOrderCardResponse
  move_or_raise none e chef_id order_id notes = raise e
  move_or_raise (some target) e chef_id order_id notes = move_to chef_id order_id target notes

  unfoldable pub apply_action : ℕ → ℕ → Text → Option Text → Service KitchenOrderCardResponse
  apply_action chef_id order_id action notes =
      move_or_raise (action_target action)
        (validation_exception (with_text "Unknown kitchen action: " action "")) chef_id order_id
        notes

  unfoldable pub update_status : ℕ → ℕ → Text → Option Text → Service KitchenOrderCardResponse
  update_status chef_id order_id status notes =
      move_or_raise (status_target status)
        (validation_exception (with_text "Unsupported kitchen status: " status "")) chef_id order_id
        notes
