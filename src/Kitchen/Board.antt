-- ===== src/Kitchen/Board.antt =====
-- The board's columns and its loop over the orders.
use prime_pizza_backend.Base.{
  ℕ, zero, suc, ◌&&◌, Option, none, some, List, [], ◌∷◌, ◌++◌, map, leb, keep, if◌then◌else◌,
}
use prime_pizza_backend.Base.Exec.{Result, ok, err}
use prime_pizza_backend.Text.{Text, codes, text_eq}
use prime_pizza_backend.Errors.{AppException, validation_exception, with_text}
use prime_pizza_backend.Enums.{
  OrderStatus, pending, confirmed, preparing, ready, out_for_delivery, delivered, cancelled,
  refunded, status_in,
}
use prime_pizza_backend.Catalog.{alive}
use prime_pizza_backend.Models.{User, Order}
use prime_pizza_backend.Kitchen.Card.{KitchenOrderCardResponse, to_card}

abbrev pub incoming_group : List OrderStatus
incoming_group = pending ∷ confirmed ∷ []

abbrev pub preparing_group : List OrderStatus
preparing_group = preparing ∷ []

abbrev pub ready_group : List OrderStatus
ready_group = ready ∷ out_for_delivery ∷ []

abbrev pub completed_group : List OrderStatus
completed_group = delivered ∷ []

abbrev pub cancelled_group : List OrderStatus
cancelled_group = cancelled ∷ refunded ∷ []

pub record KitchenBoardResponse : Type 0 where
  pub incoming : List KitchenOrderCardResponse
  pub preparing : List KitchenOrderCardResponse
  pub ready : List KitchenOrderCardResponse
  pub completed : List KitchenOrderCardResponse
  pub cancelled : List KitchenOrderCardResponse

abbrev pub all_statuses : List OrderStatus
all_statuses =
    pending ∷ confirmed ∷ preparing ∷ ready ∷ out_for_delivery ∷ delivered ∷ cancelled ∷ refunded
    ∷ []

-- `ORDER BY created_at DESC`
unfoldable pub insert_newest : Order → List Order → List Order
insert_newest o [] = o ∷ []
insert_newest o (p ∷ rows) =
    let rest = insert_newest o rows in
    if leb p.created_at o.created_at then o ∷ p ∷ rows else p ∷ rest

unfoldable pub newest_first : List Order → List Order
unfolding insert_newest
newest_first [] = []
newest_first (o ∷ rows) = insert_newest o (newest_first rows)

unfoldable pub take : ℕ → List Order → List Order
take zero rows = []
take (suc n) [] = []
take (suc n) (o ∷ rows) = o ∷ take n rows

-- `OrderRepository.list_by_statuses`
unfoldable pub list_by_statuses : List Order → List OrderStatus → ℕ → List Order
unfolding newest_first take
list_by_statuses orders [] limit = []
list_by_statuses orders (s ∷ statuses) limit =
    take limit
      (newest_first (keep (λ o. alive o.deleted && status_in o.status (s ∷ statuses)) orders))

-- The dictionary `mapping` of `list_status`.
abbrev pub group_of : Text → Option (List OrderStatus)
group_of group =
    if text_eq group (codes "incoming")
    then some incoming_group
    else if text_eq group (codes "pending")
    then some incoming_group
    else if text_eq group (codes "preparing")
    then some preparing_group
    else if text_eq group (codes "ready")
    then some ready_group
    else if text_eq group (codes "completed")
    then some completed_group
    else if text_eq group (codes "cancelled")
    then some cancelled_group
    else none

abbrev pub empty_board : KitchenBoardResponse
empty_board = record { incoming = []; preparing = []; ready = []; completed = []; cancelled = [] }

-- Cards name their customer through `order.user`.
module _ (users : ℕ → Option User) where
  abbrev pub card : Order → KitchenOrderCardResponse
  card order = to_card (users order.user_id) order

  -- One pass of the loop of `get_board`.
  unfoldable pub place_card : Order → KitchenBoardResponse → KitchenBoardResponse
  place_card order board =
      if status_in order.status incoming_group
      then record board { incoming = board.incoming ++ card order ∷ [] }
      else if status_in order.status preparing_group
      then record board { preparing = board.preparing ++ card order ∷ [] }
      else if status_in order.status ready_group
      then record board { ready = board.ready ++ card order ∷ [] }
      else if status_in order.status completed_group
      then record board { completed = board.completed ++ card order ∷ [] }
      else if status_in order.status cancelled_group
      then record board { cancelled = board.cancelled ++ card order ∷ [] }
      else board

  unfoldable pub fill_board : List Order → KitchenBoardResponse → KitchenBoardResponse
  fill_board [] board = board
  fill_board (order ∷ rows) board = fill_board rows (place_card order board)

  unfoldable pub get_board : List Order → KitchenBoardResponse
  get_board orders = fill_board (list_by_statuses orders all_statuses 200) empty_board

  abbrev cards_or_raise :
      List Order
      → Text
      → Option (List OrderStatus)
      → Result AppException (List KitchenOrderCardResponse)
  cards_or_raise orders status_group none =
      err (validation_exception (with_text "Unknown kitchen board: " status_group ""))
  cards_or_raise orders status_group (some statuses) =
      ok (map card (list_by_statuses orders statuses 100))

  unfoldable pub list_status :
      List Order → Text → Result AppException (List KitchenOrderCardResponse)
  list_status orders status_group = cards_or_raise orders status_group (group_of status_group)
