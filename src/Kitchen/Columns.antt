-- ===== src/Kitchen/Columns.antt =====
-- The board's loop as five filters.
use prime_pizza_backend.Base.{
  sym, ap, ◌∙◌, ℕ, ◌+◌, ◌≡◌, Bool, Option, List, [], ◌∷◌, ◌++◌, map, arith, keep, length,
  length-append, if◌then◌else◌,
}
use mathlib.Core.List.{append_assoc, append-nil}
use prime_pizza_backend.Enums.{OrderStatus, status_in}
use prime_pizza_backend.Models.{User, Order}
use prime_pizza_backend.Kitchen.Card.{KitchenOrderCardResponse}
use prime_pizza_backend.Kitchen.Board.{
  all_statuses, KitchenBoardResponse, incoming_group, preparing_group, ready_group, completed_group,
  cancelled_group, card, place_card, fill_board, empty_board, get_board, list_by_statuses,
}

pub data Column : Type 0 where
  incoming preparing ready completed cancelled : Column

abbrev pub group : Column → List OrderStatus
group incoming = incoming_group
group preparing = preparing_group
group ready = ready_group
group completed = completed_group
group cancelled = cancelled_group

abbrev pub cards : Column → KitchenBoardResponse → List KitchenOrderCardResponse
cards incoming b = b.incoming
cards preparing b = b.preparing
cards ready b = b.ready
cards completed b = b.completed
cards cancelled b = b.cancelled

abbrev pub in_column : Column → Order → Bool
in_column c o = status_in o.status (group c)

module _ (users : ℕ → Option User) where
  cards-place_card :
      (c : Column) (o : Order) (b : KitchenBoardResponse)
      → cards c (place_card users o b)
        ≡ cards c b ++ (if in_column c o then card users o ∷ [] else [])
  unfolding place_card
  cards-place_card incoming o b = ground (arith, append-nil b.incoming)
  cards-place_card preparing o b = ground (arith, append-nil b.preparing)
  cards-place_card ready o b = ground (arith, append-nil b.ready)
  cards-place_card completed o b = ground (arith, append-nil b.completed)
  cards-place_card cancelled o b = ground (arith, append-nil b.cancelled)

  push_cards :
      (c : Column) (o : Order) (rows : List Order)
      → (if in_column c o then card users o ∷ [] else [])
          ++ map (card users) (keep (in_column c) rows)
        ≡ map (card users) (keep (in_column c) (o ∷ rows))
  push_cards c o rows = ground arith

  cards-fill_board :
      (c : Column) (rows : List Order) (b : KitchenBoardResponse)
      → cards c (fill_board users rows b) ≡ cards c b ++ map (card users) (keep (in_column c) rows)
  unfolding fill_board
  cards-fill_board c [] b = sym (append-nil _)
  cards-fill_board c (o ∷ rows) b =
      let rest = map (card users) (keep (in_column c) rows) in
      cards-fill_board c rows (place_card users o b)
      ∙ ap (λ l. l ++ rest) (cards-place_card c o b)
      ∙ append_assoc (cards c b) (if in_column c o then card users o ∷ [] else []) rest
      ∙ ap (λ l. cards c b ++ l) (push_cards c o rows)

  -- How many cards the board shows.
  abbrev board_size : KitchenBoardResponse → ℕ
  board_size b =
      length b.incoming
      + length b.preparing
      + length b.ready
      + length b.completed
      + length b.cancelled

  size-place_card :
      (o : Order) (b : KitchenBoardResponse) → board_size (place_card users o b) ≡ board_size b + 1
  unfolding place_card
  size-place_card o b = ground (
    arith,
    length-append b.incoming (card users o ∷ []),
    length-append b.preparing (card users o ∷ []),
    length-append b.ready (card users o ∷ []),
    length-append b.completed (card users o ∷ []),
    length-append b.cancelled (card users o ∷ []),
  )

  size-fill_board :
      (rows : List Order) (b : KitchenBoardResponse)
      → board_size (fill_board users rows b) ≡ board_size b + length rows
  unfolding fill_board
  size-fill_board [] b = omega arith
  size-fill_board (o ∷ rows) b =
      omega (arith, size-fill_board rows (place_card users o b), size-place_card o b)

-- Each column of the board holds the cards of exactly the listed orders whose status belongs to it,
-- in the order of the list, and the five columns together hold one card for each listed order.
pub get_board-columns :
    (users : ℕ → Option User) (orders : List Order)
    → let rows = list_by_statuses orders all_statuses 200 in
      let board = get_board users orders in
      ((c : Column) → cards c board ≡ map (card users) (keep (in_column c) rows))
      × (length board.incoming
            + length board.preparing
            + length board.ready
            + length board.completed
            + length board.cancelled
          ≡ length rows)
unfolding get_board
get_board-columns users orders =
    let rows = list_by_statuses orders all_statuses 200 in
    (columns, omega (arith, size-fill_board users rows empty_board))
  where
    columns :
        (c : Column)
        → cards c (get_board users orders)
          ≡ map (card users) (keep (in_column c) (list_by_statuses orders all_statuses 200))
    columns incoming = cards-fill_board users incoming _ empty_board
    columns preparing = cards-fill_board users preparing _ empty_board
    columns ready = cards-fill_board users ready _ empty_board
    columns completed = cards-fill_board users completed _ empty_board
    columns cancelled = cards-fill_board users cancelled _ empty_board
