-- ===== src/Kitchen.antt =====
-- `KitchenService` of app/services/kitchen.py: the chef's board and the two ways to move an order.
pub mod Card
pub mod Board
pub mod Columns
pub mod Actions
pub mod Moves
