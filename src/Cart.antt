-- ===== src/Cart.antt =====
-- The shopping cart: `CartService` of app/services/cart.py.
pub mod Lines
pub mod Recalculate
pub mod Priced
pub mod Edit
pub mod Session
pub mod Service
pub mod Edits
pub mod Summary
pub mod Settled
pub mod Calls
pub mod Bounds
pub mod Within
pub mod Limits
