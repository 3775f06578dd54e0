-- ===== src/Checkout.antt =====
-- Checkout: `CheckoutValidationService` of app/services/checkout.py, and `OrderService.place_order`
-- with its helpers, of app/services/order.py.
pub mod Issues
pub mod Draft
pub mod Redis
pub mod Place
pub mod SameCart
pub mod Ready
pub mod Drafted
pub mod Closed
pub mod Earlier
pub mod Ended
pub mod Placed
pub mod Redeemed
pub mod Stable
pub mod Limited
pub mod Numbers
pub mod Numbered
pub mod Replay
