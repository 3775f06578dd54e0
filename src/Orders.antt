-- ===== src/Orders.antt =====
-- `OrderService` of app/services/order.py, the part that manages placed orders, over the queries of
-- app/repositories/order.py and the cache of app/services/order_cache.py.
pub mod Status
pub mod Table
pub mod Views
pub mod Manage
pub mod Moved
pub mod Effects
pub mod Calls
pub mod Cache
pub mod History
