-- ===== src/RateLimiting.antt =====
-- app/middleware/rate_limiting.py, with `get_client_ip` of app/utils/network.py.
pub mod Policies
pub mod Windows
pub mod Dispatch
pub mod Counted
pub mod Events
pub mod Steps
pub mod Quota
