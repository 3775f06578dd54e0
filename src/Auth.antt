-- ===== src/Auth.antt =====
-- Accounts and sessions: app/services/auth.py and what it stands on.
pub mod State
pub mod Sessions
pub mod Tokens
pub mod Service
pub mod Requests
pub mod Calls
pub mod Spent
pub mod Revocation
pub mod Limited
pub mod Issued
pub mod SignedIn
pub mod Logout
