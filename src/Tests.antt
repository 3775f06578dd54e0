-- ===== src/Tests.antt =====
-- Runs of the model at concrete inputs, and the theorems applied to them.
mod Fixtures
mod Money
mod Access
mod Orders
mod Carts
mod Checkouts
mod Signatures
mod Sessions
mod Uploads
mod Limits
mod Wishes
mod Owners
mod Coupons
