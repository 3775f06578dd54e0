-- ===== src/Models.antt =====
-- The rows of app/models that the services keep: the columns that they read
-- or write. A row that is soft-deleted stays, with `deleted` set (app/database/mixins.py).
mod Users
mod Carts
mod Orders
mod Wishlists
mod Settings
mod Audits
pub use Users.*
pub use Carts.*
pub use Orders.*
pub use Wishlists.*
pub use Settings.*
pub use Audits.*
