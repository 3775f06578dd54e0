-- ===== src/Models/Wishlists.antt =====
-- app/models/wishlist.py. The items are a list inside the row.
use prime_pizza_backend.Base.{ℕ, Bool, List}

pub record WishlistItem : Type 0 where
  pub product_id : ℕ
  pub created_at : ℕ
  pub deleted : Bool

pub record Wishlist : Type 0 where
  pub id : ℕ
  pub user_id : ℕ
  pub items : List WishlistItem
  pub deleted : Bool
