-- ===== src/Tests/Wishes.antt =====
-- One user takes a pizza off the list.
use prime_pizza_backend.Base.{refl, false, [], ◌∷◌, arith}
use prime_pizza_backend.Models.{WishlistItem}
use prime_pizza_backend.Store.{Database, World}
use prime_pizza_backend.Wishlist.{wishlist_of}
use prime_pizza_backend.Wishlist.Calls.{remove_call, Refines}
use prime_pizza_backend.Wishlist.Refined.{wish_call-Refines}
use prime_pizza_backend.Tests.Fixtures.{database, world}

abbrev wish : WishlistItem
wish = record { product_id = 10; created_at = 950; deleted = false }

abbrev wish_database : Database
wish_database = record database {
  wishlists = record { id = 70; user_id = 1; items = wish ∷ []; deleted = false } ∷ [];
}

abbrev wish_world : World
wish_world = record world { db = wish_database; committed = wish_database }

wish_call-Refines_example : Refines 1 (remove_call 10) wish_world
unfolding wishlist_of
wish_call-Refines_example =
    wish_call-Refines 1 (remove_call 10) wish_world
      (record { owner = λ i. 1; is_owned = (refl, tt); is_old = (omega arith, tt) }) refl (refl, tt)
