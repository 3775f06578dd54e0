-- ===== src/Wishlist.antt =====
-- `WishlistService` (app/services/wishlist.py), over the queries of app/repositories/wishlist.py.
pub mod Kept
pub mod Calls
pub mod Ids
pub mod Runs
pub mod Refined
use prime_pizza_backend.Base.{
  ℕ, ◌+◌, Bool, true, false, ◌&&◌, Option, none, some, List, [], ◌∷◌, ◌++◌, map, ◌==◌, is_some,
  length, keep, find_first, set_first, update_where,
}
use prime_pizza_backend.Base.Exec.{pure, gets, or_raise, raise_if, modify, ◌>>=◌, ◌>>◌}
use prime_pizza_backend.Text.{Text}
use prime_pizza_backend.Errors.{not_found_exception, conflict_exception, assertion_error, text}
use prime_pizza_backend.Money.{Cents}
use prime_pizza_backend.Catalog.{Product, Catalog, alive, get_product}
use prime_pizza_backend.Models.{WishlistItem, Wishlist}
use prime_pizza_backend.Store.{World, Service, commit}

-- `WishlistRepository.get_for_user`
unfoldable pub wishlist_of : List Wishlist → ℕ → Option Wishlist
wishlist_of wishlists user_id = find_first (λ l. l.user_id == user_id && alive l.deleted) wishlists

abbrev pub is_item : ℕ → WishlistItem → Bool
is_item product_id item = item.product_id == product_id && alive item.deleted

-- `WishlistItemRepository.get_item`
unfoldable pub get_item : Wishlist → ℕ → Option WishlistItem
get_item wishlist product_id = find_first (is_item product_id) wishlist.items

abbrev pub save_wishlist : Wishlist → World → World
save_wishlist wishlist w = record w {
  db = record w.db {
    wishlists = update_where (λ l. l.id == wishlist.id) (λ _. wishlist) w.db.wishlists;
  };
}

abbrev pub add_wishlist : ℕ → World → World
add_wishlist user_id w =
    let created : Wishlist = record {
      id = w.db.next_id;
      user_id = user_id;
      items = [];
      deleted = false;
    } in
    record w {
      db = record w.db { next_id = w.db.next_id + 1; wishlists = w.db.wishlists ++ created ∷ [] };
    }

abbrev pub wishlist_or_new : ℕ → Option Wishlist → Service Wishlist
wishlist_or_new user_id (some wishlist) = pure wishlist
wishlist_or_new user_id none = do
  modify (add_wishlist user_id)
  commit
  (λ w. or_raise (wishlist_of w.db.wishlists user_id) assertion_error w)

-- `get_or_create`
unfoldable pub get_or_create : ℕ → Service Wishlist
get_or_create user_id w = wishlist_or_new user_id (wishlist_of w.db.wishlists user_id) w

-- The product's columns are null when its row is gone; slug and image are left out.
pub record WishlistItemResponse : Type 0 where
  pub product_id : ℕ
  pub product_name : Option Text
  pub base_price : Option Cents
  pub is_available : Option Bool
  pub added_at : ℕ

pub record WishlistResponse : Type 0 where
  pub id : ℕ
  pub item_count : ℕ
  pub items : List WishlistItemResponse

abbrev pub item_response : Option Product → WishlistItem → WishlistItemResponse
item_response none item = record {
  product_id = item.product_id;
  product_name = none;
  base_price = none;
  is_available = none;
  added_at = item.created_at;
}
item_response (some product) item = record {
  product_id = item.product_id;
  product_name = some product.name;
  base_price = some product.base_price;
  is_available = some product.is_available;
  added_at = item.created_at;
}

abbrev pub live_wishes : List WishlistItem → List WishlistItem
live_wishes items = keep (λ i. alive i.deleted) items

-- `_to_response`; the relationship to the product does not look whether it is deleted.
unfoldable pub to_response : Catalog → Wishlist → WishlistResponse
to_response c wishlist =
    let items =
      map (λ i. item_response (find_first (λ p. p.id == i.product_id) c.products) i)
        (live_wishes wishlist.items) in
    record { id = wishlist.id; item_count = length items; items = items }

abbrev pub answer : ℕ → Service WishlistResponse
answer user_id = do wishlist ← get_or_create user_id; gets (λ w. to_response w.db.catalog wishlist)

-- The same after a write: the row is the one that was loaded before, and its items are the
-- collection that was loaded then, since the session refreshes no loaded collection. An item that
-- was added by its foreign key is not in it.
abbrev pub answer_loaded : Wishlist → ℕ → Service WishlistResponse
answer_loaded loaded user_id = do
  wishlist ← get_or_create user_id
  gets (λ w. to_response w.db.catalog (record wishlist { items = loaded.items }))

unfoldable pub list_wishlist : ℕ → Service WishlistResponse
list_wishlist user_id = answer user_id

abbrev pub with_item : ℕ → ℕ → Wishlist → Wishlist
with_item product_id now wishlist =
    let item : WishlistItem = record {
      product_id = product_id;
      created_at = now;
      deleted = false;
    } in
    record wishlist { items = wishlist.items ++ item ∷ [] }

unfoldable pub add : ℕ → ℕ → Service WishlistResponse
add user_id product_id = do
  _ ← (λ w.
      or_raise (get_product w.db.catalog product_id)
        (not_found_exception (text "Product not found")) w)
  wishlist ← get_or_create user_id
  raise_if (is_some (get_item wishlist product_id))
      (conflict_exception (text "Product already in wishlist"))
  modify (λ w. save_wishlist (with_item product_id w.now wishlist) w)
  commit
  answer_loaded wishlist user_id

-- `soft_delete` of the item that was found
abbrev pub without_item : ℕ → WishlistItem → Wishlist → Wishlist
without_item product_id item wishlist = record wishlist {
  items = set_first (is_item product_id) (record item { deleted = true }) wishlist.items;
}

unfoldable pub remove : ℕ → ℕ → Service WishlistResponse
remove user_id product_id = do
  wishlist ← get_or_create user_id
  item ←
      or_raise (get_item wishlist product_id) (not_found_exception (text "Wishlist item not found"))
  modify (save_wishlist (without_item product_id item wishlist))
  commit
  answer user_id

-- The loop over the items.
abbrev pub emptied : Wishlist → Wishlist
emptied wishlist = record wishlist {
  items = map {A = WishlistItem} (λ i. record i { deleted = true }) wishlist.items;
}

unfoldable pub clear : ℕ → Service WishlistResponse
clear user_id = do
  wishlist ← get_or_create user_id
  modify (save_wishlist (emptied wishlist))
  commit
  answer user_id
