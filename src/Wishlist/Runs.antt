-- ===== src/Wishlist/Runs.antt =====
-- What each operation of the service comes to on each of its branches.
use prime_pizza_backend.Base.{ℕ, ◌≡◌, refl, none, some, arith}
use prime_pizza_backend.Base.Exec.{ok, err}
use prime_pizza_backend.Errors.{
  AppException, status_code, not_found_exception, conflict_exception, text,
}
use prime_pizza_backend.Catalog.{Product, get_product}
use prime_pizza_backend.Models.{WishlistItem, Wishlist}
use prime_pizza_backend.Store.{World, commit}
use prime_pizza_backend.Wishlist.{
  wishlist_of, get_item, save_wishlist, get_or_create, to_response, answer, answer_loaded,
  list_wishlist, with_item, add, without_item, remove, emptied, clear,
}

pub add_unknown :
    (u p : ℕ) (w : World)
    → get_product w.db.catalog p ≡ none
    → (e : AppException) × (add u p w ≡ (err e, w)) × (status_code e ≡ 404)
unfolding add status_code
add_unknown u p w e = (not_found_exception (text "Product not found"), ground arith, refl)

pub add_twice :
    (u p : ℕ) (w w1 : World) (x : Product) (l : Wishlist) (i : WishlistItem)
    → get_product w.db.catalog p ≡ some x
    → get_or_create u w ≡ (ok l, w1)
    → get_item l p ≡ some i
    → (e : AppException) × (add u p w ≡ (err e, w1)) × (status_code e ≡ 409)
unfolding add status_code
add_twice u p w w1 x l i hx hl hi =
    (conflict_exception (text "Product already in wishlist"), ground arith, refl)

pub answer_run :
    (u : ℕ) (w : World) (l : Wishlist)
    → wishlist_of w.db.wishlists u ≡ some l
    → answer u w ≡ (ok (to_response w.db.catalog l), w)
unfolding get_or_create
answer_run u w l e = ground arith

pub answer_loaded_run :
    (u : ℕ) (w : World) (loaded l : Wishlist)
    → wishlist_of w.db.wishlists u ≡ some l
    → answer_loaded loaded u w
      ≡ (ok (to_response w.db.catalog (record l { items = loaded.items })), w)
unfolding get_or_create
answer_loaded_run u w loaded l e = ground arith

pub add_new :
    (u p : ℕ) (w w1 : World) (x : Product) (l : Wishlist)
    → get_product w.db.catalog p ≡ some x
    → get_or_create u w ≡ (ok l, w1)
    → get_item l p ≡ none
    → add u p w ≡ answer_loaded l u (commit (save_wishlist (with_item p w1.now l) w1)).1
unfolding add
add_new u p w w1 x l hx hl hi = ground arith

pub remove_missing :
    (u p : ℕ) (w w1 : World) (l : Wishlist)
    → get_or_create u w ≡ (ok l, w1)
    → get_item l p ≡ none
    → (e : AppException) × (remove u p w ≡ (err e, w1)) × (status_code e ≡ 404)
unfolding remove status_code
remove_missing u p w w1 l hl hi =
    (not_found_exception (text "Wishlist item not found"), ground arith, refl)

pub remove_found :
    (u p : ℕ) (w w1 : World) (l : Wishlist) (i : WishlistItem)
    → get_or_create u w ≡ (ok l, w1)
    → get_item l p ≡ some i
    → remove u p w ≡ answer u (commit (save_wishlist (without_item p i l) w1)).1
unfolding remove
remove_found u p w w1 l i hl hi = ground arith

pub clear_run :
    (u : ℕ) (w w1 : World) (l : Wishlist)
    → get_or_create u w ≡ (ok l, w1)
    → clear u w ≡ answer u (commit (save_wishlist (emptied l) w1)).1
unfolding clear
clear_run u w w1 l hl = ground arith

pub list_run :
    (u : ℕ) (w w1 : World) (l : Wishlist)
    → get_or_create u w ≡ (ok l, w1)
    → list_wishlist u w ≡ (ok (to_response w1.db.catalog l), w1)
unfolding list_wishlist
list_run u w w1 l hl = ground arith
