-- ===== src/Wishlist/Calls.antt =====
-- The calls of the service, and the abstract list of products that they should work on.
use prime_pizza_backend.Base.{
  ℕ, ◌≡◌, ◌≢◌, Bool, false, not, ◌||◌, List, [], ◌∷◌, ◌++◌, map, ◌==◌, is_some, keep, if◌then◌else◌,
}
use prime_pizza_backend.Base.Exec.{Result, ok, err}
use prime_pizza_backend.Errors.{AppException, status_code}
use prime_pizza_backend.Catalog.{Catalog, get_product}
use prime_pizza_backend.Models.{WishlistItem}
use prime_pizza_backend.Store.{World, Service}
use prime_pizza_backend.Wishlist.{
  live_wishes, WishlistItemResponse, WishlistResponse, list_wishlist, add, remove, clear,
}
use prime_pizza_backend.Wishlist.Kept.{wished, IsKeyed}

pub data WishCall : Type 0 where
  list_call : WishCall
  add_call : ℕ → WishCall
  remove_call : ℕ → WishCall
  clear_call : WishCall

unfoldable pub wish_call : ℕ → WishCall → Service WishlistResponse
wish_call user_id list_call = list_wishlist user_id
wish_call user_id (add_call product_id) = add user_id product_id
wish_call user_id (remove_call product_id) = remove user_id product_id
wish_call user_id clear_call = clear user_id

abbrev pub is_wished : ℕ → List ℕ → Bool
is_wished p [] = false
is_wished p (q ∷ s) = q == p || is_wished p s

abbrev pub Distinct : List ℕ → Type 0
Distinct [] = Unit
Distinct (p ∷ s) = (is_wished p s ≡ false) × Distinct s

-- What a call should make of the list, or the status of its refusal.
abbrev pub specified : Catalog → WishCall → List ℕ → Result ℕ (List ℕ)
specified c list_call s = ok s
specified c (add_call p) s =
    if not (is_some (get_product c p))
    then err 404
    else if is_wished p s
    then err 409
    else ok (s ++ p ∷ [])
specified c (remove_call p) s = if is_wished p s then ok (keep (λ q. not (q == p)) s) else err 404
specified c clear_call s = ok []

abbrev pub ids : List WishlistItem → List ℕ
ids items = map (λ i. i.product_id) (live_wishes items)

-- The products that an answer shows.
abbrev pub shown : WishlistResponse → List ℕ
shown r = map {A = WishlistItemResponse} (λ i. i.product_id) r.items

-- The list that the answer to a call should show, by the list before the call and the one after it.
abbrev pub displayed : WishCall → List ℕ → List ℕ → List ℕ
displayed list_call before after = after
displayed (add_call p) before after = before
displayed (remove_call p) before after = after
displayed clear_call before after = after

-- A call that should give a list stores it, and shows the list that it should; one that should be
-- refused is refused with that status and leaves the list.
abbrev pub Meets :
    Result ℕ (List ℕ) → ℕ → WishCall → World → Result AppException WishlistResponse × World → Type 0
Meets (ok s) user_id c w (result, w') =
    (r : WishlistResponse) × (result ≡ ok r)
    × (shown r ≡ displayed c (wished w user_id) s)
    × (wished w' user_id ≡ s)
Meets (err code) user_id c w (result, w') =
    (e : AppException) × (result ≡ err e)
    × (status_code e ≡ code)
    × (wished w' user_id ≡ wished w user_id)

pub record Refines (user_id : ℕ) (c : WishCall) (w : World) : Type 0 where
  pub meets :
      Meets (specified w.db.catalog c (wished w user_id)) user_id c w (wish_call user_id c w)
  pub others :
      (other : ℕ) → user_id ≢ other → wished (wish_call user_id c w).1 other ≡ wished w other
  pub is_committed : (wish_call user_id c w).1.committed ≡ (wish_call user_id c w).1.db
  pub is_keyed : IsKeyed (wish_call user_id c w).1
  pub is_distinct : Distinct (wished (wish_call user_id c w).1 user_id)
