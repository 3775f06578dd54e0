-- ===== src/Wishlist/Ids.antt =====
-- The products of a stored list, as the calls change them.
use prime_pizza_backend.Base.{
  ℕ, ◌≡◌, refl, inl, inr, Bool, true, false, not, ◌||◌, some, List, [], ◌∷◌, ◌++◌, map, arith, ◌==◌,
  is_some, keep, find_first, set_first, Bool-cases, Option-cases,
}
use prime_pizza_backend.Catalog.{Catalog}
use prime_pizza_backend.Models.{WishlistItem, Wishlist}
use prime_pizza_backend.Wishlist.{
  is_item, live_wishes, WishlistItemResponse, item_response, to_response,
}
use prime_pizza_backend.Wishlist.Calls.{is_wished, Distinct, ids, shown}

pub wished-item :
    (p : ℕ) (items : List WishlistItem)
    → is_wished p (ids items) ≡ is_some (find_first (is_item p) items)
wished-item p [] = refl
wished-item p (i ∷ items) = ground (arith, wished-item p items)

pub ids-append :
    (i : WishlistItem) (items : List WishlistItem)
    → i.deleted ≡ false
    → ids (items ++ i ∷ []) ≡ ids items ++ i.product_id ∷ []
ids-append i [] d = ground arith
ids-append i (j ∷ items) d = ground (arith, ids-append i items d)

pub ids-emptied :
    (items : List WishlistItem)
    → ids (map {A = WishlistItem} (λ i. record i { deleted = true }) items) ≡ []
ids-emptied [] = refl
ids-emptied (i ∷ items) = ids-emptied items

pub keep-absent : (p : ℕ) (s : List ℕ) → is_wished p s ≡ false → keep (λ q. not (q == p)) s ≡ s
keep-absent p [] h = refl
keep-absent p (q ∷ s) h = ground (arith, keep-absent p s)

pub ids-removed :
    (p : ℕ) (i : WishlistItem) (items : List WishlistItem)
    → Distinct (ids items)
    → find_first (is_item p) items ≡ some i
    → ids (set_first (is_item p) (record i { deleted = true }) items)
      ≡ keep (λ q. not (q == p)) (ids items)
ids-removed p i [] d e = ground arith
ids-removed p i (j ∷ items) d e = ground (arith, ids-removed p i items, keep-absent p (ids items))

pub wished-append : (q p : ℕ) (s : List ℕ) → is_wished q (s ++ p ∷ []) ≡ (is_wished q s || p == q)
wished-append q p [] = ground arith
wished-append q p (r ∷ s) = ground (arith, wished-append q p s)

pub Distinct-append :
    (p : ℕ) (s : List ℕ) → Distinct s → is_wished p s ≡ false → Distinct (s ++ p ∷ [])
Distinct-append p [] d h = (refl, tt)
Distinct-append p (q ∷ s) (a, d) h =
    (ground (arith, wished-append q p s), Distinct-append p s d (ground arith))

pub wished-keep :
    (q : ℕ) (f : ℕ → Bool) (s : List ℕ) → is_wished q s ≡ false → is_wished q (keep f s) ≡ false
wished-keep q f [] h = refl
wished-keep q f (r ∷ s) h = ground (arith, wished-keep q f s)

pub Distinct-keep : (f : ℕ → Bool) (s : List ℕ) → Distinct s → Distinct (keep f s)
Distinct-keep f [] d = tt
Distinct-keep f (q ∷ s) (a, d) = elim (Bool-cases (f q)) [
  | inl kept ↦ rw kept (wished-keep q f s a, Distinct-keep f s d)
  | inr dropped ↦ rw dropped (Distinct-keep f s d)
]

pub response-ids :
    (c : Catalog) (items : List WishlistItem)
    → map {A = WishlistItemResponse}
        (λ i. i.product_id)
        (map (λ i. item_response (find_first (λ p. p.id == i.product_id) c.products) i) items)
      ≡ map (λ i. i.product_id) items
response-ids c [] = refl
response-ids c (i ∷ items) =
    elim (Option-cases (find_first (λ p. p.id == i.product_id) c.products)) [
      | inl none_ ↦ rw (none_, response-ids c items)
      | inr (p, found) ↦ rw (found, response-ids c items)
    ]

pub to_response-shown : (c : Catalog) (l : Wishlist) → shown (to_response c l) ≡ ids l.items
unfolding to_response
to_response-shown c l = response-ids c (live_wishes l.items)
