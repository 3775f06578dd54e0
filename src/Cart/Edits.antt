-- ===== src/Cart/Edits.antt =====
-- What the methods that change a cart keep of it: the key of its row, and its lines.
use prime_pizza_backend.Base.{
  ℕ, ◌+◌, ◌≡◌, ◌≤◌, refl, sym, inl, inr, Bool, true, false, Option, none, some, List, [], ◌∷◌, ◌++◌,
  arith, set_first, length, length-append, Bool-cases,
}
use prime_pizza_backend.Base.Exec.{Result, ok, chain, chain-ok, ok-injective, unless-ok}
use prime_pizza_backend.Errors.{AppException}
use prime_pizza_backend.Catalog.{Catalog, alive}
use prime_pizza_backend.Commerce.{CommerceConfig}
use prime_pizza_backend.Coupon.{Coupon, CouponTables}
use prime_pizza_backend.Models.{CartItem, Cart}
use prime_pizza_backend.Cart.Lines.{
  Settings, Entities, validate_quantity, extras_signature, find_matching_item, is_match,
}
use prime_pizza_backend.Cart.Recalculate.{
  coupon_of, item_entities, priced_item, recalculate, recalculate_with, reprice_items, totalled,
}
use prime_pizza_backend.Cart.Edit.{
  AddCartItemRequest, UpdateCartItemRequest, add_line, change_item, change_line, delete_items,
  drop_line, emptied, get_for_cart, grown_item, is_line, merge_or_append, new_item, set_item,
}
use prime_pizza_backend.Cart.Service.{get_active, replace_cart}

-- Two rows agree on what the query for the active cart reads.
pub record SameKey (a b : Cart) : Type 0 where
  pub same_id : a.id ≡ b.id
  pub same_user : a.user_id ≡ b.user_id
  pub same_active : a.is_active ≡ b.is_active
  pub same_deleted : a.deleted ≡ b.deleted

pub get_active-replace :
    (carts : List Cart) (user_id : ℕ) (old new : Cart)
    → get_active carts user_id ≡ some old
    → SameKey new old
    → get_active (replace_cart new carts) user_id ≡ some new
unfolding get_active replace_cart
get_active-replace [] user_id old new found same = ground arith
get_active-replace (c ∷ carts) user_id old new found same = ground (
  arith,
  get_active-replace carts user_id old new,
  same.same_id,
  same.same_user,
  same.same_active,
  same.same_deleted,
)

pub get_active-found :
    (carts : List Cart) (user_id : ℕ) (cart : Cart)
    → get_active carts user_id ≡ some cart
    → (cart.user_id ≡ user_id) × (cart.is_active ≡ true) × (cart.deleted ≡ false)
unfolding get_active
get_active-found [] user_id cart e = ground arith
get_active-found (c ∷ carts) user_id cart e = ground (arith, get_active-found carts user_id cart)

length-reprice :
    (c : Catalog) (items priced : List CartItem)
    → reprice_items c items ≡ ok priced
    → length priced ≡ length items
unfolding reprice_items
length-reprice c [] priced h = rw (sym (ok-injective [] priced h)) refl
length-reprice c (item ∷ items) priced h = elim (Bool-cases (alive item.deleted)) [
  | inl live ↦
      let after : Entities → List CartItem → Result AppException (List CartItem) =
        λ rows l. ok (priced_item item rows ∷ l) in
      let (rows, loaded, h1) =
        chain-ok (item_entities c item) (λ rows. chain (reprice_items c items) (after rows)) priced
          (ground arith) in
      let (rest, e, h2) = chain-ok (reprice_items c items) (after rows) priced h1 in
      rw (sym (ok-injective (priced_item item rows ∷ rest) priced h2))
        (omega (arith, length-reprice c items rest e))
  | inr gone ↦
      let (rest, e, h2) =
        chain-ok (reprice_items c items) (λ l. ok (item ∷ l)) priced (ground arith) in
      rw (sym (ok-injective (item ∷ rest) priced h2)) (omega (arith, length-reprice c items rest e))
]

pub recalculate_with-SameKey :
    (commerce : CommerceConfig) (c : Catalog) (db : CouponTables) (now : ℕ) (coupon : Option Coupon)
    (cart priced : Cart)
    → recalculate_with commerce c db now coupon cart ≡ ok priced
    → SameKey priced cart × (length priced.items ≡ length cart.items)
unfolding recalculate_with totalled
recalculate_with-SameKey commerce c db now coupon cart priced h =
    let (items, e, done) =
      chain-ok (reprice_items c cart.items)
        (λ items. ok (totalled commerce db now coupon cart items)) priced h in
    rw (sym (ok-injective (totalled commerce db now coupon cart items) priced done)) (
      record { same_id = refl; same_user = refl; same_active = refl; same_deleted = refl },
      length-reprice c cart.items items e,
    )

pub recalculate-SameKey :
    (commerce : CommerceConfig) (c : Catalog) (db : CouponTables) (now : ℕ) (cart priced : Cart)
    → recalculate commerce c db now cart ≡ ok priced
    → SameKey priced cart × (length priced.items ≡ length cart.items)
unfolding recalculate
recalculate-SameKey commerce c db now cart priced h =
    recalculate_with-SameKey commerce c db now (coupon_of db cart.coupon_id) cart priced h

-- What the methods do to a loaded cart before they settle it: no line goes from the list.
pub record Edits (loaded edited : Cart) : Type 0 where
  pub same_key : SameKey edited loaded
  pub grows : length loaded.items ≤ length edited.items

pub SameKey-refl : (cart : Cart) → SameKey cart cart
SameKey-refl cart = record {
  same_id = refl;
  same_user = refl;
  same_active = refl;
  same_deleted = refl;
}

length-set_first :
    (p : CartItem → Bool) (item : CartItem) (items : List CartItem)
    → length (set_first p item items) ≡ length items
length-set_first p item [] = refl
length-set_first p item (i ∷ items) = ground (arith, length-set_first p item items)

set_item-Edits :
    (p : CartItem → Bool) (item : CartItem) (cart : Cart) → Edits cart (set_item p item cart)
set_item-Edits p item cart = record {
  same_key = record { same_id = refl; same_user = refl; same_active = refl; same_deleted = refl };
  grows = omega (arith, length-set_first p item cart.items);
}

append-Edits :
    (item : CartItem) (cart : Cart) → Edits cart (record cart { items = cart.items ++ item ∷ [] })
append-Edits item cart = record {
  same_key = record { same_id = refl; same_user = refl; same_active = refl; same_deleted = refl };
  grows = omega (arith, length-append cart.items (item ∷ []));
}

length-deleted : (items : List CartItem) → length (delete_items items) ≡ length items
length-deleted [] = refl
length-deleted (i ∷ items) = omega (arith, length-deleted items)

pub emptied-Edits : (cart : Cart) → Edits cart (emptied cart)
unfolding emptied
emptied-Edits cart = record {
  same_key = record { same_id = refl; same_user = refl; same_active = refl; same_deleted = refl };
  grows = omega (arith, length-deleted cart.items);
}

module _ (settings : Settings) where
  merge_or_append-Edits :
      (item_id : ℕ) (payload : AddCartItemRequest) (rows : Entities) (cart edited : Cart)
      (p : CartItem → Bool) (o : Option CartItem)
      → merge_or_append settings item_id payload rows cart p o ≡ ok edited
      → Edits cart edited
  unfolding merge_or_append
  merge_or_append-Edits item_id payload rows cart edited p none h =
      let new = record cart { items = cart.items ++ new_item item_id payload rows ∷ [] } in
      rw (sym (ok-injective new edited (unless-ok _ _ (ok new) edited h)))
        (append-Edits (new_item item_id payload rows) cart)
  merge_or_append-Edits item_id payload rows cart edited p (some old) h =
      let new_qty = old.quantity + payload.quantity in
      let new = set_item p (grown_item new_qty payload old) cart in
      let (u, valid, made) = chain-ok (validate_quantity settings new_qty) (λ _. ok new) edited h in
      rw (sym (ok-injective new edited made))
        (set_item-Edits p (grown_item new_qty payload old) cart)

  pub add_line-Edits :
      (item_id : ℕ) (payload : AddCartItemRequest) (rows : Entities) (cart edited : Cart)
      → add_line settings item_id payload rows cart ≡ ok edited
      → Edits cart edited
  unfolding add_line
  add_line-Edits item_id payload (product, variant, extras) cart edited h =
      merge_or_append-Edits item_id payload (product, variant, extras) cart edited
        (is_match payload.product_id payload.variant_id (extras_signature extras))
        (find_matching_item cart payload.product_id payload.variant_id (extras_signature extras)) h

  pub change_line-Edits :
      (c : Catalog) (item_id : ℕ) (payload : UpdateCartItemRequest) (cart edited : Cart)
      → change_line settings c item_id payload cart ≡ ok edited
      → Edits cart edited
  unfolding change_line
  change_line-Edits c item_id payload cart edited h =
      let set : CartItem → Result AppException Cart =
        λ new. ok (set_item (is_line settings item_id) new cart) in
      let (item, found, h1) =
        chain-ok (get_for_cart settings cart item_id)
          (λ item. chain (change_item settings c payload item) set) edited h in
      let (new, changed, h2) = chain-ok (change_item settings c payload item) set edited h1 in
      rw (sym (ok-injective (set_item (is_line settings item_id) new cart) edited h2))
        (set_item-Edits (is_line settings item_id) new cart)

  pub drop_line-Edits :
      (item_id : ℕ) (cart edited : Cart)
      → drop_line settings item_id cart ≡ ok edited
      → Edits cart edited
  unfolding drop_line
  drop_line-Edits item_id cart edited h =
      let dropped : CartItem → Cart =
        λ item. set_item (is_line settings item_id) (record item { deleted = true }) cart in
      let (item, found, made) =
        chain-ok (get_for_cart settings cart item_id) (λ item. ok (dropped item)) edited h in
      rw (sym (ok-injective (dropped item) edited made))
        (set_item-Edits (is_line settings item_id) (record item { deleted = true }) cart)
