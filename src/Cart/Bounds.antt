-- ===== src/Cart/Bounds.antt =====
-- The limits on a cart: how many units a line has, and how many lines there are.
pub mod Edits
pub mod Totals
use prime_pizza_backend.Base.{
  or_else, is_some, ◌||◌, length-keep, count-append, find_first-holds, All-find_first, set_first,
  All-set_first, ℕ, ◌+◌, ◌≤◌, ◌<◌, ◌≡◌, refl, ◌∙◌, sym, inl, inr, Bool, true, false, ◌&&◌, Option,
  none, some, List, [], ◌∷◌, ◌++◌, map, arith, leb, ltb, ◌==◌, find_first, keep, update_where,
  length, All, All-append, if◌then◌else◌, Option-cases, Bool-cases, length-append,
}
use prime_pizza_backend.Base.Exec.{
  unless-ok, Result, ok, err, unless, chain, chain-ok, ok-injective, Result-cases,
}
use prime_pizza_backend.Text.{Text}
use prime_pizza_backend.Errors.{AppException}
use prime_pizza_backend.Catalog.{Catalog, alive}
use prime_pizza_backend.Commerce.{CommerceConfig}
use prime_pizza_backend.Coupon.{CouponTables}
use prime_pizza_backend.Models.{CartItem, Cart}
use prime_pizza_backend.Cart.Lines.{
  keys, normalize_extras, load_priced_entities, Settings, Entities, validate_quantity,
  extras_signature, find_matching_item, is_match,
}
use prime_pizza_backend.Cart.Recalculate.{
  recalculate, totalled, reprice_items, priced_item, item_entities, live_items,
}
use prime_pizza_backend.Cart.Edit.{
  replace_extras, field_value, is_line, AddCartItemRequest, UpdateCartItemRequest, set_item,
  live_count, merge_or_append, new_item, grown_item, add_line, set_quantity, set_instructions,
  set_extras, change_item, get_for_cart, change_line, drop_line, delete_items, emptied,
}

module _ (settings : Settings) where
  abbrev pub IsAllowed : ℕ → Type 0
  IsAllowed quantity =
      (settings.cart_min_item_quantity ≤ quantity) × (quantity ≤ settings.cart_max_item_quantity)

  -- A line that is not deleted has an allowed number of units.
  abbrev pub IsAllowedItem : CartItem → Type 0
  IsAllowedItem item = item.deleted ≡ false → IsAllowed item.quantity

  pub record InBounds (cart : Cart) : Type 0 where
    pub quantities : All IsAllowedItem cart.items
    pub few : live_count cart ≤ settings.cart_max_items

  pub validate_quantity-IsAllowed :
      (quantity : ℕ) (u : Unit {0})
      → validate_quantity settings quantity ≡ ok u
      → IsAllowed quantity
  unfolding validate_quantity
  validate_quantity-IsAllowed quantity u h = ground arith

  pub empty-InBounds : (cart : Cart) → cart.items ≡ [] → InBounds cart
  empty-InBounds cart h = record { quantities = rw h tt; few = rw h (omega arith) }

  pub same_lines-InBounds :
      (cart : Cart) (coupon_id : Option ℕ)
      → InBounds cart
      → InBounds (record cart { coupon_id = coupon_id })
  same_lines-InBounds cart coupon_id b = record { quantities = b.quantities; few = b.few }

  -- A found line that is not deleted is assigned to: no line more.
  few-set_first :
      (p : CartItem → Bool) (old new : CartItem) (items : List CartItem)
      → find_first p items ≡ some old
      → old.deleted ≡ false
      → length (live_items (set_first p new items)) ≤ length (live_items items)
  few-set_first p old new [] found here = ground arith
  few-set_first p old new (i ∷ items) found here = ground (arith, few-set_first p old new items)

  pub set_item-InBounds :
      (p : CartItem → Bool) (old new : CartItem) (cart : Cart)
      → find_first p cart.items ≡ some old
      → old.deleted ≡ false
      → IsAllowedItem new
      → InBounds cart
      → InBounds (set_item p new cart)
  set_item-InBounds p old new cart found here h b = record {
    quantities = All-set_first IsAllowedItem p new cart.items h b.quantities;
    few = omega (arith, few-set_first p old new cart.items found here, b.few);
  }

  new_item_lem :
      (item_id : ℕ) (payload : AddCartItemRequest) (rows : Entities)
      → let item = new_item item_id payload rows in
        (item.deleted ≡ false) × (item.quantity ≡ payload.quantity)
  unfolding new_item
  new_item_lem item_id payload (product, variant, extras) = (refl, refl)

  append-InBounds :
      (item : CartItem) (cart : Cart)
      → IsAllowed item.quantity
      → live_count cart < settings.cart_max_items
      → InBounds cart
      → InBounds (record cart { items = cart.items ++ item ∷ [] })
  append-InBounds item cart q room b =
      let live = λ (i : CartItem). alive i.deleted in
      record {
        quantities = All-append IsAllowedItem cart.items (item ∷ []) b.quantities (λ _. q, tt);
        few = ground (
          arith,
          length-keep live (cart.items ++ item ∷ []),
          length-keep live cart.items,
          count-append live cart.items (item ∷ []),
        );
      }

  merge_or_append-InBounds :
      (item_id : ℕ) (payload : AddCartItemRequest) (rows : Entities) (cart edited : Cart)
      (p : CartItem → Bool) (o : Option CartItem)
      → find_first p cart.items ≡ o
      → ((i : CartItem) → p i ≡ true → i.deleted ≡ false)
      → IsAllowed payload.quantity
      → InBounds cart
      → merge_or_append settings item_id payload rows cart p o ≡ ok edited
      → InBounds edited
  unfolding merge_or_append
  merge_or_append-InBounds item_id payload rows cart edited p none e live q b h =
      let item = new_item item_id payload rows in
      let new = record cart { items = cart.items ++ item ∷ [] } in
      let made = unless-ok _ _ (ok new) edited h in
      rw (sym (ok-injective new edited made))
        (append-InBounds item cart (rw ((new_item_lem item_id payload rows).1) q) (ground arith) b)
  merge_or_append-InBounds item_id payload rows cart edited p (some old) e live q b h =
      let new_qty = old.quantity + payload.quantity in
      let new = grown_item new_qty payload old in
      let (u, valid, made) =
        chain-ok (validate_quantity settings new_qty) (λ _. ok (set_item p new cart)) edited h in
      rw (sym (ok-injective (set_item p new cart) edited made)) (
        set_item-InBounds p old new cart e (live old (find_first-holds p cart.items old e))
          (λ _. validate_quantity-IsAllowed new_qty u valid) b)

  is_match-live :
      (product_id : ℕ) (variant_id : Option ℕ) (signature : List (ℕ × ℕ)) (i : CartItem)
      → is_match product_id variant_id signature i ≡ true
      → i.deleted ≡ false
  unfolding is_match
  is_match-live product_id variant_id signature i m = ground arith

  pub add_line-InBounds :
      (item_id : ℕ) (payload : AddCartItemRequest) (rows : Entities) (cart edited : Cart)
      → IsAllowed payload.quantity
      → InBounds cart
      → add_line settings item_id payload rows cart ≡ ok edited
      → InBounds edited
  unfolding add_line find_matching_item
  add_line-InBounds item_id payload (product, variant, extras) cart edited q b h =
      merge_or_append-InBounds item_id payload (product, variant, extras) cart edited
        (is_match payload.product_id payload.variant_id (extras_signature extras)) _ refl
        (λ i m. is_match-live payload.product_id payload.variant_id _ i m) q b h
