-- ===== src/Cart/Edit.antt =====
-- What the methods of `CartService` change in the cart before they recalculate it.
use prime_pizza_backend.Base.{
  set_first, ℕ, ◌+◌, Bool, true, false, ◌&&◌, ◌||◌, Option, none, some, List, [], ◌∷◌, ◌++◌, map,
  leb, ◌==◌, find_first, length, is_none, is_some, or_else, if◌then◌else◌,
}
use prime_pizza_backend.Base.Exec.{Result, ok, chain, some_or, unless}
use prime_pizza_backend.Text.{Text}
use prime_pizza_backend.Errors.{
  AppException, not_found_exception, validation_exception, text, with_number,
}
use prime_pizza_backend.Enums.{converted}
use prime_pizza_backend.Money.{of_cents, money}
use prime_pizza_backend.Catalog.{ProductVariant, VariantOption, Catalog, alive}
use prime_pizza_backend.Pricing.{price_line}
use prime_pizza_backend.Models.{CartItemExtra, CartItem, Cart}
use prime_pizza_backend.Cart.Lines.{
  is_match, Settings, Entities, keys, normalize_extras, load_priced_entities, extras_signature,
  find_matching_item, validate_quantity,
}
use prime_pizza_backend.Cart.Recalculate.{live_items}

-- `option_ids` without duplicates, as the schema leaves them.
pub record AddCartItemRequest : Type 0 where
  pub product_id : ℕ
  pub variant_id : Option ℕ
  pub quantity : ℕ
  pub extra_option_ids : List ℕ
  pub extras : List (ℕ × ℕ)
  pub special_instructions : Option Text

-- A field is unset, or set to null or a value.
pub record UpdateCartItemRequest : Type 0 where
  pub quantity : Option (Option ℕ)
  pub special_instructions : Option (Option Text)
  pub extra_option_ids : Option (Option (List ℕ))
  pub extras : Option (Option (List (ℕ × ℕ)))

-- The value of an attribute whose default is null.
abbrev pub field_value : {A : Type 0} → Option (Option A) → Option A
field_value none = none
field_value (some v) = v

-- `CartItemExtra(…)`
abbrev pub new_extra : VariantOption × ℕ → CartItemExtra
new_extra (option, qty) = record {
  option_id = option.id;
  quantity = qty;
  unit_price = money (of_cents option.price);
  deleted = false;
}

abbrev variant_id_of : Option ProductVariant → Option ℕ
variant_id_of none = none
variant_id_of (some variant) = some variant.id

unfoldable pub new_item : ℕ → AddCartItemRequest → Entities → CartItem
new_item item_id payload (product, variant, extras) =
    let priced = price_line product variant payload.quantity extras in
    record {
      id = item_id;
      product_id = product.id;
      variant_id = variant_id_of variant;
      quantity = payload.quantity;
      unit_price = priced.unit_price;
      discount_price = priced.discount_price;
      subtotal = priced.line_subtotal;
      special_instructions = payload.special_instructions;
      extras_snapshot = [];
      extras = map new_extra extras;
      deleted = false;
    }

abbrev keep_or : Option Text → Option Text → Option Text
keep_or none old = old
keep_or (some t) _ = some t

-- The line that takes up the added quantity.
unfoldable pub grown_item : ℕ → AddCartItemRequest → CartItem → CartItem
grown_item quantity payload item = record item {
  quantity = quantity;
  special_instructions = keep_or payload.special_instructions item.special_instructions;
}

-- The line that a search by `p` found is assigned to.
abbrev pub set_item : (CartItem → Bool) → CartItem → Cart → Cart
set_item p item cart = record cart { items = set_first p item cart.items }

abbrev pub live_count : Cart → ℕ
live_count cart = length (live_items cart.items)

module _ (settings : Settings) where
  -- Both branches of `add_item`: `p` is the search for a matching line, with its result.
  unfoldable pub merge_or_append :
      ℕ
      → AddCartItemRequest
      → Entities
      → Cart
      → (CartItem → Bool)
      → Option CartItem
      → Result AppException Cart
  unfolding new_item grown_item validate_quantity
  merge_or_append item_id payload rows cart p (some existing) =
      let new_qty = existing.quantity + payload.quantity in
      chain (validate_quantity settings new_qty)
        (λ _. ok (set_item p (grown_item new_qty payload existing) cart))
  merge_or_append item_id payload rows cart p none =
      unless (leb settings.cart_max_items (live_count cart))
        (validation_exception
          (with_number "Cart may contain at most " settings.cart_max_items " items"))
        (ok (record cart { items = cart.items ++ new_item item_id payload rows ∷ [] }))

  -- `add_item`, from the loaded rows on
  unfoldable pub add_line : ℕ → AddCartItemRequest → Entities → Cart → Result AppException Cart
  unfolding find_matching_item is_match merge_or_append
  add_line item_id payload (product, variant, extras) cart =
      let signature = extras_signature extras in
      merge_or_append item_id payload (product, variant, extras) cart
        (is_match payload.product_id payload.variant_id signature)
        (find_matching_item cart payload.product_id payload.variant_id signature)

  abbrev pub set_quantity : Option ℕ → CartItem → Result AppException CartItem
  set_quantity none item = ok item
  set_quantity (some quantity) item =
      chain (validate_quantity settings quantity) (λ _. ok (record item { quantity = quantity }))

  abbrev pub set_instructions : Option (Option Text) → CartItem → CartItem
  set_instructions none item = item
  set_instructions (some value) item = record item { special_instructions = value }

  -- `soft_delete_for_item`, then the new rows
  abbrev pub replace_extras : List (VariantOption × ℕ) → CartItem → CartItem
  replace_extras extras item = record item {
    extras =
        map {A = CartItemExtra} (λ e. record e { deleted = true }) item.extras
        ++ map new_extra extras;
  }

  abbrev pub set_extras :
      Catalog → Option (List ℕ) → Option (List (ℕ × ℕ)) → CartItem → Result AppException CartItem
  set_extras c ids extras item =
      let quantities = normalize_extras (or_else extras []) (or_else ids []) in
      if is_some ids || is_some extras
      then chain
          (load_priced_entities c item.product_id true item.variant_id (keys quantities) quantities)
          (λ (_, _, rows). ok (replace_extras rows item))
      else ok item

  -- `update_item`, on the line that it found
  unfoldable pub change_item :
      Catalog → UpdateCartItemRequest → CartItem → Result AppException CartItem
  change_item c payload item =
      unless
        (is_none payload.quantity
          && is_none payload.special_instructions
          && is_none payload.extra_option_ids
          && is_none payload.extras)
        (validation_exception (text "No cart item fields provided"))
        (chain (set_quantity (field_value payload.quantity) item) (λ item.
          set_extras c (field_value payload.extra_option_ids) (field_value payload.extras)
            (set_instructions payload.special_instructions item)))

  -- The condition of `CartItemRepository.get_for_cart`, and the query.
  abbrev pub is_line : ℕ → CartItem → Bool
  is_line item_id item = item.id == item_id && alive item.deleted

  unfoldable pub get_for_cart : Cart → ℕ → Result AppException CartItem
  get_for_cart cart item_id =
      some_or (find_first (is_line item_id) cart.items)
        (not_found_exception (text "Cart item not found"))

  unfoldable pub change_line : Catalog → ℕ → UpdateCartItemRequest → Cart → Result AppException Cart
  unfolding get_for_cart change_item
  change_line c item_id payload cart =
      chain (get_for_cart cart item_id) (λ item.
        chain (change_item c payload item) (λ new. ok (set_item (is_line item_id) new cart)))

  unfoldable pub drop_line : ℕ → Cart → Result AppException Cart
  unfolding get_for_cart
  drop_line item_id cart =
      chain (get_for_cart cart item_id)
        (λ item. ok (set_item (is_line item_id) (record item { deleted = true }) cart))

-- The loop of `clear`.
abbrev pub delete_items : List CartItem → List CartItem
delete_items items = map {A = CartItem} (λ i. record i { deleted = true }) items

unfoldable pub emptied : Cart → Cart
emptied cart = record cart { items = delete_items cart.items; coupon_id = none }

-- `convert_cart_after_order`
unfoldable pub converted_cart : ℕ → Cart → Cart
converted_cart now cart = record cart {
  items = delete_items cart.items;
  coupon_id = none;
  status = converted;
  is_active = false;
  last_activity = now;
}
