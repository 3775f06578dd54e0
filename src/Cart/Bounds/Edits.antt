-- ===== src/Cart/Bounds/Edits.antt =====
-- The limits through the changes of a line, the removal of one, and of all.
use prime_pizza_backend.Base.{
  or_else, is_some, ◌||◌, find_first-holds, All-find_first, ℕ, ◌≡◌, refl, sym, inl, inr, true,
  false, Option, none, some, List, [], ◌∷◌, arith, find_first, All, Option-cases, Bool-cases,
}
use prime_pizza_backend.Base.Exec.{unless-ok, Result, ok, chain, chain-ok, ok-injective}
use prime_pizza_backend.Text.{Text}
use prime_pizza_backend.Errors.{AppException}
use prime_pizza_backend.Catalog.{Catalog}
use prime_pizza_backend.Models.{CartItem, Cart}
use prime_pizza_backend.Cart.Lines.{
  keys, normalize_extras, load_priced_entities, Settings, Entities, validate_quantity,
}
use prime_pizza_backend.Cart.Recalculate.{live_items}
use prime_pizza_backend.Cart.Edit.{
  replace_extras, field_value, is_line, UpdateCartItemRequest, set_item, set_quantity,
  set_instructions, set_extras, change_item, get_for_cart, change_line, drop_line, delete_items,
  emptied,
}
use prime_pizza_backend.Cart.Bounds.{
  IsAllowedItem, InBounds, validate_quantity-IsAllowed, set_item-InBounds,
}

module _ (settings : Settings) where
  set_quantity-IsAllowed :
      (quantity : Option ℕ) (item new : CartItem)
      → IsAllowedItem settings item
      → set_quantity settings quantity item ≡ ok new
      → IsAllowedItem settings new
  set_quantity-IsAllowed none item new h e = rw (sym (ok-injective item new e)) h
  set_quantity-IsAllowed (some quantity) item new h e =
      let changed : CartItem = record item { quantity = quantity } in
      let (u, valid, made) =
        chain-ok (validate_quantity settings quantity) (λ _. ok changed) new e in
      rw (sym (ok-injective changed new made))
        (λ _. validate_quantity-IsAllowed settings quantity u valid)

  set_instructions_keeps :
      (value : Option (Option Text)) (item : CartItem)
      → let new = set_instructions settings value item in
        (new.quantity ≡ item.quantity) × (new.deleted ≡ item.deleted)
  set_instructions_keeps none item = (refl, refl)
  set_instructions_keeps (some value) item = (refl, refl)

  set_extras_keeps :
      (c : Catalog) (ids : Option (List ℕ)) (extras : Option (List (ℕ × ℕ))) (item new : CartItem)
      → set_extras settings c ids extras item ≡ ok new
      → (new.quantity ≡ item.quantity) × (new.deleted ≡ item.deleted)
  set_extras_keeps c ids extras item new e =
      let quantities = normalize_extras (or_else extras []) (or_else ids []) in
      let loaded =
        load_priced_entities c item.product_id true item.variant_id (keys quantities) quantities in
      let after : Entities → Result AppException CartItem =
        λ (_, _, rows). ok (replace_extras settings rows item) in
      elim (Bool-cases (is_some ids || is_some extras)) [
        | inr unset ↦ let same : item ≡ new = ground arith in rw (sym same) (refl, refl)
        | inl set ↦
            let ((product, variant, rows), e1, e2) = chain-ok loaded after new (ground arith) in
            rw (sym (ok-injective (replace_extras settings rows item) new e2)) (refl, refl)
      ]

  change_item-IsAllowed :
      (c : Catalog) (payload : UpdateCartItemRequest) (item new : CartItem)
      → IsAllowedItem settings item
      → change_item settings c payload item ≡ ok new
      → IsAllowedItem settings new
  unfolding change_item
  change_item-IsAllowed c payload item new h e =
      let inner = set_quantity settings (field_value payload.quantity) item in
      let after : CartItem → Result AppException CartItem = λ item.
        set_extras settings c (field_value payload.extra_option_ids) (field_value payload.extras)
          (set_instructions settings payload.special_instructions item) in
      let (mid, e1, e2) = chain-ok inner after new (unless-ok _ _ (chain inner after) new e) in
      let k = set_quantity-IsAllowed (field_value payload.quantity) item mid h e1 in
      let a = set_instructions_keeps payload.special_instructions mid in
      let b =
        set_extras_keeps c (field_value payload.extra_option_ids) (field_value payload.extras)
          (set_instructions settings payload.special_instructions mid) new e2 in
      λ here. ground (arith, k, a, b)

  get_for_cart-found :
      (item_id : ℕ) (cart : Cart) (item : CartItem)
      → get_for_cart settings cart item_id ≡ ok item
      → (find_first (is_line settings item_id) cart.items ≡ some item) × (item.deleted ≡ false)
  unfolding get_for_cart
  get_for_cart-found item_id cart item e =
      elim (Option-cases (find_first (is_line settings item_id) cart.items)) [
        | inl gone ↦ ground arith
        | inr (i, found) ↦
            let same : i ≡ item = ground arith in
            let holds = find_first-holds (is_line settings item_id) cart.items i found in
            (ground arith, ground arith)
      ]

  pub change_line-InBounds :
      (c : Catalog) (item_id : ℕ) (payload : UpdateCartItemRequest) (cart edited : Cart)
      → InBounds settings cart
      → change_line settings c item_id payload cart ≡ ok edited
      → InBounds settings edited
  unfolding change_line get_for_cart
  change_line-InBounds c item_id payload cart edited b e =
      let after : CartItem → Result AppException Cart = λ item.
        chain (change_item settings c payload item)
          (λ new. ok (set_item (is_line settings item_id) new cart)) in
      let (item, e1, e2) = chain-ok (get_for_cart settings cart item_id) after edited e in
      let (new, e3, e4) =
        chain-ok (change_item settings c payload item)
          (λ new. ok (set_item (is_line settings item_id) new cart)) edited e2 in
      let found = get_for_cart-found item_id cart item e1 in
      rw (sym (ok-injective (set_item (is_line settings item_id) new cart) edited e4)) (
        set_item-InBounds settings (is_line settings item_id) item new cart found.0 found.1
          (change_item-IsAllowed c payload item new
            (All-find_first (IsAllowedItem settings) (is_line settings item_id) cart.items item
              b.quantities found.0)
            e3)
          b)

  pub drop_line-InBounds :
      (item_id : ℕ) (cart edited : Cart)
      → InBounds settings cart
      → drop_line settings item_id cart ≡ ok edited
      → InBounds settings edited
  unfolding drop_line get_for_cart
  drop_line-InBounds item_id cart edited b e =
      let gone : CartItem → Cart =
        λ item. set_item (is_line settings item_id) (record item { deleted = true }) cart in
      let (item, e1, e2) =
        chain-ok (get_for_cart settings cart item_id) (λ item. ok (gone item)) edited e in
      let found = get_for_cart-found item_id cart item e1 in
      rw (sym (ok-injective (gone item) edited e2)) (
        set_item-InBounds settings (is_line settings item_id) item (record item { deleted = true })
          cart found.0 found.1 (λ h. ground arith) b)

  deleted-All :
      (items : List CartItem)
      → All (IsAllowedItem settings) (delete_items items) × (live_items (delete_items items) ≡ [])
  deleted-All [] = (tt, refl)
  deleted-All (i ∷ items) = let (a, e) = deleted-All items in ((λ h. ground arith, a), e)

  pub emptied-InBounds : (cart : Cart) → InBounds settings (emptied cart)
  unfolding emptied
  emptied-InBounds cart =
      let (a, e) = deleted-All cart.items in record { quantities = a; few = rw e (omega arith) }
