-- ===== src/Cart/Lines.antt =====
-- Loading and comparing the lines of a cart.
use prime_pizza_backend.Base.{
  ℕ, ◌+◌, Bool, true, false, not, ◌&&◌, ◌||◌, Option, none, some, List, [], ◌∷◌, map, ltb, ◌==◌,
  find_first, keep, is_none, or_else, if◌then◌else◌,
}
use prime_pizza_backend.Base.Exec.{Result, ok, chain, some_or, unless}
use prime_pizza_backend.Errors.{
  AppException, not_found_exception, validation_exception, text, with_number, with_text,
}
use prime_pizza_backend.Enums.{StockStatus, out_of_stock, in_stock, limited}
use prime_pizza_backend.Catalog.{
  Product, ProductVariant, VariantOption, Catalog, alive, get_product, variants_for_product,
  get_option, is_allowed_option,
}
use prime_pizza_backend.Models.{CartItemExtra, CartItem, Cart}

-- The settings of app/config/settings.py that the cart and the checkout read.
pub record Settings : Type 0 where
  pub cart_min_item_quantity : ℕ
  pub cart_max_item_quantity : ℕ
  pub cart_max_items : ℕ
  pub estimated_prep_buffer_minutes : ℕ
  pub estimated_delivery_minutes : ℕ

-- A dictionary from option ids to quantities, in order of insertion.
abbrev pub Quantities : Type 0
Quantities = List (ℕ × ℕ)

-- `quantities.get(option_id)`
abbrev pub get_key : Quantities → ℕ → Option ℕ
get_key [] k = none
get_key ((i, q) ∷ d) k = let rest = get_key d k in if i == k then some q else rest

-- `quantities[option_id] = q`
abbrev pub set_key : ℕ → ℕ → Quantities → Quantities
set_key k q [] = (k, q) ∷ []
set_key k q ((i, r) ∷ d) = let rest = set_key k q d in if i == k then (i, q) ∷ d else (i, r) ∷ rest

abbrev pub keys : Quantities → List ℕ
keys d = map (λ e. e.0) d

-- The loop over `payload.extras`, entries of an option's id and a quantity.
unfoldable pub add_extras : List (ℕ × ℕ) → Quantities → Quantities
add_extras [] d = d
add_extras ((option_id, quantity) ∷ l) d =
    add_extras l (set_key option_id (or_else (get_key d option_id) 0 + quantity) d)

-- The loop over `ids` with `setdefault`.
unfoldable pub add_ids : List ℕ → Quantities → Quantities
add_ids [] d = d
add_ids (option_id ∷ l) d =
    add_ids l (if is_none (get_key d option_id) then set_key option_id 1 d else d)

unfoldable pub normalize_extras : List (ℕ × ℕ) → List ℕ → Quantities
unfolding add_extras add_ids
normalize_extras extras ids = add_ids ids (add_extras extras [])

abbrev pub is_out_of_stock : StockStatus → Bool
is_out_of_stock in_stock = false
is_out_of_stock out_of_stock = true
is_out_of_stock limited = false

-- A line's rows: the product, the variant, and the options with their quantities.
abbrev pub Entities : Type 0
Entities = Product × Option ProductVariant × List (VariantOption × ℕ)

module _ (c : Catalog) (product_id : ℕ) (require_available : Bool) where
  unfoldable pub load_product : Result AppException Product
  load_product =
      chain (some_or (get_product c product_id) (not_found_exception (text "Product not found")))
        (λ product.
          unless (require_available && (not product.is_available || not product.is_visible))
            (validation_exception (text "Product is not available"))
            (unless (require_available && is_out_of_stock product.stock_status)
              (validation_exception (text "Product is out of stock")) (ok product)))

  unfoldable pub load_variant : Option ℕ → Result AppException (Option ProductVariant)
  load_variant none = ok none
  load_variant (some variant_id) =
      chain
        (some_or (find_first (λ v. v.id == variant_id) (variants_for_product c product_id))
          (not_found_exception (text "Variant not found for product")))
        (λ variant.
          unless (require_available && not variant.is_available)
            (validation_exception (text "Variant is not available")) (ok (some variant)))

  unfoldable pub load_option : ℕ → Result AppException VariantOption
  load_option option_id =
      chain (some_or (get_option c option_id) (not_found_exception (text "Extra option not found")))
        (λ option.
          unless (require_available && not (is_allowed_option c product_id option_id))
            (validation_exception (text "Extra is not available for this product"))
            (unless (require_available && not option.is_available)
              (validation_exception (with_text "Extra '" option.name "' is not available"))
              (ok option)))

  unfoldable pub load_options : List ℕ → Quantities → Result AppException (List (VariantOption × ℕ))
  unfolding load_option
  load_options [] quantities = ok []
  load_options (option_id ∷ ids) quantities =
      let rest = load_options ids quantities in
      chain (load_option option_id)
        (λ option. chain rest (λ l. ok ((option, or_else (get_key quantities option_id) 1) ∷ l)))

  unfoldable pub load_priced_entities :
      Option ℕ → List ℕ → Quantities → Result AppException Entities
  unfolding load_product load_variant load_options
  load_priced_entities variant_id option_ids quantities = chain load_product (λ product.
      chain (load_variant variant_id) (λ variant.
        chain (load_options option_ids quantities) (λ extras. ok (product, variant, extras))))

-- `sorted` on pairs of an option's id and a quantity
abbrev pair_before : ℕ × ℕ → ℕ × ℕ → Bool
pair_before (a, p) (b, q) = ltb a b || a == b && ltb p q

abbrev pub insert_pair : ℕ × ℕ → List (ℕ × ℕ) → List (ℕ × ℕ)
insert_pair x [] = x ∷ []
insert_pair x (y ∷ l) =
    let rest = insert_pair x l in if pair_before y x then y ∷ rest else x ∷ y ∷ l

abbrev pub sorted : List (ℕ × ℕ) → List (ℕ × ℕ)
sorted [] = []
sorted (x ∷ l) = insert_pair x (sorted l)

abbrev pub same_pairs : List (ℕ × ℕ) → List (ℕ × ℕ) → Bool
same_pairs [] [] = true
same_pairs [] (_ ∷ _) = false
same_pairs (_ ∷ _) [] = false
same_pairs ((a, p) ∷ l) ((b, q) ∷ r) = a == b && p == q && same_pairs l r

abbrev pub extras_signature : List (VariantOption × ℕ) → List (ℕ × ℕ)
extras_signature extras = sorted (map (λ (option, q). (option.id, q)) extras)

abbrev pub live_extras : CartItem → List CartItemExtra
live_extras item = keep (λ e. alive e.deleted) item.extras

abbrev pub item_signature : CartItem → List (ℕ × ℕ)
item_signature item = sorted (map (λ e. (e.option_id, e.quantity)) (live_extras item))

abbrev pub same_variant : Option ℕ → Option ℕ → Bool
same_variant none none = true
same_variant none (some _) = false
same_variant (some _) none = false
same_variant (some a) (some b) = a == b

-- The tests of the loop of `_find_matching_item`.
unfoldable pub is_match : ℕ → Option ℕ → List (ℕ × ℕ) → CartItem → Bool
is_match product_id variant_id signature item =
    alive item.deleted
    && item.product_id == product_id
    && same_variant item.variant_id variant_id
    && same_pairs (item_signature item) signature

unfoldable pub find_matching_item : Cart → ℕ → Option ℕ → List (ℕ × ℕ) → Option CartItem
unfolding is_match
find_matching_item cart product_id variant_id signature =
    find_first (is_match product_id variant_id signature) cart.items

unfoldable pub validate_quantity : Settings → ℕ → Result AppException (Unit {0})
validate_quantity settings quantity =
    unless (ltb quantity settings.cart_min_item_quantity)
      (validation_exception (with_number "Minimum quantity is " settings.cart_min_item_quantity ""))
      (unless (ltb settings.cart_max_item_quantity quantity)
        (validation_exception
          (with_number "Maximum quantity is " settings.cart_max_item_quantity ""))
        (ok tt))
