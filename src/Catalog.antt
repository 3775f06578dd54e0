-- ===== src/Catalog.antt =====
-- The columns of products, variants and options (app/models/catalog.py) that pricing and the cart
-- read, and the catalog queries of the repositories.
use prime_pizza_backend.Base.{ℕ, Bool, true, false, ◌&&◌, Option, List, ◌==◌, keep, find_first, any}
use prime_pizza_backend.Text.{Text}
use prime_pizza_backend.Enums.{StockStatus}
use prime_pizza_backend.Money.{Cents}

pub record Product : Type 0 where
  pub id : ℕ
  pub name : Text
  pub base_price : Cents
  pub discount_price : Option Cents
  pub is_available : Bool
  pub is_visible : Bool
  pub stock_status : StockStatus
  pub preparation_time_minutes : Option ℕ
  pub deleted : Bool

pub record ProductVariant : Type 0 where
  pub id : ℕ
  pub product_id : ℕ
  pub name : Text
  pub price : Cents
  pub discount_price : Option Cents
  pub is_available : Bool
  pub preparation_time_minutes : Option ℕ
  pub deleted : Bool

pub record VariantOption : Type 0 where
  pub id : ℕ
  pub name : Text
  pub price : Cents
  pub is_available : Bool
  pub deleted : Bool

pub record ProductOption : Type 0 where
  pub product_id : ℕ
  pub option_id : ℕ
  pub deleted : Bool

pub record Catalog : Type 0 where
  pub products : List Product
  pub variants : List ProductVariant
  pub options : List VariantOption
  pub product_options : List ProductOption

abbrev pub alive : Bool → Bool
alive true = false
alive false = true

-- `ProductRepository.get_detail(…, public_only=False)`
unfoldable pub get_product : Catalog → ℕ → Option Product
get_product c product_id = find_first (λ p. p.id == product_id && alive p.deleted) c.products

-- `VariantRepository.list_for_product`, rows in display order
unfoldable pub variants_for_product : Catalog → ℕ → List ProductVariant
variants_for_product c product_id =
    keep (λ v. v.product_id == product_id && alive v.deleted) c.variants

-- `ExtraOptionRepository.get_by_ids`, read through the dictionary `by_id`
unfoldable pub get_option : Catalog → ℕ → Option VariantOption
get_option c option_id = find_first (λ o. o.id == option_id && alive o.deleted) c.options

-- `option_id in allowed_ids`, from `ProductOptionRepository.list_for_product`
unfoldable pub is_allowed_option : Catalog → ℕ → ℕ → Bool
is_allowed_option c product_id option_id =
    any (λ l. l.option_id == option_id)
      (keep (λ l. l.product_id == product_id && alive l.deleted) c.product_options)
