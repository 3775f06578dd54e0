-- ===== src/Models/Carts.antt =====
-- app/models/cart.py. The ORM's `items` and `extras` collections are lists inside the row.
use prime_pizza_backend.Base.{ℕ, Bool, Option, List}
use prime_pizza_backend.Text.{Text}
use prime_pizza_backend.Enums.{CartStatus}
use prime_pizza_backend.Money.{Cents}

pub record CartItemExtra : Type 0 where
  pub option_id : ℕ
  pub quantity : ℕ
  pub unit_price : Cents
  pub deleted : Bool

-- One entry of the JSON column `extras_snapshot`.
pub record ExtraSnapshot : Type 0 where
  pub option_id : ℕ
  pub name : Text
  pub quantity : ℕ
  pub unit_price : Cents

pub record CartItem : Type 0 where
  pub id : ℕ
  pub product_id : ℕ
  pub variant_id : Option ℕ
  pub quantity : ℕ
  pub unit_price : Cents
  pub discount_price : Option Cents
  pub subtotal : Cents
  pub special_instructions : Option Text
  pub extras_snapshot : List ExtraSnapshot
  pub extras : List CartItemExtra
  pub deleted : Bool

pub record Cart : Type 0 where
  pub id : ℕ
  pub user_id : ℕ
  pub is_active : Bool
  pub status : CartStatus
  pub notes : Option Text
  pub last_activity : ℕ
  pub coupon_id : Option ℕ
  pub subtotal : Cents
  pub discount : Cents
  pub delivery_fee : Cents
  pub tax : Cents
  pub grand_total : Cents
  pub items : List CartItem
  pub deleted : Bool

-- `OrderSummaryLineResponse` and `OrderSummaryResponse` of app/schemas/cart.py.
pub record OrderSummaryLine : Type 0 where
  pub product_id : ℕ
  pub product_name : Text
  pub variant_name : Option Text
  pub quantity : ℕ
  pub unit_price : Cents
  pub discount_price : Option Cents
  pub extras : List CartItemExtra
  pub line_total : Cents
  pub preparation_time_minutes : Option ℕ

pub record OrderSummaryResponse : Type 0 where
  pub products : List OrderSummaryLine
  pub subtotal : Cents
  pub discount : Cents
  pub tax : Cents
  pub delivery_fee : Cents
  pub grand_total : Cents
  pub coupon_code : Option Text
  pub estimated_preparation_time_minutes : ℕ
  pub estimated_delivery_time_minutes : ℕ
  pub item_count : ℕ
