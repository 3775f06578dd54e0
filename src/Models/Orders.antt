-- ===== src/Models/Orders.antt =====
-- app/models/order.py. Items and the timeline are lists inside the row, in order of insertion.
use prime_pizza_backend.Base.{ℕ, Bool, Option, List, String}
use prime_pizza_backend.Text.{Text}
use prime_pizza_backend.Enums.{OrderStatus, PaymentMethod, PaymentStatus}
use prime_pizza_backend.Money.{Cents}
use prime_pizza_backend.Models.Carts.{ExtraSnapshot}

pub record OrderItemExtra : Type 0 where
  pub option_id : ℕ
  pub option_name : Text
  pub quantity : ℕ
  pub unit_price : Cents
  pub deleted : Bool

pub record OrderItem : Type 0 where
  pub product_id : ℕ
  pub product_name : Text
  pub variant_id : Option ℕ
  pub variant_name : Option Text
  pub quantity : ℕ
  pub unit_price : Cents
  pub discount_price : Option Cents
  pub subtotal : Cents
  pub preparation_time_minutes : Option ℕ
  pub extras_snapshot : List ExtraSnapshot
  pub notes : Option Text
  pub extras : List OrderItemExtra
  pub deleted : Bool

pub record OrderTimelineEvent : Type 0 where
  pub status : OrderStatus
  pub title : String
  pub notes : Option Text
  pub performed_by : Option ℕ
  pub deleted : Bool

-- The JSON column `delivery_address_snapshot`: keys, and values that are texts or null.
abbrev pub Snapshot : Type 0
Snapshot = List (String × Option Text)

pub record Order : Type 0 where
  pub id : ℕ
  pub order_number : ℕ × ℕ
  pub user_id : ℕ
  pub address_id : Option ℕ
  pub delivery_address_snapshot : Option Snapshot
  pub status : OrderStatus
  pub payment_status : PaymentStatus
  pub payment_method : PaymentMethod
  pub subtotal : Cents
  pub discount : Cents
  pub tax : Cents
  pub delivery_fee : Cents
  pub grand_total : Cents
  pub coupon_id : Option ℕ
  pub coupon_code : Option Text
  pub notes : Option Text
  pub kitchen_notes : Option Text
  pub internal_notes : Option Text
  pub estimated_preparation_minutes : Option ℕ
  pub estimated_delivery_time : Option ℕ
  pub created_at : ℕ
  pub items : List OrderItem
  pub timeline : List OrderTimelineEvent
  pub deleted : Bool
