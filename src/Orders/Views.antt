-- ===== src/Orders/Views.antt =====
-- The answers of `OrderService`: what a caller sees of an order.
use prime_pizza_backend.Base.{ℕ, Bool, Option, none, List, map, keep, total, if◌then◌else◌}
use prime_pizza_backend.Text.{Text}
use prime_pizza_backend.Enums.{OrderStatus, PaymentStatus, PaymentMethod}
use prime_pizza_backend.Money.{Cents}
use prime_pizza_backend.Catalog.{alive}
use prime_pizza_backend.Models.{Order, OrderItem, OrderTimelineEvent, Snapshot}

-- `OrderDetailResponse`. Items and events are the rows that are not deleted.
pub record OrderDetailResponse : Type 0 where
  pub id : ℕ
  pub order_number : ℕ × ℕ
  pub user_id : ℕ
  pub status : OrderStatus
  pub payment_status : PaymentStatus
  pub payment_method : PaymentMethod
  pub subtotal : Cents
  pub discount : Cents
  pub tax : Cents
  pub delivery_fee : Cents
  pub grand_total : Cents
  pub coupon_code : Option Text
  pub notes : Option Text
  pub kitchen_notes : Option Text
  pub internal_notes : Option Text
  pub delivery_address_snapshot : Option Snapshot
  pub estimated_preparation_minutes : Option ℕ
  pub estimated_delivery_time : Option ℕ
  pub items : List OrderItem
  pub timeline : List OrderTimelineEvent
  pub created_at : ℕ

-- `_to_item_response`
unfoldable pub to_item_response : OrderItem → OrderItem
to_item_response item = record item { extras = keep (λ e. alive e.deleted) item.extras }

-- `_to_detail`
unfoldable pub to_detail : Order → Bool → OrderDetailResponse
to_detail order include_internal = record {
  id = order.id;
  order_number = order.order_number;
  user_id = order.user_id;
  status = order.status;
  payment_status = order.payment_status;
  payment_method = order.payment_method;
  subtotal = order.subtotal;
  discount = order.discount;
  tax = order.tax;
  delivery_fee = order.delivery_fee;
  grand_total = order.grand_total;
  coupon_code = order.coupon_code;
  notes = order.notes;
  kitchen_notes = if include_internal then order.kitchen_notes else none;
  internal_notes = if include_internal then order.internal_notes else none;
  delivery_address_snapshot = order.delivery_address_snapshot;
  estimated_preparation_minutes = order.estimated_preparation_minutes;
  estimated_delivery_time = order.estimated_delivery_time;
  items = map to_item_response (keep (λ i. alive i.deleted) order.items);
  timeline = keep (λ e. alive e.deleted) order.timeline;
  created_at = order.created_at;
}

-- `OrderListItemResponse` and `_to_list_item`
pub record OrderListItemResponse : Type 0 where
  pub id : ℕ
  pub order_number : ℕ × ℕ
  pub status : OrderStatus
  pub payment_status : PaymentStatus
  pub payment_method : PaymentMethod
  pub grand_total : Cents
  pub item_count : ℕ
  pub created_at : ℕ

unfoldable pub to_list_item : Order → OrderListItemResponse
to_list_item order = record {
  id = order.id;
  order_number = order.order_number;
  status = order.status;
  payment_status = order.payment_status;
  payment_method = order.payment_method;
  grand_total = order.grand_total;
  item_count = total (λ i. i.quantity) (keep (λ i. alive i.deleted) order.items);
  created_at = order.created_at;
}
