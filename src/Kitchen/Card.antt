-- ===== src/Kitchen/Card.antt =====
-- The card of an order on the kitchen board.
use prime_pizza_backend.Base.{
  ℕ, Bool, true, false, ◌&&◌, Option, none, some, List, [], ◌∷◌, ◌++◌, map, String, str_eq, keep,
  any, if◌then◌else◌,
}
use prime_pizza_backend.Text.{Text, codes, text_eq, strip, lower}
use prime_pizza_backend.Enums.{OrderStatus, PaymentStatus}
use prime_pizza_backend.Money.{Cents}
use prime_pizza_backend.Catalog.{alive}
use prime_pizza_backend.Models.{User, Order, OrderItem, Snapshot}
use prime_pizza_backend.Orders.Manage.{text_or}

-- `snapshot.get(key)`: a missing key and a null are both `None`.
unfoldable pub get : Snapshot → String → Option Text
get [] key = none
get ((k, v) ∷ snapshot) key = let rest = get snapshot key in if str_eq k key then v else rest

abbrev pub snapshot_of : Order → Snapshot
snapshot_of order = elim order.delivery_address_snapshot [ none ↦ [] | some s ↦ s ]

-- `str(snapshot.get(key) or "").strip()`
unfoldable pub field : Snapshot → String → Text
unfolding get strip
field snapshot key = strip (text_or (get snapshot key) [])

-- `bool(snapshot.get(key))`
abbrev pub is_filled : Snapshot → String → Bool
is_filled snapshot key = elim (get snapshot key) [ some (c ∷ s) ↦ true | _ ↦ false ]

abbrev pub one_of : Text → List Text → Bool
one_of t l = any (text_eq t) l

unfoldable pub delivery_type : Order → Text
unfolding get text_eq strip lower
delivery_type order =
    let snapshot = snapshot_of order in
    let raw = lower (
      strip
        (text_or (get snapshot "delivery_type") (text_or (get snapshot "fulfillment_type") []))) in
    let has_address =
      any (is_filled snapshot)
        ("street" ∷ "area" ∷ "city" ∷ "address_line1" ∷ "recipient_name" ∷ []) in
    if one_of raw (codes "pickup" ∷ codes "takeaway" ∷ codes "collection" ∷ [])
    then codes "pickup"
    else if one_of raw (codes "delivery" ∷ codes "deliver" ∷ [])
    then codes "delivery"
    else if has_address
    then codes "delivery"
    else codes "pickup"

abbrev pub is_nonempty : Text → Bool
is_nonempty [] = false
is_nonempty (_ ∷ _) = true

-- `", ".join(parts)`
unfoldable pub join_parts : List Text → Text
join_parts [] = []
join_parts (t ∷ []) = t
join_parts (t ∷ u ∷ ts) = t ++ codes ", " ++ join_parts (u ∷ ts)

abbrev pub joined : List Text → Option Text
joined [] = none
joined (t ∷ ts) = some (join_parts (t ∷ ts))

unfoldable pub address_summary : Order → Option Text
unfolding field delivery_type join_parts
address_summary order =
    let snapshot = snapshot_of order in
    let store = field snapshot "pickup_location" in
    let parts = field snapshot "street" ∷ field snapshot "area" ∷ field snapshot "city" ∷ [] in
    if text_eq (delivery_type order) (codes "pickup") && is_nonempty store
    then some store
    else joined (keep is_nonempty parts)

pub record KitchenOrderItemResponse : Type 0 where
  pub product_name : Text
  pub variant_name : Option Text
  pub quantity : ℕ
  pub special_instructions : Option Text

pub record KitchenOrderCardResponse : Type 0 where
  pub id : ℕ
  pub order_number : ℕ × ℕ
  pub customer_name : Text
  pub customer_email : Option Text
  pub items : List KitchenOrderItemResponse
  pub special_instructions : Option Text
  pub payment_status : PaymentStatus
  pub delivery_type : Text
  pub order_time : ℕ
  pub status : OrderStatus
  pub estimated_time : Option ℕ
  pub estimated_preparation_minutes : Option ℕ
  pub grand_total : Cents
  pub address_summary : Option Text

abbrev pub to_card_item : OrderItem → KitchenOrderItemResponse
to_card_item item = record {
  product_name = item.product_name;
  variant_name = item.variant_name;
  quantity = item.quantity;
  special_instructions = item.notes;
}

-- `a or b` at optional texts
abbrev pub first_filled : Option Text → Option Text → Option Text
first_filled (some (c ∷ s)) _ = some (c ∷ s)
first_filled _ b = b

abbrev pub name_of : Option User → Option Text
name_of none = none
name_of (some u) = some u.full_name

abbrev pub email_of : Option User → Option Text
email_of none = none
email_of (some u) = some u.email

-- `customer` is the relationship `order.user`.
unfoldable pub to_card : Option User → Order → KitchenOrderCardResponse
unfolding delivery_type address_summary field
to_card customer order = record {
  id = order.id;
  order_number = order.order_number;
  customer_name =
      text_or (first_filled (some (field (snapshot_of order) "recipient_name")) (name_of customer))
        (codes "Customer");
  customer_email = email_of customer;
  items = map to_card_item (keep (λ i. alive i.deleted) order.items);
  special_instructions = first_filled order.notes order.kitchen_notes;
  payment_status = order.payment_status;
  delivery_type = delivery_type order;
  order_time = order.created_at;
  status = order.status;
  estimated_time = order.estimated_delivery_time;
  estimated_preparation_minutes = order.estimated_preparation_minutes;
  grand_total = order.grand_total;
  address_summary = address_summary order;
}
