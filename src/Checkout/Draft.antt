-- ===== src/Checkout/Draft.antt =====
-- The rows of a new order: the helpers of `OrderService.place_order`, its loop over the cart's items
-- and its use of the coupon. Coordinates are kept as they print.
use prime_pizza_backend.Base.{
  str_eq, String, ℕ, ◌+◌, ◌*◌, Bool, false, Option, none, some, List, [], ◌∷◌, ◌++◌, map, ◌==◌,
  find_first, set_first, any, if◌then◌else◌,
}
use prime_pizza_backend.Base.Exec.{pure, gets, or_raise, modify, ◌>>=◌, ◌>>◌}
use prime_pizza_backend.Text.{Text, codes}
use prime_pizza_backend.Errors.{validation_exception, not_found_exception, text}
use prime_pizza_backend.Enums.{pending, PaymentMethod, payment_pending}
use prime_pizza_backend.Catalog.{Catalog}
use prime_pizza_backend.Coupon.{is_coupon, Coupon, CouponTables, validate_for_user}
use prime_pizza_backend.Models.{
  User, Address, Cart, CartItem, CartItemExtra, Order, OrderItem, OrderItemExtra, Snapshot,
}
use prime_pizza_backend.Store.{World, Service}
use prime_pizza_backend.Orders.Manage.{text_or, add_timeline}
use prime_pizza_backend.Addresses.{get_for_user as get_address}
use prime_pizza_backend.Cart.Lines.{Settings, live_extras}
use prime_pizza_backend.Cart.Recalculate.{live_items}
use prime_pizza_backend.Cart.Summary.{
  product_of, variant_of, product_name, variant_name, preparation_minutes, coupon_code, build,
}

pub record PlaceOrderRequest : Type 0 where
  pub address_id : Option ℕ
  pub payment_method : PaymentMethod
  pub notes : Option Text
  pub idempotency_key : Option Text
  pub latitude : Option Text
  pub longitude : Option Text
  pub gps_accuracy : Option Text

-- `_address_snapshot`, less the key `id`
unfoldable pub address_snapshot : Address → Snapshot
address_snapshot a =
    let d = a.details in
    ("title", some d.title)
    ∷ ("recipient_name", some d.recipient_name)
    ∷ ("phone_number", some d.phone_number)
    ∷ ("street", some d.street)
    ∷ ("area", d.area)
    ∷ ("city", some d.city)
    ∷ ("province", some d.province)
    ∷ ("postal_code", some d.postal_code)
    ∷ ("country", some d.country)
    ∷ ("latitude", d.latitude)
    ∷ ("longitude", d.longitude)
    ∷ ("delivery_notes", d.delivery_notes)
    ∷ ("delivery_type", some (codes "delivery"))
    ∷ ("fulfillment_type", some (codes "delivery"))
    ∷ []

-- `_pickup_snapshot`
unfoldable pub pickup_snapshot : User → Snapshot
pickup_snapshot user =
    ("delivery_type", some (codes "pickup"))
    ∷ ("fulfillment_type", some (codes "pickup"))
    ∷ ("recipient_name", some (text_or (some user.full_name) (codes "Customer")))
    ∷ ("phone_number", user.phone_number)
    ∷ ("pickup_location", some (codes "Prime Pizza — Tarlai Kalan, Islamabad"))
    ∷ ("street", some (codes "Shop 12, Tarlai Kalan Main Road"))
    ∷ ("city", some (codes "Islamabad"))
    ∷ ("province", some (codes "Islamabad Capital Territory"))
    ∷ ("country", some (codes "Pakistan"))
    ∷ []

-- `snapshot[key] = value`
unfoldable pub set_entry : String → Option Text → Snapshot → Snapshot
set_entry key value [] = (key, value) ∷ []
set_entry key value ((k, v) ∷ snapshot) =
    let rest = set_entry key value snapshot in
    if str_eq k key then (k, value) ∷ snapshot else (k, v) ∷ rest

abbrev set_if : String → Option Text → Snapshot → Snapshot
set_if key none snapshot = snapshot
set_if key (some value) snapshot = set_entry key (some value) snapshot

unfoldable pub with_coordinates : PlaceOrderRequest → Snapshot → Snapshot
unfolding set_entry
with_coordinates payload snapshot =
    set_if "gps_accuracy" payload.gps_accuracy
      (set_if "longitude" payload.longitude (set_if "latitude" payload.latitude snapshot))

-- The address of the order, if it is not a pickup, and the snapshot that the order keeps.
unfoldable pub destination : User → PlaceOrderRequest → Option ℕ → Service (Option ℕ × Snapshot)
unfolding address_snapshot pickup_snapshot with_coordinates
destination user payload none = pure (none, with_coordinates payload (pickup_snapshot user))
destination user payload (some address_id) = do
  a ← (λ w.
      or_raise (get_address w.db.addresses address_id user.id)
        (not_found_exception (text "Address not found")) w)
  pure (some a.id, with_coordinates payload (address_snapshot a))

-- `OrderNumberSequenceRepository.next_value`. Rows of other transactions wait for the lock, so that
-- the retry after an `IntegrityError` reads the row of the transaction that was first.
abbrev pub last_value : Option (ℕ × ℕ) → ℕ
last_value none = 0
last_value (some (_, n)) = n

abbrev pub is_year : ℕ → ℕ × ℕ → Bool
is_year year (y, _) = y == year

-- The query leaves out rows that are deleted; the program deletes none.
unfoldable pub bump : ℕ → List (ℕ × ℕ) → ℕ × List (ℕ × ℕ)
bump year rows =
    let n = last_value (find_first (is_year year) rows) + 1 in
    (
      n,
      if any (is_year year) rows
          then set_first (is_year year) (year, n) rows
          else rows ++ (year, n) ∷ [],
    )

-- `_next_order_number`: the text `PP-<year>-<n>`, n with six digits or more, is kept as its two
-- numbers.
unfoldable pub next_order_number : Service (ℕ × ℕ)
unfolding bump
next_order_number = do
  (n, rows) ← gets (λ w. bump w.year w.db.sequences)
  modify (λ w. record w { db = record w.db { sequences = rows } })
  gets (λ w. (w.year, n))

abbrev option_name : Option Text → Text
option_name none = codes "Extra"
option_name (some name) = name

-- `OrderItemExtra(…)` for each extra that is not deleted; the relationship `extra.option` is by id.
abbrev extra_name : Catalog → ℕ → Option Text
extra_name c option_id = elim (find_first (λ o. o.id == option_id) c.options) [
  | none ↦ none
  | some o ↦ some o.name
]

abbrev pub order_extra : Catalog → CartItemExtra → OrderItemExtra
order_extra c e = record {
  option_id = e.option_id;
  option_name = option_name (extra_name c e.option_id);
  quantity = e.quantity;
  unit_price = e.unit_price;
  deleted = false;
}

-- One pass of the loop over the cart's items.
unfoldable pub order_item : Catalog → CartItem → OrderItem
unfolding preparation_minutes product_of variant_of
order_item c item = record {
  product_id = item.product_id;
  product_name = product_name (product_of c item);
  variant_id = item.variant_id;
  variant_name = variant_name (variant_of c item);
  quantity = item.quantity;
  unit_price = item.unit_price;
  discount_price = item.discount_price;
  subtotal = item.subtotal;
  preparation_time_minutes = preparation_minutes c item;
  extras_snapshot = item.extras_snapshot;
  notes = item.special_instructions;
  extras = map (order_extra c) (live_extras item);
  deleted = false;
}

abbrev notes_or : Option Text → Option Text → Option Text
notes_or none other = other
notes_or (some []) other = other
notes_or (some (c ∷ s)) other = some (c ∷ s)

-- `Order(…)` with its items and the event of `_add_timeline`
unfoldable pub new_order :
    Settings
    → World
    → User
    → PlaceOrderRequest
    → Cart
    → Option Coupon
    → Option ℕ × Snapshot
    → ℕ × ℕ
    → ℕ
    → Order
unfolding order_item build add_timeline
new_order settings w user payload cart coupon (address_id, snapshot) order_number order_id =
    add_timeline pending user.id (some (codes "Order placed successfully")) (record {
      id = order_id;
      order_number = order_number;
      user_id = user.id;
      address_id = address_id;
      delivery_address_snapshot = some snapshot;
      status = pending;
      payment_status = payment_pending;
      payment_method = payload.payment_method;
      subtotal = cart.subtotal;
      discount = cart.discount;
      tax = cart.tax;
      delivery_fee = cart.delivery_fee;
      grand_total = cart.grand_total;
      coupon_id = cart.coupon_id;
      coupon_code = coupon_code coupon;
      notes = notes_or payload.notes cart.notes;
      kitchen_notes = none;
      internal_notes = none;
      estimated_preparation_minutes =
          some (build settings w.db.catalog coupon cart).estimated_preparation_time_minutes;
      estimated_delivery_time = some (w.now + settings.estimated_delivery_minutes * 60);
      created_at = w.now;
      items = map (order_item w.db.catalog) (live_items cart.items);
      timeline = [];
      deleted = false;
    })

abbrev pub used_once_more : Coupon → Coupon
used_once_more c = record c { used_count = c.used_count + 1 }

-- The coupon's row with one use more, and the row of the use.
unfoldable pub with_usage : Coupon → ℕ → Cart → ℕ → CouponTables → CouponTables
with_usage coupon user_id cart order_id db = record {
  coupons = set_first (is_coupon coupon.id) (used_once_more coupon) db.coupons;
  usages =
      db.usages
      ++ (record {
        user_id = user_id;
        coupon_id = coupon.id;
        order_id = order_id;
        discount_applied = cart.discount;
        deleted = false;
      })
        ∷ [];
}

-- `if cart.coupon_id is not None: …`
unfoldable pub redeem : User → Cart → ℕ → Option ℕ → Service (Unit {0})
unfolding with_usage
redeem user cart order_id none = pure tt
redeem user cart order_id (some coupon_id) = do
  coupon ← (λ w.
      or_raise (find_first (is_coupon coupon_id) w.db.coupon_tables.coupons)
        (validation_exception (text "Coupon is no longer available")) w)
  _ ← (λ w. (validate_for_user w.db.coupon_tables w.now coupon.code user.id cart.subtotal, w))
  modify (λ w. record w {
    db = record w.db { coupon_tables = with_usage coupon user.id cart order_id w.db.coupon_tables };
  })
