-- ===== src/Tests/Fixtures.antt =====
-- A small shop: two users, a pizza with a size and a topping, a coupon, an address and a cart.
use prime_pizza_backend.Base.{true, false, none, some, [], ◌∷◌}
use prime_pizza_backend.Text.{codes}
use prime_pizza_backend.Enums.{
  customer, chef, pending, delivered, cash_on_delivery, payment_pending, percentage, in_stock,
}
use prime_pizza_backend.Catalog.{Product, ProductVariant, VariantOption, Catalog}
use prime_pizza_backend.Coupon.{Coupon, CouponTables}
use prime_pizza_backend.Commerce.{CommerceConfig}
use prime_pizza_backend.Models.{User, AddressDetails, Address, Order}
use prime_pizza_backend.Store.{Database, World}
use prime_pizza_backend.Cart.Lines.{Settings}
use prime_pizza_backend.Cart.Edit.{AddCartItemRequest}
use prime_pizza_backend.Cart.Service.{empty_cart}
use prime_pizza_backend.Checkout.Draft.{PlaceOrderRequest}

abbrev pub ana : User
ana = record {
  id = 1;
  email = codes "ana@pizza.pk";
  full_name = codes "Ana";
  phone_number = some (codes "+923001234567");
  role = customer;
  is_active = true;
  is_verified = true;
}

abbrev pub cook : User
cook = record ana { id = 2; email = codes "cook@pizza.pk"; role = chef }

abbrev pub margherita : Product
margherita = record {
  id = 10;
  name = codes "Margherita";
  base_price = 120000;
  discount_price = some 99950;
  is_available = true;
  is_visible = true;
  stock_status = in_stock;
  preparation_time_minutes = some 15;
  deleted = false;
}

abbrev pub large : ProductVariant
large = record {
  id = 11;
  product_id = 10;
  name = codes "Large";
  price = 150000;
  discount_price = none;
  is_available = true;
  preparation_time_minutes = none;
  deleted = false;
}

abbrev pub olives : VariantOption
olives = record {
  id = 12;
  name = codes "Olives";
  price = 5025;
  is_available = true;
  deleted = false;
}

abbrev pub shop : Catalog
shop = record {
  products = margherita ∷ [];
  variants = large ∷ [];
  options = olives ∷ [];
  product_options = record { product_id = 10; option_id = 12; deleted = false } ∷ [];
}

abbrev pub tenth : Coupon
tenth = record {
  id = 20;
  code = codes "TENTH";
  coupon_type = percentage;
  value = 1000;
  minimum_order_amount = some 50000;
  maximum_discount = none;
  usage_limit = some 100;
  per_user_limit = some 1;
  used_count = 3;
  is_active = true;
  starts_at = none;
  expires_at = some 9000;
  deleted = false;
}

abbrev pub tables : CouponTables
tables = record { coupons = tenth ∷ []; usages = [] }

abbrev pub home_details : AddressDetails
home_details = record {
  title = codes "Home";
  recipient_name = codes "Ana";
  phone_number = codes "+923001234567";
  street = codes "Street 4";
  area = none;
  city = codes "Islamabad";
  province = codes "ICT";
  postal_code = codes "44000";
  country = codes "Pakistan";
  latitude = none;
  longitude = none;
  delivery_notes = none;
}

abbrev pub home : Address
home = record {
  id = 30;
  user_id = 1;
  details = home_details;
  is_default = true;
  created_at = 100;
  deleted = false;
}

abbrev pub settings : Settings
settings = record {
  cart_min_item_quantity = 1;
  cart_max_item_quantity = 20;
  cart_max_items = 50;
  estimated_prep_buffer_minutes = 5;
  estimated_delivery_minutes = 45;
}

-- A flat fee of 150.00, free from 5000.00, and a tax of 5 percent.
abbrev pub commerce : CommerceConfig
commerce = record {
  delivery_fee = 15000;
  free_delivery_threshold = 500000;
  tax_percent = record { mantissa = 50; places = 1 };
  maintenance_mode = false;
}

abbrev pub old_order : Order
old_order = record {
  id = 40;
  order_number = (2026, 7);
  user_id = 1;
  address_id = some 30;
  delivery_address_snapshot = none;
  status = pending;
  payment_status = payment_pending;
  payment_method = cash_on_delivery;
  subtotal = 99950;
  discount = 0;
  tax = 4998;
  delivery_fee = 15000;
  grand_total = 119948;
  coupon_id = none;
  coupon_code = none;
  notes = none;
  kitchen_notes = none;
  internal_notes = none;
  estimated_preparation_minutes = some 20;
  estimated_delivery_time = none;
  created_at = 990;
  items = [];
  timeline = [];
  deleted = false;
}

abbrev pub done_order : Order
done_order = record old_order { id = 41; user_id = 3; status = delivered; created_at = 500 }

abbrev pub database : Database
database = record {
  catalog = shop;
  addresses = home ∷ [];
  carts = empty_cart 50 1 900 ∷ [];
  orders = old_order ∷ done_order ∷ [];
  coupon_tables = tables;
  sequences = (2026, 7) ∷ [];
  wishlists = [];
  system_settings = [];
  audit_logs = [];
  next_id = 100;
}

abbrev pub world : World
world = record {
  db = database;
  committed = database;
  redis = record {
    is_up = true;
    tracking = [];
    locks = [];
    idempotency = [];
    summaries = [];
    commerce = none;
    maintenance = none;
  };
  now = 1000;
  year = 2026;
}

-- Two large pizzas with double olives.
abbrev pub two_large : AddCartItemRequest
two_large = record {
  product_id = 10;
  variant_id = some 11;
  quantity = 2;
  extra_option_ids = [];
  extras = (12, 2) ∷ [];
  special_instructions = none;
}

abbrev pub delivery : PlaceOrderRequest
delivery = record {
  address_id = some 30;
  payment_method = cash_on_delivery;
  notes = none;
  idempotency_key = some (codes "key-0001");
  latitude = none;
  longitude = none;
  gps_accuracy = none;
}
