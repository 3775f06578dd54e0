-- ===== src/Cart/Summary.antt =====
-- `OrderSummaryService.build` of app/services/order_summary.py, and `CartService.get_summary`.
use prime_pizza_backend.Base.{
  ℕ, ◌+◌, ◌*◌, max, Option, none, some, List, [], ◌∷◌, map, ◌==◌, find_first, keep, total,
  if◌then◌else◌, not,
}
use prime_pizza_backend.Base.Exec.{pure, gets, modify, ◌>>=◌, ◌>>◌}
use prime_pizza_backend.Text.{Text, codes}
use prime_pizza_backend.Coupon.{Coupon}
use prime_pizza_backend.Catalog.{Product, ProductVariant, Catalog}
use prime_pizza_backend.Models.{CartItem, Cart, OrderSummaryLine, OrderSummaryResponse}
use prime_pizza_backend.Store.{World, Service}
use prime_pizza_backend.Cart.Lines.{Settings, live_extras}
use prime_pizza_backend.Cart.Recalculate.{live_items, coupon_of}
use prime_pizza_backend.Cart.Service.{get_or_create_cart}

-- The relationships `item.product` and `item.variant`.
unfoldable pub product_of : Catalog → CartItem → Option Product
product_of c item = find_first (λ p. p.id == item.product_id) c.products

abbrev find_variant : Catalog → Option ℕ → Option ProductVariant
find_variant c none = none
find_variant c (some variant_id) = find_first (λ v. v.id == variant_id) c.variants

unfoldable pub variant_of : Catalog → CartItem → Option ProductVariant
variant_of c item = find_variant c item.variant_id

abbrev pub product_name : Option Product → Text
product_name none = codes "Product"
product_name (some p) = p.name

abbrev pub variant_name : Option ProductVariant → Option Text
variant_name none = none
variant_name (some v) = some v.name

abbrev pub product_minutes : Option Product → Option ℕ
product_minutes none = none
product_minutes (some p) = p.preparation_time_minutes

abbrev first_some : Option ℕ → Option ℕ → Option ℕ
first_some none b = b
first_some (some a) _ = some a

abbrev variant_minutes : Option ProductVariant → Option ℕ
variant_minutes none = none
variant_minutes (some v) = v.preparation_time_minutes

-- `prep`, here and in `place_order`
unfoldable pub preparation_minutes : Catalog → CartItem → Option ℕ
unfolding product_of variant_of
preparation_minutes c item =
    first_some (variant_minutes (variant_of c item)) (product_minutes (product_of c item))

abbrev pub coupon_code : Option Coupon → Option Text
coupon_code none = none
coupon_code (some coupon) = some coupon.code

abbrev line_of : Catalog → CartItem → OrderSummaryLine
line_of c item = record {
  product_id = item.product_id;
  product_name = product_name (product_of c item);
  variant_name = variant_name (variant_of c item);
  quantity = item.quantity;
  unit_price = item.unit_price;
  discount_price = item.discount_price;
  extras = live_extras item;
  line_total = item.subtotal;
  preparation_time_minutes = preparation_minutes c item;
}

-- `max(prep_times)`; 0 where no line has a time
abbrev times_quantity : Option ℕ → ℕ → ℕ
times_quantity none quantity = 0
times_quantity (some minutes) quantity = minutes * quantity

unfoldable pub longest_preparation : Catalog → List CartItem → ℕ
unfolding preparation_minutes
longest_preparation c [] = 0
longest_preparation c (item ∷ items) =
    max (times_quantity (preparation_minutes c item) item.quantity) (longest_preparation c items)

unfoldable pub build : Settings → Catalog → Option Coupon → Cart → OrderSummaryResponse
unfolding longest_preparation
build settings c coupon cart =
    let items = live_items cart.items in
    record {
      products = map (line_of c) items;
      subtotal = cart.subtotal;
      discount = cart.discount;
      tax = cart.tax;
      delivery_fee = cart.delivery_fee;
      grand_total = cart.grand_total;
      coupon_code = coupon_code coupon;
      estimated_preparation_time_minutes =
          longest_preparation c items + settings.estimated_prep_buffer_minutes;
      estimated_delivery_time_minutes = settings.estimated_delivery_minutes;
      item_count = total (λ i. i.quantity) items;
    }

abbrev second : {A B : Type 0} → Option (A × B) → Option B
second none = none
second (some (_, b)) = some b

abbrev pub cached_summary : ℕ → World → Option OrderSummaryResponse
cached_summary user_id w =
    if w.redis.is_up then second (find_first (λ (u, _). u == user_id) w.redis.summaries) else none

abbrev cache_summary : ℕ → OrderSummaryResponse → World → World
cache_summary user_id summary w =
    if w.redis.is_up
    then record w {
      redis = record w.redis {
        summaries = (user_id, summary) ∷ keep (λ (u, _). not (u == user_id)) w.redis.summaries;
      };
    }
    else w

abbrev summary_from : Settings → ℕ → Option OrderSummaryResponse → Service OrderSummaryResponse
summary_from settings user_id (some cached) = pure cached
summary_from settings user_id none = do
  cart ← get_or_create_cart user_id
  summary ←
      gets (λ w. build settings w.db.catalog (coupon_of w.db.coupon_tables cart.coupon_id) cart)
  modify (cache_summary user_id summary)
  pure summary

unfoldable pub get_summary : Settings → ℕ → Service OrderSummaryResponse
get_summary settings user_id = do
  cached ← gets (cached_summary user_id)
  summary_from settings user_id cached
