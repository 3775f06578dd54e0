-- ===== src/Store.antt =====
-- What a request works on: the database as the open transaction sees it, the database as it was
-- last committed, and Redis. One request reads one clock.
use prime_pizza_backend.Base.{ℕ, Bool, Option, List}
use prime_pizza_backend.Base.Exec.{Exec, Result, ok, err, modify}
use prime_pizza_backend.Text.{Text}
use prime_pizza_backend.Errors.{AppException}
use prime_pizza_backend.Enums.{OrderStatus, PaymentStatus}
use prime_pizza_backend.Catalog.{Catalog}
use prime_pizza_backend.Commerce.{CommerceConfig}
use prime_pizza_backend.Coupon.{CouponTables}
use prime_pizza_backend.Models.{
  AuditLog, Wishlist, SystemSetting, Address, Cart, Order, OrderSummaryResponse, OrderTimelineEvent,
}

pub record Database : Type 0 where
  pub catalog : Catalog
  pub addresses : List Address
  pub carts : List Cart
  pub orders : List Order
  pub coupon_tables : CouponTables
  pub wishlists : List Wishlist
  pub system_settings : List SystemSetting
  pub audit_logs : List AuditLog
  pub sequences : List (ℕ × ℕ)
  pub next_id : ℕ

-- The tracking view that `track_my_order` caches, with the owner beside it.
pub record Tracking : Type 0 where
  pub order_id : ℕ
  pub user_id : ℕ
  pub current_status : OrderStatus
  pub payment_status : PaymentStatus
  pub timeline : List OrderTimelineEvent
  pub estimated_preparation_minutes : Option ℕ
  pub estimated_delivery_time : Option ℕ

pub record IdempotencyEntry : Type 0 where
  pub user_id : ℕ
  pub key : Text
  pub order_id : ℕ

-- `settings:commerce` and `settings:maintenance`, as long as they live
pub record CachedCommerce : Type 0 where
  pub config : CommerceConfig
  pub expires_at : ℕ

pub record CachedFlag : Type 0 where
  pub value : Text
  pub expires_at : ℕ

-- The Redis keys of app/services/order_cache.py, app/services/cart_cache.py and
-- app/services/commerce_config.py that are ever read. While `is_up` is false every command raises.
pub record Redis : Type 0 where
  pub is_up : Bool
  pub tracking : List Tracking
  pub locks : List ℕ
  pub idempotency : List IdempotencyEntry
  pub summaries : List (ℕ × OrderSummaryResponse)
  pub commerce : Option CachedCommerce
  pub maintenance : Option CachedFlag

pub record World : Type 0 where
  pub db : Database
  pub committed : Database
  pub redis : Redis
  pub now : ℕ
  pub year : ℕ

abbrev pub Service : Type 0 → Type 0
Service A = Exec World AppException A

-- `session.commit()`
abbrev pub commit : Service (Unit {0})
commit = modify λ w. record w { committed = w.db }

-- `session.rollback()`
abbrev pub rolled_back : World → World
rolled_back w = record w { db = w.committed }

-- `get_db` (app/database/session.py): a request that raises is rolled back.
abbrev pub finish : {A : Type 0} → Result AppException A × World → Result AppException A × World
finish (ok a, w) = (ok a, w)
finish (err e, w) = (err e, rolled_back w)

unfoldable pub run_request : {A : Type 0} → Service A → Service A
run_request m w = finish (m w)
