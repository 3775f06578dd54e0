-- ===== src/Enums.antt =====
-- app/common/enums.py: the enumerations that the modelled services branch on.
use prime_pizza_backend.Base.{ℕ, Bool, false, ◌||◌, List, [], ◌∷◌, ◌==◌}

pub data UserRole : Type 0 where
  customer chef : UserRole

pub data OrderStatus : Type 0 where
  pending confirmed preparing ready out_for_delivery delivered cancelled refunded : OrderStatus

pub data PaymentMethod : Type 0 where
  cash_on_delivery card online wallet : PaymentMethod

pub data PaymentStatus : Type 0 where
  payment_pending paid failed payment_refunded partially_refunded payment_cancelled : PaymentStatus

pub data CouponType : Type 0 where
  percentage fixed : CouponType

pub data CartStatus : Type 0 where
  active checkout_ready abandoned converted : CartStatus

pub data StockStatus : Type 0 where
  in_stock out_of_stock limited : StockStatus

pub data AuditAction : Type 0 where
  create update delete login logout view other : AuditAction

-- Two members are equal when their places in the enumeration are.
abbrev pub role_place : UserRole → ℕ
role_place customer = 0
role_place chef = 1

abbrev pub status_place : OrderStatus → ℕ
status_place pending = 0
status_place confirmed = 1
status_place preparing = 2
status_place ready = 3
status_place out_for_delivery = 4
status_place delivered = 5
status_place cancelled = 6
status_place refunded = 7

abbrev pub payment_place : PaymentStatus → ℕ
payment_place payment_pending = 0
payment_place paid = 1
payment_place failed = 2
payment_place payment_refunded = 3
payment_place partially_refunded = 4
payment_place payment_cancelled = 5

-- `a == b`
abbrev pub same_role : UserRole → UserRole → Bool
same_role a b = role_place a == role_place b

abbrev pub same_status : OrderStatus → OrderStatus → Bool
same_status a b = status_place a == status_place b

abbrev pub same_payment : PaymentStatus → PaymentStatus → Bool
same_payment a b = payment_place a == payment_place b

-- `a in {…}`
abbrev pub status_in : OrderStatus → List OrderStatus → Bool
status_in a [] = false
status_in a (b ∷ l) = same_status a b || status_in a l
