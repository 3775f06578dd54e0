-- ===== src/Orders/Status.antt =====
-- The status machine: `STATUS_TITLES`, `CUSTOMER_CANCELABLE` and `ALLOWED_STATUS_TRANSITIONS`.
pub mod Progress
use prime_pizza_backend.Base.{Bool, List, [], ◌∷◌, String}
use prime_pizza_backend.Enums.{
  OrderStatus, pending, confirmed, preparing, ready, out_for_delivery, delivered, cancelled,
  refunded, status_in,
}

abbrev pub status_title : OrderStatus → String
status_title pending = "Order Created"
status_title confirmed = "Order Confirmed"
status_title preparing = "Preparing"
status_title ready = "Ready"
status_title out_for_delivery = "Out for Delivery"
status_title delivered = "Delivered"
status_title cancelled = "Cancelled"
status_title refunded = "Refunded"

abbrev pub customer_cancelable : List OrderStatus
customer_cancelable = pending ∷ confirmed ∷ []

unfoldable pub allowed_status_transitions : OrderStatus → List OrderStatus
allowed_status_transitions pending = confirmed ∷ preparing ∷ cancelled ∷ []
allowed_status_transitions confirmed = preparing ∷ cancelled ∷ []
allowed_status_transitions preparing = ready ∷ cancelled ∷ []
allowed_status_transitions ready = out_for_delivery ∷ delivered ∷ cancelled ∷ []
allowed_status_transitions out_for_delivery = delivered ∷ cancelled ∷ []
allowed_status_transitions delivered = refunded ∷ []
allowed_status_transitions cancelled = refunded ∷ []
allowed_status_transitions refunded = []

-- `payload.status in allowed`
unfoldable pub is_allowed : OrderStatus → OrderStatus → Bool
unfolding allowed_status_transitions
is_allowed from to = status_in to (allowed_status_transitions from)
