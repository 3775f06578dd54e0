-- ===== src/Orders/Status/Progress.antt =====
-- The status machine as a relation.
use prime_pizza_backend.Base.{◌≤◌, ◌<◌, ◌≡◌, ◌≢◌, ◌⊎◌, inl, refl, true, arith}
use prime_pizza_backend.Enums.{
  OrderStatus, pending, confirmed, preparing, ready, out_for_delivery, delivered, cancelled,
  refunded, status_place,
}
use prime_pizza_backend.Orders.Status.{is_allowed}

-- The statuses that an order can pass through, one allowed transition after another.
infix 40 ◌⟶*◌
pub data ◌⟶*◌ (s : OrderStatus) : OrderStatus → Type 0 where
  here : s ⟶* s
  next : {t u : OrderStatus} → s ⟶* t → is_allowed t u ≡ true → s ⟶* u

pub is_allowed-lt : (s t : OrderStatus) → is_allowed s t ≡ true → status_place s < status_place t
unfolding is_allowed
is_allowed-lt s t h = ground arith

reach-le : {s t : OrderStatus} → s ⟶* t → status_place s ≤ status_place t
reach-le here = omega arith
reach-le (next {t} {u} r h) = omega (arith, reach-le r, is_allowed-lt t u h)

-- No sequence of allowed transitions, however long, leads from a status that an order has left back
-- to it.
pub no_status_cycle : (s t u : OrderStatus) → is_allowed s t ≡ true → t ⟶* u → u ≢ s
no_status_cycle s t u h r e =
    let le : status_place t ≤ status_place s = rw e at (reach-le r) in
    absurd (omega (arith, is_allowed-lt s t h))

settled_step :
    (s t u : OrderStatus)
    → (s ≡ delivered) ⊎ (s ≡ cancelled)
    → (t ≡ s) ⊎ (t ≡ refunded)
    → is_allowed t u ≡ true
    → (u ≡ s) ⊎ (u ≡ refunded)
unfolding is_allowed
settled_step s t u d m h = ground arith

-- A delivered or a cancelled order can become nothing else but refunded.
pub settled_reach :
    (s t : OrderStatus) → (s ≡ delivered) ⊎ (s ≡ cancelled) → s ⟶* t → (t ≡ s) ⊎ (t ≡ refunded)
settled_reach s t d here = inl refl
settled_reach s t d (next {t = m} {u} r h) = settled_step s m u d (settled_reach s m d r) h

-- The statuses from which the kitchen still has work to do.
abbrev pub IsOpen : OrderStatus → Type 0
IsOpen s = status_place s < 5

-- Every open order can still be delivered, and every open order can still be cancelled.
pub open_reach : (s : OrderStatus) → IsOpen s → (s ⟶* delivered) × (s ⟶* cancelled)
unfolding is_allowed
open_reach pending o = (
  next {t = ready} (next {t = preparing} (next {t = pending} here refl) refl) refl,
  next {t = pending} here refl,
)
open_reach confirmed o = (
  next {t = ready} (next {t = preparing} (next {t = confirmed} here refl) refl) refl,
  next {t = confirmed} here refl,
)
open_reach preparing o =
    (next {t = ready} (next {t = preparing} here refl) refl, next {t = preparing} here refl)
open_reach ready o = (next {t = ready} here refl, next {t = ready} here refl)
open_reach out_for_delivery o =
    (next {t = out_for_delivery} here refl, next {t = out_for_delivery} here refl)
open_reach _ o = absurd (omega arith)
