-- ===== src/Orders/Cache.antt =====
-- The cached tracking view and the stored orders.
use prime_pizza_backend.Orders.Calls.{
  Writes, unchanged, stored, Call, call, calls, call-Writes, Writes-IsKeyed,
}
use prime_pizza_backend.Base.{
  ◌∙◌, ℕ, ◌≡◌, inl, inr, refl, true, not, Option, none, some, List, [], ◌∷◌, arith, ◌==◌, keep,
  find_first, if◌then◌else◌, Option-cases,
}
use prime_pizza_backend.Base.Exec.{ok}
use prime_pizza_backend.Models.{Order}
use prime_pizza_backend.Store.{World, Tracking}
use prime_pizza_backend.Orders.Table.{
  IsKeyed, get_detail, get_for_user, get_detail-replace_ne, get_for_user-get_detail,
  get_for_user-found,
}
use prime_pizza_backend.Orders.Manage.{tracking_of, cached_tracking, store_change, track_my_order}

abbrev pub entry_for : ℕ → List Tracking → Option Tracking
entry_for order_id = find_first λ t. t.order_id == order_id

-- Every cached view is that of the row as it stands.
pub record IsCoherent (w : World) : Type 0 where
  pub is_current :
      (order_id : ℕ) (t : Tracking)
      → entry_for order_id w.redis.tracking ≡ some t
      → (o : Order) × (get_detail w.db.orders order_id ≡ some o) × (t ≡ tracking_of o)

entry_for-keep :
    (i j : ℕ) (l : List Tracking)
    → entry_for j (keep (λ t. not (t.order_id == i)) l) ≡ (if j == i then none else entry_for j l)
entry_for-keep i j [] = ground arith
entry_for-keep i j (t ∷ l) = ground (arith, entry_for-keep i j l)

-- Writing a row and dropping its view, while Redis answers.
store_change-IsCoherent :
    (w : World) (order : Order)
    → w.redis.is_up ≡ true
    → IsCoherent w
    → IsCoherent (store_change order w).1
unfolding store_change
store_change-IsCoherent w order up c = record {
  is_current = λ order_id t e. ground (
    arith,
    entry_for-keep order.id order_id w.redis.tracking,
    c.is_current order_id t,
    get_detail-replace_ne w.db.orders order order_id,
  );
}

Writes-IsCoherent :
    (w w' : World) → w.redis.is_up ≡ true → IsCoherent w → Writes w w' → IsCoherent w'
Writes-IsCoherent w w' up c (unchanged e) = rw e c
Writes-IsCoherent w w' up c (stored order_id old new found f e) =
    rw e (store_change-IsCoherent w new up c)

store_change-is_up :
    (order : Order) (w : World) → (store_change order w).1.redis.is_up ≡ w.redis.is_up
unfolding store_change
store_change-is_up order w = ground arith

Writes-is_up : (w w' : World) → Writes w w' → w'.redis.is_up ≡ w.redis.is_up
Writes-is_up w w' (unchanged e) = rw e
Writes-is_up w w' (stored order_id old new found f e) = rw e (store_change-is_up new w)

-- While Redis answers, any sequence of status changes, payment changes and cancellations keeps every
-- cached tracking view equal to the view of the order as it now stands.
pub calls-IsCoherent :
    (window : ℕ) (cs : List Call) (w : World)
    → IsKeyed w.db.orders
    → w.redis.is_up ≡ true
    → IsCoherent w
    → IsCoherent (calls window cs w)
unfolding calls
calls-IsCoherent window [] w k up c = c
calls-IsCoherent window (x ∷ cs) w k up c =
    let wr = call-Writes window x w k in
    calls-IsCoherent window cs (call window x w) (Writes-IsKeyed w _ k wr)
      (Writes-is_up w _ wr ∙ up) (Writes-IsCoherent w _ up c wr)

cached_tracking-found :
    (w : World) (user_id order_id : ℕ) (t : Tracking)
    → cached_tracking w order_id user_id ≡ some t
    → (entry_for order_id w.redis.tracking ≡ some t) × (t.user_id ≡ user_id)
unfolding cached_tracking
cached_tracking-found w user_id order_id t e = ground arith

owner-tracking_of : (o : Order) → (tracking_of o).user_id ≡ o.user_id
unfolding tracking_of
owner-tracking_of o = refl

-- What tracking answers from a coherent cache is the view of the caller's own order as it stands.
pub track_my_order-current :
    (w : World) (user_id order_id : ℕ) (t : Tracking)
    → IsCoherent w
    → IsKeyed w.db.orders
    → (track_my_order user_id order_id w).0 ≡ ok t
    → (o : Order) × (get_detail w.db.orders order_id ≡ some o)
      × (o.user_id ≡ user_id)
      × (t ≡ tracking_of o)
unfolding track_my_order
track_my_order-current w user_id order_id t c k e =
    elim (Option-cases (cached_tracking w order_id user_id)) [
      | inl miss ↦ elim (Option-cases (get_for_user w.db.orders order_id user_id)) [
        | inl gone ↦ absurd (ground arith)
        | inr (o, found) ↦ (
          o,
          get_for_user-get_detail w.db.orders order_id user_id o k found,
          (get_for_user-found w.db.orders order_id user_id o found).1,
          ground arith,
        )
      ]
      | inr (u, hit) ↦
          let (entry, own) = cached_tracking-found w user_id order_id u hit in
          let (o, found, view) = c.is_current order_id u entry in
          (o, found, ground (arith, owner-tracking_of o), ground arith)
    ]
