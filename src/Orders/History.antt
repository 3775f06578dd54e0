-- ===== src/Orders/History.antt =====
-- What any sequence of calls can make of one order.
use mathlib.Core.Option.{some-injective}
use prime_pizza_backend.Base.{
  Bool-cases, eqb→eq, ◌==◌, ℕ, ◌≡◌, ◌⊎◌, ◌∙◌, sym, inl, inr, refl, true, some, List, [], ◌∷◌, ◌++◌,
  arith,
}
use mathlib.Core.List.{append_assoc, append-nil}
use prime_pizza_backend.Enums.{OrderStatus}
use prime_pizza_backend.Models.{Order, OrderTimelineEvent}
use prime_pizza_backend.Store.{World}
use prime_pizza_backend.Orders.Status.{is_allowed}
use prime_pizza_backend.Orders.Status.Progress.{◌⟶*◌, here, next}
use prime_pizza_backend.Orders.Table.{
  IsKeyed, get_detail, replace_order, get_detail-replace_self, get_detail-replace_ne,
  get_detail-found,
}
use prime_pizza_backend.Orders.Manage.{store_change}
use prime_pizza_backend.Orders.Calls.{
  Follows, Writes, unchanged, stored, Call, call, calls, call-Writes, Writes-IsKeyed,
}

-- What an order has become: further along the status machine, with a longer timeline, and with the
-- same owner, items and total.
pub record Evolves (old new : Order) : Type 0 where
  pub status_path : old.status ⟶* new.status
  pub same_owner : new.user_id ≡ old.user_id
  pub same_items : new.items ≡ old.items
  pub same_total : new.grand_total ≡ old.grand_total
  pub added : List OrderTimelineEvent
  pub extended : new.timeline ≡ old.timeline ++ added

Evolves-refl : (o : Order) → Evolves o o
Evolves-refl o = record {
  status_path = here;
  same_owner = refl;
  same_items = refl;
  same_total = refl;
  added = [];
  extended = sym (append-nil o.timeline);
}

extend_path : {s t u : OrderStatus} → s ⟶* t → (u ≡ t) ⊎ (is_allowed t u ≡ true) → s ⟶* u
extend_path p (inl e) = rw e p
extend_path p (inr h) = next p h

Evolves-step : (o p q : Order) → Evolves o p → Follows p q → Evolves o q
Evolves-step o p q e f = record {
  status_path = extend_path e.status_path f.step;
  same_owner = f.same_owner ∙ e.same_owner;
  same_items = f.same_items ∙ e.same_items;
  same_total = f.same_total ∙ e.same_total;
  added = e.added ++ f.event ∷ [];
  extended = rw (f.logged, e.extended) (append_assoc o.timeline e.added (f.event ∷ []));
}

orders-store_change :
    (order : Order) (w : World)
    → (store_change order w).1.db.orders ≡ replace_order order w.db.orders
unfolding store_change
orders-store_change order w = ground arith

-- The order under an id, after a row was stored.
stored-row :
    (w : World) (order_id i : ℕ) (p old new : Order)
    → get_detail w.db.orders order_id ≡ some p
    → get_detail w.db.orders i ≡ some old
    → Follows old new
    → (q : Order) × (get_detail (store_change new w).1.db.orders order_id ≡ some q)
      × ((q ≡ p) ⊎ Follows p q)
stored-row w order_id i p old new found at f =
    let (id, alive) = get_detail-found w.db.orders i old at in
    elim (Bool-cases (order_id == i)) [
      | inl same ↦
          let e : order_id ≡ i = eqb→eq order_id i same in
          let old-p : old ≡ p = some-injective _ _ (cc) in
          (
            new,
            rw (orders-store_change new w) (
                get_detail-replace_self w.db.orders p new order_id found (f.same_id ∙ id ∙ sym e)
                  (f.same_deleted ∙ alive)),
            inr (rw old-p at f),
          )
      | inr other ↦ (
        p,
        rw (orders-store_change new w)
            (get_detail-replace_ne w.db.orders new order_id (λ e. ground arith) ∙ found),
        inl refl,
      )
    ]

Writes-row :
    (w w' : World) (order_id : ℕ) (p : Order)
    → get_detail w.db.orders order_id ≡ some p
    → Writes w w'
    → (q : Order) × (get_detail w'.db.orders order_id ≡ some q) × ((q ≡ p) ⊎ Follows p q)
Writes-row w w' order_id p found (unchanged e) = (p, rw e found, inl refl)
Writes-row w w' order_id p found (stored i old new at f e) =
    rw e (stored-row w order_id i p old new found at f)

run-Evolves :
    (window : ℕ) (cs : List Call) (w : World) (order_id : ℕ) (o p : Order)
    → IsKeyed w.db.orders
    → get_detail w.db.orders order_id ≡ some p
    → Evolves o p
    → (q : Order) × (get_detail (calls window cs w).db.orders order_id ≡ some q) × Evolves o q
unfolding calls
run-Evolves window [] w order_id o p k found e = (p, found, e)
run-Evolves window (c ∷ cs) w order_id o p k found e =
    let wr = call-Writes window c w k in
    let (q, found', m) = Writes-row w (call window c w) order_id p found wr in
    run-Evolves window cs (call window c w) order_id o q (Writes-IsKeyed w _ k wr) found'
      (joined q m)
  where
    joined : (q : Order) → (q ≡ p) ⊎ Follows p q → Evolves o q
    joined q (inl same) = rw same e
    joined q (inr f) = Evolves-step o p q e f

-- Whatever sequence of status changes, payment changes and cancellations is called for, an order
-- that is there stays there, its status only moves along allowed transitions, its timeline only
-- grows at the end, and its owner, its items and its total never change.
pub calls-Evolves :
    (window : ℕ) (cs : List Call) (w : World) (order_id : ℕ) (o : Order)
    → IsKeyed w.db.orders
    → get_detail w.db.orders order_id ≡ some o
    → (q : Order) × (get_detail (calls window cs w).db.orders order_id ≡ some q) × Evolves o q
calls-Evolves window cs w order_id o k found =
    run-Evolves window cs w order_id o o k found (Evolves-refl o)
