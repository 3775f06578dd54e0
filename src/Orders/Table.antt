-- ===== src/Orders/Table.antt =====
-- The queries of `OrderRepository` by id, and the write of a changed row.
use prime_pizza_backend.Base.{
  any, ℕ, ◌≡◌, ◌≢◌, refl, false, ◌&&◌, Option, none, some, List, [], ◌∷◌, arith, ◌==◌, find_first,
  update_where,
}
use prime_pizza_backend.Catalog.{alive}
use prime_pizza_backend.Models.{Order}

-- `OrderRepository.get_detail`
unfoldable pub get_detail : List Order → ℕ → Option Order
get_detail orders order_id = find_first (λ o. o.id == order_id && alive o.deleted) orders

-- `OrderRepository.get_for_user`
unfoldable pub get_for_user : List Order → ℕ → ℕ → Option Order
get_for_user orders order_id user_id =
    find_first (λ o. o.id == order_id && o.user_id == user_id && alive o.deleted) orders

-- The session writes the attributes of a loaded row back.
unfoldable pub replace_order : Order → List Order → List Order
replace_order order orders = update_where (λ o. o.id == order.id) (λ _. order) orders

-- The row is written back under its own id.
pub get_detail-replace_self :
    (orders : List Order) (old order : Order) (order_id : ℕ)
    → get_detail orders order_id ≡ some old
    → order.id ≡ order_id
    → order.deleted ≡ false
    → get_detail (replace_order order orders) order_id ≡ some order
unfolding get_detail replace_order
get_detail-replace_self [] old order order_id found same here = ground arith
get_detail-replace_self (o ∷ orders) old order order_id found same here =
    ground (arith, get_detail-replace_self orders old order order_id)

-- No other row changes.
pub get_detail-replace_ne :
    (orders : List Order) (order : Order) (order_id : ℕ)
    → order_id ≢ order.id
    → get_detail (replace_order order orders) order_id ≡ get_detail orders order_id
unfolding get_detail replace_order
get_detail-replace_ne [] order order_id ne = refl
get_detail-replace_ne (o ∷ orders) order order_id ne =
    ground (arith, get_detail-replace_ne orders order order_id ne)

pub get_detail-found :
    (orders : List Order) (order_id : ℕ) (order : Order)
    → get_detail orders order_id ≡ some order
    → (order.id ≡ order_id) × (order.deleted ≡ false)
unfolding get_detail
get_detail-found [] order_id order e = ground arith
get_detail-found (o ∷ orders) order_id order e =
    ground (arith, get_detail-found orders order_id order)

pub get_for_user-found :
    (orders : List Order) (order_id user_id : ℕ) (order : Order)
    → get_for_user orders order_id user_id ≡ some order
    → (order.id ≡ order_id) × (order.user_id ≡ user_id) × (order.deleted ≡ false)
unfolding get_for_user
get_for_user-found [] order_id user_id order e = ground arith
get_for_user-found (o ∷ orders) order_id user_id order e =
    ground (arith, get_for_user-found orders order_id user_id order)

-- The first row with the id is the user's, so the query by owner finds the same row.
pub get_for_user-own :
    (orders : List Order) (order_id user_id : ℕ) (order : Order)
    → get_detail orders order_id ≡ some order
    → order.user_id ≡ user_id
    → get_for_user orders order_id user_id ≡ some order
unfolding get_detail get_for_user
get_for_user-own [] order_id user_id order e own = ground arith
get_for_user-own (o ∷ orders) order_id user_id order e own =
    ground (arith, get_for_user-own orders order_id user_id order)

-- The primary key: no two rows have one id.
abbrev pub IsKeyed : List Order → Type 0
IsKeyed [] = Unit
IsKeyed (o ∷ orders) = (any (λ p. p.id == o.id) orders ≡ false) × IsKeyed orders

absent-get_for_user :
    (orders : List Order) (order_id user_id : ℕ)
    → any (λ p. p.id == order_id) orders ≡ false
    → get_for_user orders order_id user_id ≡ none
unfolding get_for_user
absent-get_for_user [] order_id user_id h = refl
absent-get_for_user (o ∷ orders) order_id user_id h =
    ground (arith, absent-get_for_user orders order_id user_id)

pub get_for_user-get_detail :
    (orders : List Order) (order_id user_id : ℕ) (order : Order)
    → IsKeyed orders
    → get_for_user orders order_id user_id ≡ some order
    → get_detail orders order_id ≡ some order
unfolding get_for_user get_detail
get_for_user-get_detail [] order_id user_id order k e = ground arith
get_for_user-get_detail (o ∷ orders) order_id user_id order (new, k) e = ground (
  arith,
  absent-get_for_user orders o.id user_id new,
  get_for_user-get_detail orders order_id user_id order k,
)

any-replace :
    (order : Order) (i : ℕ) (orders : List Order)
    → any (λ p. p.id == i) (replace_order order orders) ≡ any (λ p. p.id == i) orders
unfolding replace_order
any-replace order i [] = refl
any-replace order i (o ∷ orders) = ground (arith, any-replace order i orders)

pub replace_order-IsKeyed :
    (order : Order) (orders : List Order) → IsKeyed orders → IsKeyed (replace_order order orders)
unfolding replace_order
replace_order-IsKeyed order [] k = tt
replace_order-IsKeyed order (o ∷ orders) (new, k) =
    ground (arith, any-replace order o.id orders, replace_order-IsKeyed order orders k)
