-- ===== src/Checkout/Earlier.antt =====
-- The order that a request's idempotency key stands for, and when the checkout lock can be had.
use prime_pizza_backend.Base.{
  any, ap, ℕ, ◌≡◌, ◌≢◌, ◌⊎◌, refl, inl, inr, true, false, not, ◌&&◌, Bool, Option, none, some, List,
  [], ◌∷◌, ◌++◌, arith, ◌==◌, find_first, Bool-cases, Option-cases,
}
use prime_pizza_backend.Text.{Text, text_eq}
use prime_pizza_backend.Commerce.{CommerceConfig}
use prime_pizza_backend.Models.{Order}
use prime_pizza_backend.Store.{World, IdempotencyEntry}
use prime_pizza_backend.Orders.Table.{get_for_user, get_for_user-found}
use prime_pizza_backend.Cart.Lines.{Settings}
use prime_pizza_backend.Checkout.Redis.{acquire_checkout_lock, get_idempotent_order_id, is_key}
use prime_pizza_backend.Checkout.Place.{earlier_order}

-- Redis has an entry of this user under this key, and it names this order, which is the user's.
pub record Earlier (user_id : ℕ) (key : Option Text) (w : World) (order : Order) : Type 0 where
  pub entry : IdempotencyEntry
  pub newer : List IdempotencyEntry
  pub older : List IdempotencyEntry
  pub is_up : w.redis.is_up ≡ true
  pub is_stored : w.redis.idempotency ≡ newer ++ entry ∷ older
  pub same_user : entry.user_id ≡ user_id
  pub same_key : key ≡ some entry.key
  pub is_nonempty : entry.key ≢ []
  pub is_order : get_for_user w.db.orders entry.order_id user_id ≡ some order
  pub same_id : order.id ≡ entry.order_id
  pub is_owner : order.user_id ≡ user_id

text_eq_sound : (s t : Text) → text_eq s t ≡ true → s ≡ t
unfolding text_eq
text_eq_sound [] [] h = refl
text_eq_sound [] (b ∷ t) h = ground arith
text_eq_sound (a ∷ s) [] h = ground arith
text_eq_sound (a ∷ s) (b ∷ t) h = ground (arith, text_eq_sound s t)

-- An entry that a search finds stands in the list.
found-entry :
    (p : IdempotencyEntry → Bool) (l : List IdempotencyEntry) (e : IdempotencyEntry)
    → find_first p l ≡ some e
    → (newer : List IdempotencyEntry) × (older : List IdempotencyEntry) × (l ≡ newer ++ e ∷ older)
      × (p e ≡ true)
found-entry p [] e h = ground arith
found-entry p (x ∷ l) e h = elim (Bool-cases (p x)) [
  | inl here ↦ ([], l, ground arith, ground arith)
  | inr there ↦
      let (newer, older, split, holds) = found-entry p l e (ground arith) in
      (x ∷ newer, older, ap (λ rest. x ∷ rest) split, holds)
]

module _ (settings : Settings) (commerce : CommerceConfig) where
  pub earlier_order-Earlier :
      (user_id : ℕ) (key : Option Text) (w : World) (order : Order)
      → earlier_order settings commerce user_id (get_idempotent_order_id user_id key w) w
        ≡ some order
      → Earlier user_id key w order
  unfolding get_idempotent_order_id
  earlier_order-Earlier user_id none w order h = absurd (ground arith)
  earlier_order-Earlier user_id (some []) w order h = absurd (ground arith)
  earlier_order-Earlier user_id (some (c ∷ s)) w order h = elim (Bool-cases w.redis.is_up) [
    | inr down ↦ absurd (ground arith)
    | inl up ↦ elim (Option-cases (find_first (is_key user_id (c ∷ s)) w.redis.idempotency)) [
      | inl gone ↦ absurd (ground arith)
      | inr (e, found) ↦
          let (newer, older, split, holds) =
            found-entry (is_key user_id (c ∷ s)) w.redis.idempotency e found in
          let key : e.key ≡ c ∷ s = text_eq_sound e.key (c ∷ s) (ground arith) in
          let row : get_for_user w.db.orders e.order_id user_id ≡ some order = ground arith in
          let (id, own, _) = get_for_user-found w.db.orders e.order_id user_id order row in
          record {
            entry = e;
            newer = newer;
            older = older;
            is_up = up;
            is_stored = split;
            same_user = ground arith;
            same_key = rw key refl;
            is_nonempty = λ empty. ground (arith, key, empty);
            is_order = row;
            same_id = id;
            is_owner = own;
          }
    ]
  ]

-- The lock is not given while Redis is down, or while a checkout of the user has it.
abbrev pub Barred : ℕ → World → Type 0
Barred user_id w = (w.redis.is_up ≡ false) ⊎ (any (λ u. u == user_id) w.redis.locks ≡ true)

pub acquire_lem :
    (user_id : ℕ) (w : World)
    → let (held, w') = acquire_checkout_lock user_id w in
      (w'.db ≡ w.db) × (w'.committed ≡ w.committed) × (held ≡ false → (w' ≡ w) × Barred user_id w)
unfolding acquire_checkout_lock
acquire_lem user_id w =
    elim (Bool-cases (w.redis.is_up && not (any (λ u. u == user_id) w.redis.locks))) [
      | inl free ↦ rw free (refl, refl, λ h. ground arith)
      | inr taken ↦ rw taken (refl, refl, λ h. (refl, ground arith))
    ]
