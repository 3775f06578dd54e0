-- ===== src/Checkout/Redis.antt =====
-- `OrderCacheService` of app/services/order_cache.py: the checkout lock and the idempotency keys.
use prime_pizza_backend.Base.{
  ℕ, Bool, true, false, not, ◌&&◌, Option, none, some, [], ◌∷◌, ◌==◌, find_first, any, keep,
  if◌then◌else◌,
}
use prime_pizza_backend.Text.{Text, text_eq}
use prime_pizza_backend.Store.{World, IdempotencyEntry}

-- Redis: the lock of a user's checkout and the key of a request. The time to live of the lock, and
-- its loss to a second checkout once that has passed, are left out.
unfoldable pub acquire_checkout_lock : ℕ → World → Bool × World
acquire_checkout_lock user_id w =
    if w.redis.is_up && not (any (λ u. u == user_id) w.redis.locks)
    then (true, record w { redis = record w.redis { locks = user_id ∷ w.redis.locks } })
    else (false, w)

unfoldable pub release_checkout_lock : ℕ → World → World
release_checkout_lock user_id w =
    if w.redis.is_up
    then record w {
      redis = record w.redis { locks = keep (λ u. not (u == user_id)) w.redis.locks };
    }
    else w

abbrev pub is_key : ℕ → Text → IdempotencyEntry → Bool
is_key user_id key e = e.user_id == user_id && text_eq e.key key

abbrev entry_order : Option IdempotencyEntry → Option ℕ
entry_order none = none
entry_order (some e) = some e.order_id

-- With `if payload.idempotency_key` in front, in both: an empty key is no key. The time to live of
-- the stored key, the setting but at least a day, is left out: an entry stays.
unfoldable pub get_idempotent_order_id : ℕ → Option Text → World → Option ℕ
get_idempotent_order_id user_id none w = none
get_idempotent_order_id user_id (some []) w = none
get_idempotent_order_id user_id (some (c ∷ key)) w =
    if w.redis.is_up
    then entry_order (find_first (is_key user_id (c ∷ key)) w.redis.idempotency)
    else none

unfoldable pub store_idempotent_order_id : ℕ → Option Text → ℕ → World → World
store_idempotent_order_id user_id none order_id w = w
store_idempotent_order_id user_id (some []) order_id w = w
store_idempotent_order_id user_id (some (c ∷ key)) order_id w =
    if w.redis.is_up
    then record w {
      redis = record w.redis {
        idempotency =
            record { user_id = user_id; key = c ∷ key; order_id = order_id }
            ∷ keep (λ e. not (is_key user_id (c ∷ key) e)) w.redis.idempotency;
      };
    }
    else w
