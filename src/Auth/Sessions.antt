-- ===== src/Auth/Sessions.antt =====
-- `RedisAuthRepository` (app/repositories/redis_auth.py).
use prime_pizza_backend.Base.{
  ℕ, ◌+◌, ◌*◌, max, Bool, false, not, ◌&&◌, Option, none, some, List, ◌∷◌, ltb, ◌==◌, any, keep,
  find_first, if◌then◌else◌,
}
use prime_pizza_backend.Base.Exec.{ok, err, pure, ◌>>◌}
use prime_pizza_backend.Text.{Text, text_eq, codes}
use prime_pizza_backend.Errors.{redis_exception, rate_limit_exception, Message, text}
use prime_pizza_backend.Auth.State.{
  StoredToken, Revoked, RateKey, login_rate_key, register_rate_key, ip_auth_rate_key, Counter, Auth,
  one_second,
}

unfoldable pub same_key : RateKey → RateKey → Bool
unfolding text_eq
same_key (login_rate_key a) (login_rate_key b) = text_eq a b
same_key (register_rate_key a) (register_rate_key b) = text_eq a b
same_key (ip_auth_rate_key a) (ip_auth_rate_key b) = text_eq a b
same_key _ _ = false

-- `try: … except Exception: raise RedisException(…)`
abbrev pub on_redis : {A : Type 0} → Message → Auth A → Auth A
on_redis message m w = if w.redis.is_up then m w else (err (redis_exception message), w)

-- The counter after `INCR` and `EXPIRE … NX`: a new one has one hit and the window before it.
abbrev pub bump : Option Counter → RateKey → ℕ → Counter
bump none key expires_at = record { key = key; count = 1; expires_at = expires_at }
bump (some c) key expires_at = record c { count = c.count + 1 }

unfoldable pub live_counter : List Counter → ℕ → RateKey → Option Counter
unfolding same_key
live_counter counters now key =
    find_first (λ c. same_key c.key key && ltb now c.expires_at) counters

unfoldable pub set_counter : Counter → List Counter → List Counter
unfolding same_key
set_counter c counters = c ∷ keep (λ d. not (same_key d.key c.key)) counters

-- `_enforce_limit`
unfoldable pub enforce_limit : RateKey → ℕ → ℕ → Message → Auth (Unit {0})
unfolding live_counter set_counter
enforce_limit key limit window_seconds message = on_redis (text "Rate limit check failed") λ w.
    let c =
      bump (live_counter w.redis.counters w.now key) key (w.now + window_seconds * one_second) in
    (
      if ltb limit c.count then err (rate_limit_exception message) else ok tt,
      record w { redis = record w.redis { counters = set_counter c w.redis.counters } },
    )

pub record Limit : Type 0 where
  pub limit : ℕ
  pub window_seconds : ℕ

-- `if client_ip and client_ip != "unknown"`
abbrev pub enforce_ip : Limit → Option Text → Auth (Unit {0})
enforce_ip ip none = pure tt
enforce_ip ip (some client_ip) =
    if text_eq client_ip (codes "")
    then pure tt
    else if text_eq client_ip (codes "unknown")
    then pure tt
    else enforce_limit (ip_auth_rate_key client_ip) ip.limit ip.window_seconds
        (text "Too many authentication attempts from this network.")

-- `enforce_login_rate_limit` and `enforce_register_rate_limit`, with the settings' two limits
unfoldable pub enforce_login_rate_limit : Limit → Limit → Text → Option Text → Auth (Unit {0})
unfolding enforce_limit
enforce_login_rate_limit login ip identity client_ip = do
  enforce_limit (login_rate_key identity) login.limit login.window_seconds
      (text "Too many login attempts. Please try again later.")
  enforce_ip ip client_ip

unfoldable pub enforce_register_rate_limit : Limit → Limit → Text → Option Text → Auth (Unit {0})
unfolding enforce_limit
enforce_register_rate_limit register ip identity client_ip = do
  enforce_limit (register_rate_key identity) register.limit register.window_seconds
      (text "Too many registration attempts. Please try again later.")
  enforce_ip ip client_ip

abbrev pub without : ℕ → List StoredToken → List StoredToken
without jti = keep λ t. not (t.jti == jti)

unfoldable pub store_refresh_token : ℕ → ℕ → ℕ → Auth (Unit {0})
store_refresh_token jti user_id ttl_seconds = on_redis (text "Failed to store refresh token") λ w.
    let t : StoredToken = record {
      jti = jti;
      user_id = user_id;
      expires_at = w.now + max ttl_seconds 1 * one_second;
    } in
    (
      ok tt,
      record w {
        redis = record w.redis { refresh_tokens = t ∷ without jti w.redis.refresh_tokens };
      },
    )

abbrev pub owner_of : Option StoredToken → Option ℕ
owner_of none = none
owner_of (some t) = some t.user_id

-- `GETDEL`
unfoldable pub consume_refresh_token : ℕ → Auth (Option ℕ)
consume_refresh_token jti = on_redis (text "Failed to consume refresh token") λ w. (
  ok (owner_of (find_first (λ t. t.jti == jti && ltb w.now t.expires_at) w.redis.refresh_tokens)),
  record w { redis = record w.redis { refresh_tokens = without jti w.redis.refresh_tokens } },
)

unfoldable pub revoke_refresh_token : ℕ → Auth (Unit {0})
revoke_refresh_token jti = on_redis (text "Failed to revoke refresh token") λ w. (
  ok tt,
  record w { redis = record w.redis { refresh_tokens = without jti w.redis.refresh_tokens } },
)

unfoldable pub blacklist_token : ℕ → ℕ → Auth (Unit {0})
blacklist_token jti ttl_seconds = on_redis (text "Failed to blacklist token") λ w.
    let r : Revoked = record { jti = jti; expires_at = w.now + max ttl_seconds 1 * one_second } in
    (
      ok tt,
      record w {
        redis = record w.redis { blacklist = r ∷ keep (λ t. not (t.jti == jti)) w.redis.blacklist };
      },
    )

unfoldable pub is_blacklisted : ℕ → Auth Bool
is_blacklisted jti =
    on_redis (text "Failed to check token blacklist")
      λ w. (ok (any (λ r. r.jti == jti && ltb w.now r.expires_at) w.redis.blacklist), w)
