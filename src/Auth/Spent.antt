-- ===== src/Auth/Spent.antt =====
-- The steps of a request, and the ids of tokens that are not stored.
pub mod Methods
use prime_pizza_backend.Base.{
  ℕ, ◌+◌, ◌<◌, ◌≡◌, refl, sym, ap, Bool, true, false, not, Option, none, some, List, [], ◌∷◌, ◌++◌,
  arith, ◌==◌, any, keep, if◌then◌else◌,
}
use prime_pizza_backend.Base.Exec.{
  Result, pure, raise, gets, modify, raise_if, or_raise, ◌>>=◌, ◌>>◌, ok-injective,
}
use prime_pizza_backend.Base.Hoare.{Safe, Safe-bind, Safe-ask}
use prime_pizza_backend.Errors.{AppException, Message}
use prime_pizza_backend.Models.{User}
use prime_pizza_backend.Auth.State.{
  RateKey, Account, AuthWorld, Auth, draw, commit_users, save_account,
}
use prime_pizza_backend.Auth.Sessions.{
  on_redis, enforce_limit, store_refresh_token, consume_refresh_token, revoke_refresh_token,
  blacklist_token, is_blacklisted,
}
use prime_pizza_backend.Auth.Tokens.{Crypto, TokenPair, create_token_pair}
use prime_pizza_backend.Auth.Service.{AuthSettings, swallow}
use prime_pizza_backend.Auth.Calls.{Spent}

any-keep_le :
    {A : Type 0} (p q : A → Bool) (xs : List A) → any p xs ≡ false → any p (keep q xs) ≡ false
any-keep_le p q [] h = refl
any-keep_le p q (x ∷ xs) h = ground (arith, any-keep_le p q xs)

abbrev pub Keeps : ℕ → {A : Type 0} → Auth A → Type 0
Keeps jti {A = A} m = Safe {E = AppException} (Spent jti) {A = A} (λ _. Unit {0}) m

module _ {jti : ℕ} where
  pub then-Spent :
      {A B : Type 0} (m : Auth A) (k : A → Auth B)
      → Keeps jti m
      → ((a : A) → Keeps jti (k a))
      → Keeps jti (m >>= k)
  then-Spent m k hm hk = Safe-bind (Spent jti) (λ _. Unit {0}) (λ _. Unit {0}) m k hm (λ a _. hk a)

  pub Spent-same :
      (v w : AuthWorld)
      → v.redis.refresh_tokens ≡ w.redis.refresh_tokens
      → v.random ≡ w.random
      → Spent jti w
      → Spent jti v
  Spent-same v w et er s = record { was_drawn = rw er s.was_drawn; is_gone = rw et s.is_gone }

  pub choose-Spent :
      {A : Type 0} (up : Bool) (p q : Result AppException A × AuthWorld)
      → Spent jti p.1
      → Spent jti q.1
      → Spent jti (if up then p else q).1
  choose-Spent true p q hp hq = hp
  choose-Spent false p q hp hq = hq

  pub on_redis-Spent :
      {A : Type 0} (message : Message) (m : Auth A)
      → ((w : AuthWorld) → Spent jti w → Spent jti (m w).1)
      → Keeps jti (on_redis message m)
  on_redis-Spent message m h = record {
    run = λ w s. (choose-Spent w.redis.is_up _ _ (h w s) s, λ _ _. tt);
  }

  pub enforce_limit-Spent :
      (key : RateKey) (limit window : ℕ) (message : Message)
      → Keeps jti (enforce_limit key limit window message)
  unfolding enforce_limit
  enforce_limit-Spent key limit window message =
      on_redis-Spent _ _ (λ w s. Spent-same _ w refl refl s)

  pub consume-Spent : (i : ℕ) → Keeps jti (consume_refresh_token i)
  unfolding consume_refresh_token
  consume-Spent i = on_redis-Spent _ _ λ w s. record {
    was_drawn = s.was_drawn;
    is_gone = any-keep_le _ _ w.redis.refresh_tokens s.is_gone;
  }

  pub revoke-Spent : (i : ℕ) → Keeps jti (revoke_refresh_token i)
  unfolding revoke_refresh_token
  revoke-Spent i = on_redis-Spent _ _ λ w s. record {
    was_drawn = s.was_drawn;
    is_gone = any-keep_le _ _ w.redis.refresh_tokens s.is_gone;
  }

  pub blacklist-Spent : (i ttl : ℕ) → Keeps jti (blacklist_token i ttl)
  unfolding blacklist_token
  blacklist-Spent i ttl = on_redis-Spent _ _ (λ w s. Spent-same _ w refl refl s)

  pub is_blacklisted-Spent : (i : ℕ) → Keeps jti (is_blacklisted i)
  unfolding is_blacklisted
  is_blacklisted-Spent i = on_redis-Spent _ _ (λ w s. s)

  -- Another token may be stored.
  pub store-Spent : (i user_id ttl : ℕ) → jti < i → Keeps jti (store_refresh_token i user_id ttl)
  unfolding store_refresh_token
  store-Spent i user_id ttl new = on_redis-Spent _ _ λ w s. record {
    was_drawn = s.was_drawn;
    is_gone = ground (
      arith,
      any-keep_le (λ t. t.jti == jti) (λ t. not (t.jti == i)) w.redis.refresh_tokens s.is_gone,
    );
  }

  pub draw-Spent : Safe {E = AppException} (Spent jti) (λ i. jti < i) draw
  draw-Spent = record {
    run = λ w s. (
      record { was_drawn = omega (arith, s.was_drawn); is_gone = s.is_gone },
      λ i e. rw (sym (ok-injective _ i e)) s.was_drawn,
    );
  }

  -- A step that changes neither the stored tokens nor the source of random numbers.
  pub still :
      {A : Type 0} (m : Auth A)
      → ((w : AuthWorld) → (m w).1.redis.refresh_tokens ≡ w.redis.refresh_tokens)
      → ((w : AuthWorld) → (m w).1.random ≡ w.random)
      → Keeps jti m
  still m ht hr = record { run = λ w s. (Spent-same (m w).1 w (ht w) (hr w) s, λ _ _. tt) }

  pub ask-Spent :
      {A : Type 0} (f : AuthWorld → Option A) (e : AppException)
      → Keeps jti (λ w. or_raise (f w) e w)
  ask-Spent f e = Safe-ask (Spent jti) f e

  pub raise_if-Spent : (b : Bool) (e : AppException) → Keeps jti (raise_if b e)
  raise_if-Spent b e = still _ (λ w. refl) (λ w. refl)

  pub pure-Spent : {A : Type 0} (a : A) → Keeps jti (pure a)
  pure-Spent a = still _ (λ w. refl) (λ w. refl)

  pub gets-Spent : {A : Type 0} (f : AuthWorld → A) → Keeps jti (gets f)
  gets-Spent f = still _ (λ w. refl) (λ w. refl)

  pub raise-Spent : {A : Type 0} (e : AppException) → Keeps jti (raise {A = A} e)
  raise-Spent e = still _ (λ w. refl) (λ w. refl)

  pub or_raise-Spent : {A : Type 0} (o : Option A) (e : AppException) → Keeps jti (or_raise o e)
  or_raise-Spent none e = raise-Spent e
  or_raise-Spent (some a) e = pure-Spent a

  pub commit-Spent : Keeps jti commit_users
  commit-Spent = still _ (λ w. refl) (λ w. refl)

  pub commit_if-Spent :
      (b : Bool) → Keeps jti (modify λ w. if b then record w { committed = w.users } else w)
  commit_if-Spent true = commit-Spent
  commit_if-Spent false = still _ (λ w. refl) (λ w. refl)

  pub save-Spent : (account : Account) → Keeps jti (modify (save_account account))
  save-Spent account = still _ (λ w. refl) (λ w. refl)

  pub append-Spent :
      (account : Account) → Keeps jti (modify λ w. record w { users = w.users ++ account ∷ [] })
  append-Spent account = still _ (λ w. refl) (λ w. refl)

  pub draw-Keeps : Keeps jti draw
  draw-Keeps = record { run = λ w s. ((draw-Spent.run w s).0, λ _ _. tt) }

  pub swallow-Spent :
      (crypto : Crypto) (settings : AuthSettings) (m : Auth (Unit {0}))
      → Keeps jti m
      → Keeps jti (swallow crypto settings m)
  swallow-Spent crypto settings m h = record { run = λ w s. ((h.run w s).0, λ _ _. tt) }

  pub pair-Spent :
      (crypto : Crypto) (minutes days : ℕ) (user : User)
      → Safe {E = AppException}
          (Spent jti)
          (λ (p : TokenPair). jti < p.refresh_jti)
          (create_token_pair crypto minutes days user)
  unfolding create_token_pair
  pair-Spent crypto minutes days user = record {
    run = λ w s. (
      record { was_drawn = omega (arith, s.was_drawn); is_gone = s.is_gone },
      λ p e. rw (ap (λ q. q.refresh_jti) (sym (ok-injective _ p e))) (omega (arith, s.was_drawn)),
    );
  }
