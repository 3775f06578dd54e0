-- ===== src/Auth/Calls.antt =====
-- Sequences of requests to the service.
use prime_pizza_backend.Base.{ℕ, ◌+◌, ◌<◌, ◌≡◌, Bool, false, Option, List, [], ◌∷◌, ◌==◌, any}
use prime_pizza_backend.Base.Exec.{Result, ok, err}
use prime_pizza_backend.Text.{Text}
use prime_pizza_backend.Errors.{AppException}
use prime_pizza_backend.Auth.State.{StoredToken, AuthWorld, users_rolled_back}
use prime_pizza_backend.Auth.Tokens.{Crypto, Claims}
use prime_pizza_backend.Auth.Service.{
  AuthSettings, RegisterRequest, LoginRequest, register, login, refresh, logout,
}

abbrev pub has_jti : ℕ → List StoredToken → Bool
has_jti jti = any λ t. t.jti == jti

-- No stored token has the id, and no token to come will have it.
pub record Spent (jti : ℕ) (w : AuthWorld) : Type 0 where
  pub was_drawn : jti < w.random
  pub is_gone : has_jti jti w.redis.refresh_tokens ≡ false

pub data AuthCall : Type 0 where
  register_call : RegisterRequest → Option Text → AuthCall
  login_call : LoginRequest → Option Text → AuthCall
  refresh_call : Text → AuthCall
  logout_call : Option Claims → Option Text → AuthCall
  -- Time passes; Redis stops or comes back.
  time_passes : ℕ → AuthCall
  redis_turns : Bool → AuthCall

-- The world after a request, which is rolled back when it has raised.
abbrev pub closed : {A : Type 0} → Result AppException A × AuthWorld → AuthWorld
closed (ok _, w) = w
closed (err _, w) = users_rolled_back w

module _ (crypto : Crypto) (settings : AuthSettings) where
  unfoldable pub auth_call : AuthCall → AuthWorld → AuthWorld
  auth_call (register_call payload ip) w = closed (register crypto settings payload ip w)
  auth_call (login_call payload ip) w = closed (login crypto settings payload ip w)
  auth_call (refresh_call token) w = closed (refresh crypto settings token w)
  auth_call (logout_call payload token) w = closed (logout crypto settings payload token w)
  auth_call (time_passes elapsed) w = record w { now = w.now + elapsed }
  auth_call (redis_turns up) w = record w { redis = record w.redis { is_up = up } }

  unfoldable pub auth_calls : List AuthCall → AuthWorld → AuthWorld
  unfolding auth_call
  auth_calls [] w = w
  auth_calls (c ∷ cs) w = auth_calls cs (auth_call c w)
