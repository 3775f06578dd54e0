-- ===== src/Auth/SignedIn.antt =====
-- Signing in, and what the access token that it gives is good for (`login`, `register` and
-- `refresh` of `AuthService`, and the dependencies of an endpoint).
mod Answers
mod Login
mod Register
mod Refresh
use prime_pizza_backend.Base.{
  ℕ, ◌+◌, ◌*◌, ◌<◌, ◌⊎◌, ◌≤◌, All-keep_of, ◌≡◌, refl, sym, ap, ◌∙◌, inl, inr, Bool, true, false,
  not, ◌&&◌, Option, none, some, List, [], ◌∷◌, ◌++◌, arith, ◌==◌, max, any, Bool-cases,
  Option-cases, All, find_first, find_first-holds, update_where, ltb, keep, if◌then◌else◌, is_some,
}
use prime_pizza_backend.Base.Exec.{
  gets, modify, raise_if, or_raise, Result, ok, err, bind-ok, ask-ok, guard-ok, run-cases,
  ok-injective, pure, ◌>>=◌, ◌>>◌,
}
use prime_pizza_backend.Text.{Text, codes, text_eq, lower, strip}
use prime_pizza_backend.Errors.{
  AppException, Message, unauthorized_exception, conflict_exception, invalid_token_exception, text,
}
use prime_pizza_backend.Models.{User}
use prime_pizza_backend.Enums.{customer}
use prime_pizza_backend.Authorization.Roles.{is_chef_email}
use prime_pizza_backend.Auth.State.{
  Account, StoredToken, Revoked, Counter, RateKey, ip_auth_rate_key, AuthWorld, Auth, get_by_id,
  get_by_email, get_by_phone, save_account, draw, commit_users,
}
use prime_pizza_backend.Auth.Sessions.{
  Limit, enforce_limit, enforce_ip, enforce_login_rate_limit, enforce_register_rate_limit,
  blacklist_token, is_blacklisted, consume_refresh_token,
}
use prime_pizza_backend.Auth.Tokens.{
  Crypto, Claims, decode_token, verify_password, Decoded, valid, expired_signature, jwt_error,
  checked_claims, get_remaining_ttl_seconds,
}
use prime_pizza_backend.Auth.Service.{
  AuthSettings, TokenPairResponse, AuthResponse, RegisterRequest, LoginRequest, issue_tokens,
  active_account, subject, chef_synced, sync_chef_role_if_needed, mark_login, log_in, login,
  register, refresh, refresh_stored, rotate, registered_user, phone_taken, same_subject,
}
use prime_pizza_backend.Auth.Issued.{
  DrawnRevoked, IsFaithful, Issued, issue_tokens-Issued, Accepts, Issued-Accepts, after,
}
use prime_pizza_backend.Auth.Revocation.{Known, token-drawn, live_token, without_token, refresh_run}
use prime_pizza_backend.Auth.Limited.{
  counted, Counts, enforce_login-Counts, enforce_register-Counts,
}
use prime_pizza_backend.Auth.SignedIn.Answers.{
  has_id, any-save, found-saved, any-found, Signed, Signed-Accepts, answer_with, issue-Signed,
  Synced, chef_synced-Synced, still_drawn, active_account-ok,
}
use prime_pizza_backend.Auth.SignedIn.Login.{login-Signed}
use prime_pizza_backend.Auth.SignedIn.Register.{register-Signed}
use prime_pizza_backend.Auth.SignedIn.Refresh.{refresh-Signed}

pub data SignIn : Type 0 where
  login_with : LoginRequest → Option Text → SignIn
  register_with : RegisterRequest → Option Text → SignIn
  refresh_with : Text → SignIn

-- Every id in the store has been drawn.
pub record Drawn (w : AuthWorld) : Type 0 where
  pub revoked : DrawnRevoked w
  pub stored : Known w
  pub accounts : All (λ a. a.user.id < w.random) w.users

module _ (crypto : Crypto) (settings : AuthSettings) where
  unfoldable pub sign_in : SignIn → Auth AuthResponse
  sign_in (login_with payload ip) = login crypto settings payload ip
  sign_in (register_with payload ip) = register crypto settings payload ip
  sign_in (refresh_with token) = refresh crypto settings token

  sign_in-Signed :
      (s : SignIn) (w w' : AuthWorld) (r : AuthResponse)
      → Drawn w
      → sign_in s w ≡ (ok r, w')
      → Signed crypto settings r w'
  unfolding sign_in
  sign_in-Signed (login_with payload ip) w w' r d e =
      login-Signed crypto settings payload ip w w' r d.revoked e
  sign_in-Signed (register_with payload ip) w w' r d e =
      register-Signed crypto settings payload ip w w' r d.revoked d.accounts e
  sign_in-Signed (refresh_with token) w w' r d e =
      refresh-Signed crypto settings token w w' r d.revoked d.stored e

  -- Where a token is decoded to its claims until it expires, and every id in the store was drawn
  -- before: the access token that a login, a registration or a refresh gives is accepted, as a
  -- bearer token and for as long as it has not expired, and stands for the user that the answer
  -- showed.
  pub sign_in-Accepts :
      (s : SignIn) (w w' : AuthWorld) (r : AuthResponse) (seconds : ℕ)
      → IsFaithful crypto
      → Drawn w
      → sign_in s w ≡ (ok r, w')
      → seconds < settings.access_token_expire_minutes * 60
      → Accepts crypto r.tokens.access_token r.user (after seconds w')
  sign_in-Accepts s w w' r seconds faithful d e soon =
      Signed-Accepts crypto settings r w' seconds faithful (sign_in-Signed s w w' r d e) soon
