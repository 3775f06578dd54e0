-- ===== src/Auth/Service.antt =====
-- `AuthService` (app/services/auth.py). Mail and the copy of the user to the data mirror come after
-- the commit and swallow their failures; they are left out.
use prime_pizza_backend.Base.{
  ℕ, zero, suc, ◌*◌, Bool, true, false, not, Option, none, some, List, [], ◌∷◌, ◌++◌, ◌==◌, is_some,
  if◌then◌else◌,
}
use prime_pizza_backend.Base.Exec.{ok, pure, raise, gets, modify, or_raise, raise_if, ◌>>=◌, ◌>>◌}
use prime_pizza_backend.Text.{Text, codes, strip, lower}
use prime_pizza_backend.Errors.{
  unauthorized_exception, conflict_exception, validation_exception, invalid_token_exception, text,
}
use prime_pizza_backend.Enums.{UserRole, customer, chef}
use prime_pizza_backend.Models.{User}
use prime_pizza_backend.Authorization.Roles.{is_chef_email}
use prime_pizza_backend.Auth.State.{
  Account, Auth, draw, commit_users, get_by_email, get_by_phone, get_by_id, save_account,
}
use prime_pizza_backend.Auth.Sessions.{
  Limit, enforce_login_rate_limit, enforce_register_rate_limit, store_refresh_token,
  consume_refresh_token, revoke_refresh_token, blacklist_token, is_blacklisted,
}
use prime_pizza_backend.Auth.Tokens.{
  Crypto, Claims, decode_token, get_remaining_ttl_seconds, create_token_pair, verify_password,
}

-- The settings that the service reads.
pub record AuthSettings : Type 0 where
  pub access_token_expire_minutes : ℕ
  pub refresh_token_expire_days : ℕ
  pub chef_email : Text
  pub chef_password : Text
  pub login_limit : Limit
  pub register_limit : Limit
  pub ip_limit : Limit

pub record RegisterRequest : Type 0 where
  pub first_name : Text
  pub last_name : Text
  pub email : Text
  pub password : Text
  pub phone_number : Option Text

pub record LoginRequest : Type 0 where
  pub email : Text
  pub password : Text

pub record TokenPairResponse : Type 0 where
  pub access_token : Text
  pub refresh_token : Text
  pub expires_in : ℕ

pub record AuthResponse : Type 0 where
  pub user : User
  pub tokens : TokenPairResponse
  pub is_new_user : Bool

abbrev pub no_text : Text → Bool
no_text [] = true
no_text (_ ∷ _) = false

-- `payload.phone_number and await get_by_phone(…) is not None`
abbrev pub phone_taken : List Account → Option Text → Bool
phone_taken users none = false
phone_taken users (some []) = false
phone_taken users (some (c ∷ s)) = is_some (get_by_phone users (c ∷ s))

-- `create_registered_user`
unfoldable pub registered_user :
    ℕ → ℕ → Text → Text → Text → Text → UserRole → Option Text → Account
registered_user user_id now first_name last_name email password_hash role phone_number = record {
  user = record {
    id = user_id;
    email = lower (strip email);
    full_name = strip (strip first_name ++ codes " " ++ strip last_name);
    phone_number = phone_number;
    role = role;
    is_active = true;
    is_verified = true;
  };
  first_name = strip first_name;
  last_name = strip last_name;
  password_hash = password_hash;
  last_login = some now;
  deleted = false;
}

abbrev pub active_account : Option Account → Option Account
active_account none = none
active_account (some account) = if account.user.is_active then some account else none

-- The claim `jti` as text: null and the empty text are the same.
abbrev pub need_jti : Option ℕ → Auth ℕ
need_jti none = raise (invalid_token_exception (text "Refresh token missing jti"))
need_jti (some jti) = pure jti

-- `payload.get("user_id") or payload.get("sub")`
abbrev pub subject : Claims → Option ℕ
subject claims = elim claims.user_id [ some user_id ↦ some user_id | none ↦ claims.sub ]

module _ (crypto : Crypto) (settings : AuthSettings) where
  -- `_sync_chef_role_if_needed`: the row that it leaves
  unfoldable pub chef_synced : Account → Text → Account
  chef_synced account email =
      if is_chef_email settings.chef_email email
      then record account {
        user = record account.user { role = chef; is_verified = true; is_active = true };
      }
      else account

  unfoldable pub sync_chef_role_if_needed : Account → Text → Auth Account
  sync_chef_role_if_needed account email = do
    modify (save_account (chef_synced account email))
    pure (chef_synced account email)

  -- `_issue_tokens`
  unfoldable pub issue_tokens : User → Auth TokenPairResponse
  unfolding create_token_pair store_refresh_token
  issue_tokens user = do
    raise_if (no_text user.email)
        (validation_exception (text "User email is required for token issuance"))
    pair ←
        create_token_pair crypto settings.access_token_expire_minutes
          settings.refresh_token_expire_days user
    store_refresh_token pair.refresh_jti user.id (settings.refresh_token_expire_days * 24 * 60 * 60)
    pure record {
      access_token = pair.access;
      refresh_token = pair.refresh;
      expires_in = settings.access_token_expire_minutes * 60;
    }

  unfoldable pub register : RegisterRequest → Option Text → Auth AuthResponse
  unfolding enforce_register_rate_limit issue_tokens
  register payload client_ip = do
    enforce_register_rate_limit settings.register_limit settings.ip_limit
        (lower (strip payload.email)) client_ip
    users ← gets (λ w. w.users)
    raise_if (is_some (get_by_email users (lower (strip payload.email))))
        (conflict_exception (text "An account with this email already exists"))
    raise_if (phone_taken users payload.phone_number)
        (conflict_exception (text "An account with this phone number already exists"))
    salt ← draw
    user_id ← draw
    now ← gets (λ w. w.now)
    account ← pure (
        registered_user user_id now payload.first_name payload.last_name
          (lower (strip payload.email)) (crypto.hashpw salt payload.password) customer
          payload.phone_number)
    modify (λ w. record w { users = w.users ++ account ∷ [] })
    commit_users
    tokens ← issue_tokens account.user
    pure record { user = account.user; tokens = tokens; is_new_user = true }

  -- `mark_login`
  abbrev pub mark_login : ℕ → Account → Account
  mark_login now account = record account {
    user = record account.user { is_verified = true };
    last_login = some now;
  }

  -- From the password on.
  unfoldable pub log_in : Account → Text → Auth AuthResponse
  unfolding issue_tokens sync_chef_role_if_needed
  log_in account email = do
    account ← sync_chef_role_if_needed account email
    now ← gets (λ w. w.now)
    modify (save_account (mark_login now account))
    commit_users
    tokens ← issue_tokens (mark_login now account).user
    pure record { user = (mark_login now account).user; tokens = tokens; is_new_user = false }

  unfoldable pub login : LoginRequest → Option Text → Auth AuthResponse
  unfolding enforce_login_rate_limit log_in
  login payload client_ip = do
    enforce_login_rate_limit settings.login_limit settings.ip_limit (lower (strip payload.email))
        client_ip
    account ← (λ w.
        or_raise (active_account (get_by_email w.users (lower (strip payload.email))))
          (unauthorized_exception (text "Invalid email or password")) w)
    raise_if (not (verify_password crypto payload.password account.password_hash))
        (unauthorized_exception (text "Invalid email or password"))
    log_in account (lower (strip payload.email))

  -- `str(user_id) != str(stored_user_id)`, with both present
  abbrev pub same_subject : Option ℕ → ℕ → Option ℕ
  same_subject none stored = none
  same_subject (some user_id) stored = if user_id == stored then some user_id else none

  -- `refresh`, from the account on
  unfoldable pub rotate : Claims → ℕ → Account → Auth AuthResponse
  unfolding issue_tokens sync_chef_role_if_needed blacklist_token
  rotate claims jti account = do
    account ← sync_chef_role_if_needed account account.user.email
    modify (λ w.
        if is_chef_email settings.chef_email account.user.email
        then record w { committed = w.users }
        else w)
    now ← gets (λ w. w.now)
    blacklist_token jti (get_remaining_ttl_seconds now claims.exp)
    tokens ← issue_tokens account.user
    pure record { user = account.user; tokens = tokens; is_new_user = false }

  -- `refresh`, from the stored token on
  unfoldable pub refresh_stored : Claims → ℕ → Option ℕ → Auth AuthResponse
  unfolding rotate
  refresh_stored claims jti none =
      raise (invalid_token_exception (text "Refresh token is not recognized"))
  refresh_stored claims jti (some stored) = do
    user_id ←
        or_raise (same_subject (subject claims) stored)
          (invalid_token_exception (text "Refresh token subject mismatch"))
    account ← (λ w.
        or_raise (active_account (get_by_id w.users user_id))
          (unauthorized_exception (text "User not found or inactive")) w)
    rotate claims jti account

  unfoldable pub refresh : Text → Auth AuthResponse
  unfolding decode_token is_blacklisted consume_refresh_token refresh_stored
  refresh refresh_token = do
    claims ← decode_token crypto refresh_token (codes "refresh")
    jti ← need_jti claims.jti
    revoked ← is_blacklisted jti
    raise_if revoked (invalid_token_exception (text "Refresh token has been revoked"))
    stored ← consume_refresh_token jti
    refresh_stored claims jti stored

  -- `if ttl > 0: blacklist_token(…)`
  abbrev pub blacklist_rest : ℕ → ℕ → Auth (Unit {0})
  blacklist_rest jti zero = pure tt
  blacklist_rest jti (suc ttl) = blacklist_token jti (suc ttl)

  abbrev pub logout_access : Option Claims → Auth (Unit {0})
  logout_access none = pure tt
  logout_access (some claims) = elim claims.jti [
    | none ↦ pure tt
    | some jti ↦ λ w. blacklist_rest jti (get_remaining_ttl_seconds w.now claims.exp) w
  ]

  abbrev pub revoke : Claims → Auth (Unit {0})
  revoke claims = elim claims.jti [
    | none ↦ pure tt
    | some jti ↦ do
      revoke_refresh_token jti
      now ← gets (λ w. w.now)
      blacklist_rest jti (get_remaining_ttl_seconds now claims.exp)
  ]

  -- `except Exception`: what was done before stays.
  abbrev pub swallow : Auth (Unit {0}) → Auth (Unit {0})
  swallow m w = (ok tt, (m w).1)

  abbrev pub logout_refresh : Option Text → Auth (Unit {0})
  logout_refresh none = pure tt
  logout_refresh (some []) = pure tt
  logout_refresh (some (c ∷ s)) = swallow (decode_token crypto (c ∷ s) (codes "refresh") >>= revoke)

  unfoldable pub logout : Option Claims → Option Text → Auth (Unit {0})
  unfolding decode_token revoke_refresh_token blacklist_token get_remaining_ttl_seconds
  logout access_payload refresh_token = do
    logout_access access_payload
    logout_refresh refresh_token
