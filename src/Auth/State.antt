-- ===== src/Auth/State.antt =====
-- What authentication works on: the rows of app/models/user.py with their passwords, and the keys
-- of app/repositories/redis_auth.py.
use prime_pizza_backend.Base.{
  ℕ, ◌+◌, Bool, not, ◌&&◌, Option, none, some, List, ◌==◌, find_first, update_where,
}
use prime_pizza_backend.Base.Exec.{Exec, gets, modify, ◌>>=◌, ◌>>◌, pure}
use prime_pizza_backend.Text.{Text, text_eq, strip, lower}
use prime_pizza_backend.Errors.{AppException}
use prime_pizza_backend.Models.{User}

-- A second, in microseconds
abbrev pub one_second : ℕ
one_second = 1000000

pub record Account : Type 0 where
  pub user : User
  pub first_name : Text
  pub last_name : Text
  pub password_hash : Text
  pub last_login : Option ℕ
  pub deleted : Bool

-- `auth:refresh:{jti}`
pub record StoredToken : Type 0 where
  pub jti : ℕ
  pub user_id : ℕ
  pub expires_at : ℕ

-- `auth:blacklist:{jti}`
pub record Revoked : Type 0 where
  pub jti : ℕ
  pub expires_at : ℕ

-- `auth:rate:login:{identity}`, `auth:rate:register:{identity}` and `auth:rate:ip:{ip}`
pub data RateKey : Type 0 where
  login_rate_key : Text → RateKey
  register_rate_key : Text → RateKey
  ip_auth_rate_key : Text → RateKey

pub record Counter : Type 0 where
  pub key : RateKey
  pub count : ℕ
  pub expires_at : ℕ

-- A key that has expired may still be in its list; every read leaves it out.
pub record AuthRedis : Type 0 where
  pub is_up : Bool
  pub refresh_tokens : List StoredToken
  pub blacklist : List Revoked
  pub counters : List Counter

-- Token ids, salts and keys of rows are random in the source; here `random` is the next of them.
-- Times are microseconds, the precision of the program's clock.
pub record AuthWorld : Type 0 where
  pub users : List Account
  pub committed : List Account
  pub redis : AuthRedis
  pub now : ℕ
  pub random : ℕ

abbrev pub Auth : Type 0 → Type 0
Auth A = Exec AuthWorld AppException A

abbrev pub draw : Auth ℕ
draw = do i ← gets (λ w. w.random); modify (λ w. record w { random = i + 1 }); pure i

abbrev pub commit_users : Auth (Unit {0})
commit_users = modify λ w. record w { committed = w.users }

abbrev pub users_rolled_back : AuthWorld → AuthWorld
users_rolled_back w = record w { users = w.committed }

-- `UserRepository`
unfoldable pub get_by_email : List Account → Text → Option Account
unfolding text_eq strip lower
get_by_email users email =
    find_first (λ a. text_eq a.user.email (lower (strip email)) && not a.deleted) users

abbrev has_phone : Text → Option Text → Bool
has_phone phone none = Bool.false
has_phone phone (some p) = text_eq p phone

unfoldable pub get_by_phone : List Account → Text → Option Account
unfolding text_eq
get_by_phone users phone =
    find_first (λ a. has_phone phone a.user.phone_number && not a.deleted) users

-- `BaseRepository.get_by_id`
unfoldable pub get_by_id : List Account → ℕ → Option Account
get_by_id users user_id = find_first (λ a. a.user.id == user_id && not a.deleted) users

abbrev pub save_account : Account → AuthWorld → AuthWorld
save_account account w = record w {
  users = update_where (λ a. a.user.id == account.user.id) (λ _. account) w.users;
}
