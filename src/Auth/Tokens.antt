-- ===== src/Auth/Tokens.antt =====
-- `JWTService` (app/security/jwt.py), `hash_password` and `verify_password`.
use prime_pizza_backend.Base.{
  ℕ, String, ◌+◌, ◌-◌, ◌*◌, ◌/◌, Bool, false, Option, none, some, [], ◌∷◌, if◌then◌else◌,
}
use prime_pizza_backend.Base.Exec.{Result, ok, err, pure, gets, ◌>>=◌}
use prime_pizza_backend.Text.{Text, codes, text_eq}
use prime_pizza_backend.Errors.{
  AppException, expired_token_exception, invalid_token_exception, text, with_text,
}
use prime_pizza_backend.Models.{User}
use prime_pizza_backend.Authorization.Roles.{role_value}
use prime_pizza_backend.Auth.State.{Auth, draw, one_second}

-- The claims of a token, of which any may be missing from a foreign one. `iat` and `exp` are whole
-- seconds.
pub record Claims : Type 0 where
  pub sub : Option ℕ
  pub user_id : Option ℕ
  pub email : Text
  pub phone_number : Option Text
  pub role : Text
  pub token_type : Option Text
  pub iat : ℕ
  pub exp : Option ℕ
  pub jti : Option ℕ

-- What `jwt.decode` gives: the claims, `ExpiredSignatureError`, or another `JWTError`.
pub data Decoded : Type 0 where
  valid : Claims → Decoded
  expired_signature : Decoded
  jwt_error : Decoded

-- The third-party functions: `jwt.encode` and `jwt.decode` under the program's key, the latter at a
-- time, and bcrypt's `hashpw`, with a salt, and `checkpw`.
pub record Crypto : Type 0 where
  pub encode : Claims → Text
  pub decode : ℕ → Text → Decoded
  pub hashpw : ℕ → Text → Text
  pub checkpw : Text → Text → Bool

abbrev has_type : Option Text → Text → Bool
has_type none expected = false
has_type (some t) expected = text_eq t expected

unfoldable pub checked_claims : Text → Decoded → Result AppException Claims
checked_claims expected expired_signature = err (expired_token_exception (text "Token has expired"))
checked_claims expected jwt_error = err (invalid_token_exception (text "Invalid token"))
checked_claims expected (valid claims) =
    if has_type claims.token_type expected
    then ok claims
    else err (invalid_token_exception (with_text "Expected a " expected " token"))

-- `decode_token`, with an expected type
unfoldable pub decode_token : Crypto → Text → Text → Auth Claims
unfolding checked_claims
decode_token crypto token expected w = (checked_claims expected (crypto.decode w.now token), w)

-- `int` drops the part of a second: the claim is in whole seconds, the clock is not.
unfoldable pub get_remaining_ttl_seconds : ℕ → Option ℕ → ℕ
get_remaining_ttl_seconds now none = 0
get_remaining_ttl_seconds now (some exp) = (exp * one_second - now) / one_second

pub record TokenPair : Type 0 where
  pub access : Text
  pub refresh : Text
  pub access_jti : ℕ
  pub refresh_jti : ℕ

-- `jwt.encode` turns times into whole seconds.
abbrev pub claims_of : User → String → ℕ → ℕ → ℕ → Claims
claims_of user token_type now lifetime jti = record {
  sub = some user.id;
  user_id = some user.id;
  email = user.email;
  phone_number = user.phone_number;
  role = role_value user.role;
  token_type = some (codes token_type);
  iat = now / one_second;
  exp = some ((now + lifetime * one_second) / one_second);
  jti = some jti;
}

-- `create_token_pair`, with the settings' lifetimes in minutes and in days
unfoldable pub create_token_pair : Crypto → ℕ → ℕ → User → Auth TokenPair
create_token_pair crypto access_minutes refresh_days user = do
  now ← gets (λ w. w.now)
  access_jti ← draw
  refresh_jti ← draw
  pure record {
    access = crypto.encode (claims_of user "access" now (access_minutes * 60) access_jti);
    refresh =
        crypto.encode (claims_of user "refresh" now (refresh_days * 24 * 60 * 60) refresh_jti);
    access_jti = access_jti;
    refresh_jti = refresh_jti;
  }

-- `if not hashed_password: return False`
unfoldable pub verify_password : Crypto → Text → Text → Bool
verify_password crypto plain [] = false
verify_password crypto plain (c ∷ hashed) = crypto.checkpw plain (c ∷ hashed)
