-- ===== src/Auth/Requests.antt =====
-- The dependencies of an endpoint that needs a user (app/dependencies/auth.py). The role of a token
-- is only logged.
use prime_pizza_backend.Base.{ℕ, false, not, Bool, Option, none, some, if◌then◌else◌}
use prime_pizza_backend.Base.Exec.{pure, or_raise, raise_if, ◌>>=◌, ◌>>◌}
use prime_pizza_backend.Text.{Text, codes, text_eq, lower}
use prime_pizza_backend.Errors.{unauthorized_exception, invalid_token_exception, text}
use prime_pizza_backend.Models.{User}
use prime_pizza_backend.Auth.State.{Auth, get_by_id}
use prime_pizza_backend.Auth.Sessions.{is_blacklisted}
use prime_pizza_backend.Auth.Tokens.{Crypto, Claims, decode_token}
use prime_pizza_backend.Auth.Service.{active_account, subject}

pub record Credentials : Type 0 where
  pub scheme : Text
  pub credentials : Text

abbrev pub bearer : Option Credentials → Option Text
bearer none = none
bearer (some c) = if text_eq (lower c.scheme) (codes "bearer") then some c.credentials else none

-- `if jti and await is_blacklisted(jti)`
abbrev pub is_revoked : Option ℕ → Auth Bool
is_revoked none = pure false
is_revoked (some jti) = is_blacklisted jti

unfoldable pub get_token_payload : Crypto → Option Credentials → Auth Claims
unfolding decode_token is_blacklisted
get_token_payload crypto credentials = do
  token ← or_raise (bearer credentials) (unauthorized_exception (text "Authentication required"))
  payload ← decode_token crypto token (codes "access")
  revoked ← is_revoked payload.jti
  raise_if revoked (invalid_token_exception (text "Token has been revoked"))
  pure payload

unfoldable pub get_current_user : Claims → Auth User
get_current_user payload = do
  user_id ← or_raise (subject payload) (invalid_token_exception (text "Token missing subject"))
  account ← (λ w.
      or_raise (active_account (get_by_id w.users user_id))
        (unauthorized_exception (text "User not found or inactive")) w)
  pure account.user

unfoldable pub get_verified_user : Claims → Auth User
unfolding get_current_user
get_verified_user payload = do
  user ← get_current_user payload
  raise_if (not user.is_verified) (unauthorized_exception (text "Account verification required"))
  pure user
