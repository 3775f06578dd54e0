-- ===== src/Tests/Sessions.antt =====
-- A session of one account.
use prime_pizza_backend.Base.{
  ℕ, ◌+◌, ◌*◌, ◌≡◌, ◌≢◌, arith, refl, true, false, none, some, List, [], ◌∷◌,
}
use prime_pizza_backend.Base.Exec.{Result, ok, err}
use prime_pizza_backend.Text.{Text, codes, text_eq, lower, strip}
use prime_pizza_backend.Authorization.Roles.{is_chef_email}
use prime_pizza_backend.Auth.State.{
  one_second, get_by_email, get_by_id, Account, StoredToken, AuthWorld,
}
use prime_pizza_backend.Auth.Sessions.{Limit}
use prime_pizza_backend.Auth.Tokens.{
  verify_password, Claims, Decoded, valid, jwt_error, Crypto, claims_of,
}
use prime_pizza_backend.Auth.Service.{
  AuthSettings, AuthResponse, LoginRequest, login, refresh, chef_synced,
}
use prime_pizza_backend.Auth.Calls.{AuthCall, refresh_call, logout_call, time_passes, auth_calls}
use prime_pizza_backend.Auth.Revocation.{refresh_once}
use prime_pizza_backend.Auth.Issued.{Accepts, after, later, bearer_of}
use prime_pizza_backend.Auth.Requests.{get_token_payload}
use prime_pizza_backend.Auth.Service.{logout}
use prime_pizza_backend.Auth.Logout.{logout_ends}
use prime_pizza_backend.Auth.SignedIn.{login_with, sign_in, sign_in-Accepts}
use prime_pizza_backend.Errors.{AppException, invalid_token_exception, text}
use prime_pizza_backend.Tests.Signatures.{plain, plain-IsFaithful}
use prime_pizza_backend.Tests.Fixtures.{ana}

abbrev ana_claims : ℕ → Claims
ana_claims jti = claims_of ana "refresh" 0 1000 jti

-- A token is its id.
abbrev toy_encode : Claims → Text
toy_encode c = elim c.jti [ some jti ↦ jti ∷ [] | none ↦ [] ]

abbrev toy_decode : ℕ → Text → Decoded
toy_decode now (jti ∷ []) = valid (ana_claims jti)
toy_decode now _ = jwt_error

abbrev toy : Crypto
toy = record {
  encode = toy_encode;
  decode = toy_decode;
  hashpw = λ salt password. password;
  checkpw = λ plain hashed. true;
}

abbrev few : Limit
few = record { limit = 10; window_seconds = 60 }

abbrev auth_settings : AuthSettings
auth_settings = record {
  access_token_expire_minutes = 15;
  refresh_token_expire_days = 7;
  chef_email = codes "cook@prime.pizza";
  chef_password = codes "Secret123";
  login_limit = few;
  register_limit = few;
  ip_limit = few;
}

abbrev ana_account : Account
ana_account = record {
  user = ana;
  first_name = codes "Ana";
  last_name = codes "A";
  password_hash = codes "hash";
  last_login = none;
  deleted = false;
}

abbrev ana_token : StoredToken
ana_token = record { jti = 4; user_id = ana.id; expires_at = 1000 * one_second }

abbrev signed_in : AuthWorld
signed_in = record {
  users = ana_account ∷ [];
  committed = ana_account ∷ [];
  redis = record { is_up = true; refresh_tokens = ana_token ∷ []; blacklist = []; counters = [] };
  now = 10 * one_second + 500000;
  random = 5;
}

abbrev rotated : AuthResponse
rotated = record {
  user = ana;
  tokens = record { access_token = 5 ∷ []; refresh_token = 6 ∷ []; expires_in = 900 };
  is_new_user = false;
}

abbrev requests_after : List AuthCall
requests_after = refresh_call (6 ∷ []) ∷ time_passes 5 ∷ logout_call none (some (8 ∷ [])) ∷ []

refresh_once_example :
    (refresh toy auth_settings (4 ∷ []) (
      auth_calls toy auth_settings requests_after
        (refresh toy auth_settings (4 ∷ []) signed_in).1)).0
    ≢ ok rotated
unfolding refresh auth_calls text_eq get_by_id is_chef_email lower strip chef_synced
refresh_once_example =
    refresh_once toy auth_settings signed_in (4 ∷ []) (4 ∷ []) requests_after (ana_claims 4)
      (ana_claims 4) rotated rotated (omega arith, tt) refl refl refl refl

abbrev ana_login : LoginRequest
ana_login = record { email = codes "ana@pizza.pk"; password = codes "hash" }

-- Ana's account, with the password as plain text.
abbrev signed_out : AuthWorld
signed_out = record signed_in {
  users = record ana_account { password_hash = 7 ∷ codes "hash" } ∷ [];
}

abbrev signed : Result AppException AuthResponse × AuthWorld
signed = sign_in plain auth_settings (login_with ana_login none) signed_out

abbrev answer_or : Result AppException AuthResponse → AuthResponse
answer_or (ok r) = r
answer_or (err e) = rotated

sign_in-Accepts_example :
    Accepts plain (answer_or signed.0).tokens.access_token ana (after 800 signed.1)
unfolding sign_in login get_by_email verify_password chef_synced is_chef_email
sign_in-Accepts_example =
    sign_in-Accepts plain auth_settings (login_with ana_login none) signed_out signed.1
      (answer_or signed.0) 800 plain-IsFaithful
      (record { revoked = tt; stored = (omega arith, tt); accounts = (omega arith, tt) }) refl
      (omega arith)

-- Ana signs in and signs out again.
abbrev access_claims : Claims
access_claims = claims_of ana "access" (10 * one_second + 500000) 900 5

abbrev refresh_claims : Claims
refresh_claims = claims_of ana "refresh" (10 * one_second + 500000) 604800 6

abbrev rest_of : Text → Text
rest_of [] = []
rest_of (c ∷ s) = s

abbrev out : Result AppException (Unit {0}) × AuthWorld
out =
    logout plain auth_settings (some access_claims)
      (some (2 ∷ rest_of (plain.encode refresh_claims))) signed.1

abbrev tries : List AuthCall
tries = time_passes 50 ∷ refresh_call (plain.encode refresh_claims) ∷ []

logout_ends_example :
    (out.0 ≡ ok tt)
    × (get_token_payload plain
          (bearer_of (plain.encode access_claims))
          (later (898 * one_second) out.1)
        ≡ (
          err (invalid_token_exception (text "Token has been revoked")),
          later (898 * one_second) out.1,
        ))
    × ((refresh plain auth_settings
          (plain.encode refresh_claims)
          (auth_calls plain auth_settings tries out.1)).0
        ≢ ok rotated)
unfolding sign_in login logout auth_calls refresh get_by_email verify_password chef_synced
    is_chef_email
logout_ends_example =
    logout_ends plain auth_settings signed.1 access_claims refresh_claims 5 910 6 2
      (rest_of (plain.encode refresh_claims)) (plain.encode access_claims) access_claims
      (898 * one_second) (plain.encode refresh_claims) tries refresh_claims rotated refl refl refl
      refl refl refl (λ e. omega (arith, e)) (omega arith) (omega arith) refl refl refl refl refl
