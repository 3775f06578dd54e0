-- ===== src/Auth/Issued.antt =====
-- The tokens that `AuthService._issue_tokens` gives out, and the requests made with them.
use prime_pizza_backend.Base.{
  ℕ, ◌+◌, ◌*◌, ◌/◌, ◌<◌, ◌≡◌, refl, inl, inr, true, false, ◌&&◌, Option, some, List, [], ◌∷◌, arith,
  ◌==◌, any, Bool-cases, All, ltb,
}
use prime_pizza_backend.Base.Exec.{ok}
use prime_pizza_backend.Text.{Text, codes, text_eq, lower}
use prime_pizza_backend.Models.{User}
use prime_pizza_backend.Auth.State.{one_second, Account, Revoked, AuthWorld, get_by_id}
use prime_pizza_backend.Auth.Sessions.{store_refresh_token, is_blacklisted}
use prime_pizza_backend.Auth.Tokens.{
  Crypto, Claims, valid, claims_of, create_token_pair, decode_token, checked_claims,
}
use prime_pizza_backend.Auth.Service.{AuthSettings, TokenPairResponse, issue_tokens, no_text}
use prime_pizza_backend.Auth.Requests.{Credentials, get_token_payload, get_current_user}

-- Every revoked id has been drawn.
abbrev pub DrawnRevoked : AuthWorld → Type 0
DrawnRevoked w = All (λ r. r.jti < w.random) w.redis.blacklist

-- A token that was encoded is decoded to its claims until it expires.
abbrev pub IsFaithful : Crypto → Type 0
IsFaithful crypto =
    (c : Claims) (now exp : ℕ)
    → c.exp ≡ some exp
    → now < exp * one_second
    → crypto.decode now (crypto.encode c) ≡ valid c

-- A user has signed in: the tokens are for the user's account, and the refresh token is stored.
pub record Issued (crypto : Crypto) (settings : AuthSettings) (user : User) (w : AuthWorld)
    (tokens : TokenPairResponse) (w' : AuthWorld) : Type 0 where
  pub access :
      tokens.access_token
      ≡ crypto.encode
          (claims_of user "access" w.now (settings.access_token_expire_minutes * 60) w.random)
  pub is_up : w'.redis.is_up ≡ true
  pub same_users : w'.users ≡ w.users
  pub same_blacklist : w'.redis.blacklist ≡ w.redis.blacklist
  pub same_now : w'.now ≡ w.now

module _ (crypto : Crypto) (settings : AuthSettings) where
  pub issue_tokens-Issued :
      (user : User) (w w' : AuthWorld) (tokens : TokenPairResponse)
      → issue_tokens crypto settings user w ≡ (ok tokens, w')
      → Issued crypto settings user w tokens w'
  unfolding issue_tokens create_token_pair store_refresh_token
  issue_tokens-Issued user w w' tokens e = elim (Bool-cases (no_text user.email)) [
    | inl empty ↦ absurd (ground arith)
    | inr full ↦ elim (Bool-cases w.redis.is_up) [
      | inl up ↦ record {
        access = ground arith;
        is_up = ground arith;
        same_users = ground arith;
        same_blacklist = ground arith;
        same_now = ground arith;
      }
      | inr down ↦ absurd (ground arith)
    ]
  ]

not_revoked :
    (jti now : ℕ) (l : List Revoked)
    → All (λ r. r.jti < jti) l
    → any (λ r. r.jti == jti && ltb now r.expires_at) l ≡ false
not_revoked jti now [] h = refl
not_revoked jti now (r ∷ l) (h, hs) = ground (arith, not_revoked jti now l)

abbrev pub bearer_of : Text → Option Credentials
bearer_of token = some record { scheme = codes "Bearer"; credentials = token }

abbrev pub later : ℕ → AuthWorld → AuthWorld
later elapsed w = record w { now = w.now + elapsed }

abbrev pub after : ℕ → AuthWorld → AuthWorld
after seconds w = record w { now = w.now + seconds * one_second }

module _ (crypto : Crypto) where
  payload_run :
      (w : AuthWorld) (token : Text) (c : Claims) (jti : ℕ)
      → crypto.decode w.now token ≡ valid c
      → c.token_type ≡ some (codes "access")
      → c.jti ≡ some jti
      → w.redis.is_up ≡ true
      → any (λ r. r.jti == jti && ltb w.now r.expires_at) w.redis.blacklist ≡ false
      → get_token_payload crypto (bearer_of token) w ≡ (ok c, w)
  unfolding get_token_payload decode_token checked_claims is_blacklisted text_eq lower
  payload_run w token c jti d t j up clear = ground arith

  current_run :
      (w : AuthWorld) (c : Claims) (account : Account)
      → c.user_id ≡ some account.user.id
      → get_by_id w.users account.user.id ≡ some account
      → account.user.is_active ≡ true
      → get_current_user c w ≡ (ok account.user, w)
  unfolding get_current_user
  current_run w c account u found active = ground arith

  -- The user behind a token, as the dependencies of an endpoint find it.
  pub record Accepts (token : Text) (user : User) (w : AuthWorld) : Type 0 where
    pub claims : Claims
    pub payload : get_token_payload crypto (bearer_of token) w ≡ (ok claims, w)
    pub current : get_current_user claims w ≡ (ok user, w)

  pub Issued-Accepts :
      (settings : AuthSettings) (account : Account) (w w' : AuthWorld) (tokens : TokenPairResponse)
      (seconds : ℕ)
      → IsFaithful crypto
      → DrawnRevoked w
      → Issued crypto settings account.user w tokens w'
      → get_by_id w'.users account.user.id ≡ some account
      → account.user.is_active ≡ true
      → seconds < settings.access_token_expire_minutes * 60
      → Accepts tokens.access_token account.user (after seconds w')
  Issued-Accepts settings account w w' tokens seconds faithful drawn i found active soon =
      let life = settings.access_token_expire_minutes * 60 in
      let c = claims_of account.user "access" w.now life w.random in
      let decoded : crypto.decode (w'.now + seconds * one_second) tokens.access_token ≡ valid c =
        rw (i.access, i.same_now)
          (faithful c (w.now + seconds * one_second) ((w.now + life * one_second) / one_second) refl
            (omega (arith, soon))) in
      let clear : any (λ r. r.jti == w.random && ltb (w'.now + seconds * one_second) r.expires_at)
            w'.redis.blacklist
          ≡ false =
        rw i.same_blacklist
          (not_revoked w.random (w'.now + seconds * one_second) w.redis.blacklist drawn) in
      record {
        claims = c;
        payload =
            payload_run (after seconds w') tokens.access_token c w.random decoded refl refl i.is_up
              clear;
        current = current_run (after seconds w') c account refl found active;
      }
