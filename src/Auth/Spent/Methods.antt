-- ===== src/Auth/Spent/Methods.antt =====
-- The methods of `AuthService`, and the ids of tokens that are not stored.
use prime_pizza_backend.Base.{
  ℕ, ◌<◌, refl, inl, inr, Option, none, some, List, [], ◌∷◌, zero, suc, Bool-cases, Option-cases,
}
use prime_pizza_backend.Base.Exec.{Result, ok, err, ◌>>=◌, ◌>>◌}
use prime_pizza_backend.Base.Hoare.{Good, Safe-bind}
use prime_pizza_backend.Text.{Text, codes, text_eq}
use prime_pizza_backend.Errors.{AppException}
use prime_pizza_backend.Models.{User}
use prime_pizza_backend.Auth.State.{Account, AuthWorld, Auth, users_rolled_back}
use prime_pizza_backend.Auth.Sessions.{
  Limit, enforce_ip, enforce_login_rate_limit, enforce_register_rate_limit, store_refresh_token,
}
use prime_pizza_backend.Auth.Tokens.{Crypto, Claims, TokenPair, decode_token, create_token_pair}
use prime_pizza_backend.Auth.Service.{
  AuthSettings, RegisterRequest, LoginRequest, need_jti, issue_tokens, register, login, refresh,
  logout, sync_chef_role_if_needed, revoke, logout_access, logout_refresh, blacklist_rest, log_in,
  rotate, refresh_stored,
}
use prime_pizza_backend.Auth.Calls.{
  Spent, AuthCall, register_call, login_call, refresh_call, logout_call, time_passes, redis_turns,
  closed, auth_call, auth_calls,
}
use prime_pizza_backend.Auth.Spent.{
  Keeps, then-Spent, Spent-same, enforce_limit-Spent, consume-Spent, revoke-Spent, blacklist-Spent,
  is_blacklisted-Spent, store-Spent, still, ask-Spent, raise_if-Spent, pure-Spent, gets-Spent,
  raise-Spent, or_raise-Spent, commit-Spent, commit_if-Spent, save-Spent, append-Spent, draw-Keeps,
  swallow-Spent, pair-Spent,
}

module _ (jti : ℕ) where
  module _ (crypto : Crypto) (settings : AuthSettings) where
    -- What is drawn last is stored.
    mint-Spent :
        {B : Type 0} (minutes days ttl : ℕ) (user : User) (k : TokenPair → Auth B)
        → ((p : TokenPair) → Keeps jti (k p))
        → Keeps jti (
            create_token_pair crypto minutes days user >>= λ pair.
            store_refresh_token pair.refresh_jti user.id ttl >> k pair)
    mint-Spent minutes days ttl user k hk =
        Safe-bind (Spent jti) (λ (p : TokenPair). jti < p.refresh_jti) (λ _. Unit {0})
          (create_token_pair crypto minutes days user)
          (λ pair. store_refresh_token pair.refresh_jti user.id ttl >> k pair)
          (pair-Spent crypto minutes days user)
          λ pair new.
            then-Spent (store_refresh_token pair.refresh_jti user.id ttl) (λ _. k pair)
              (store-Spent pair.refresh_jti user.id ttl new) λ _. hk pair

    issue_tokens-Spent : (user : User) → Keeps jti (issue_tokens crypto settings user)
    unfolding issue_tokens
    issue_tokens-Spent user = search (then-Spent, mint-Spent, raise_if-Spent, pure-Spent)

    sync-Spent :
        (account : Account) (email : Text)
        → Keeps jti (sync_chef_role_if_needed crypto settings account email)
    unfolding sync_chef_role_if_needed
    sync-Spent account email = still _ (λ w. refl) (λ w. refl)

    enforce_ip-Spent : (ip : Limit) (client : Option Text) → Keeps jti (enforce_ip ip client)
    enforce_ip-Spent ip none = still _ (λ w. refl) (λ w. refl)
    enforce_ip-Spent ip (some client) = elim (Bool-cases (text_eq client (codes ""))) [
      | inl e ↦ rw e (still _ (λ w. refl) (λ w. refl))
      | inr e ↦ rw e (elim (Bool-cases (text_eq client (codes "unknown"))) [
        | inl f ↦ rw f (still _ (λ w. refl) (λ w. refl))
        | inr f ↦ rw f (enforce_limit-Spent _ _ _ _)
      ])
    ]

    log_in-Spent :
        (account : Account) (email : Text) → Keeps jti (log_in crypto settings account email)
    unfolding log_in
    log_in-Spent account email =
        search
          (
            then-Spent, sync-Spent, gets-Spent, save-Spent, commit-Spent, issue_tokens-Spent,
            pure-Spent,
          )
          depth 12

    login-Spent :
        (payload : LoginRequest) (ip : Option Text) → Keeps jti (login crypto settings payload ip)
    unfolding login enforce_login_rate_limit
    login-Spent payload ip =
        search
          (
            then-Spent, enforce_limit-Spent, enforce_ip-Spent, ask-Spent, raise_if-Spent,
            log_in-Spent,
          )
          depth 12

    register-Spent :
        (payload : RegisterRequest) (ip : Option Text)
        → Keeps jti (register crypto settings payload ip)
    unfolding register enforce_register_rate_limit
    register-Spent payload ip =
        search
          (
            then-Spent, enforce_limit-Spent, enforce_ip-Spent, gets-Spent, raise_if-Spent,
            draw-Keeps, pure-Spent, append-Spent, commit-Spent, issue_tokens-Spent,
          )
          depth 16

    rotate-Spent :
        (claims : Claims) (i : ℕ) (account : Account)
        → Keeps jti (rotate crypto settings claims i account)
    unfolding rotate
    rotate-Spent claims i account =
        search
          (then-Spent, sync-Spent, commit_if-Spent, gets-Spent, blacklist-Spent, issue_tokens-Spent)
          depth 12

    pub refresh_stored-Spent :
        (claims : Claims) (i : ℕ) (stored : Option ℕ)
        → Keeps jti (refresh_stored crypto settings claims i stored)
    unfolding refresh_stored
    refresh_stored-Spent claims i none = raise-Spent _
    refresh_stored-Spent claims i (some stored) =
        search (then-Spent, or_raise-Spent, ask-Spent, rotate-Spent) depth 8

    need_jti-Spent : (o : Option ℕ) → Keeps jti (need_jti o)
    need_jti-Spent none = raise-Spent _
    need_jti-Spent (some i) = pure-Spent i

    decode-Spent : (token expected : Text) → Keeps jti (decode_token crypto token expected)
    unfolding decode_token
    decode-Spent token expected = still _ (λ w. refl) (λ w. refl)

    refresh-Spent : (token : Text) → Keeps jti (refresh crypto settings token)
    unfolding refresh
    refresh-Spent token =
        search
          (
            then-Spent, decode-Spent, need_jti-Spent, is_blacklisted-Spent, raise_if-Spent,
            consume-Spent, refresh_stored-Spent,
          )
          depth 12

    blacklist_rest-Spent : (i ttl : ℕ) → Keeps jti (blacklist_rest crypto settings i ttl)
    blacklist_rest-Spent i zero = pure-Spent tt
    blacklist_rest-Spent i (suc ttl) = blacklist-Spent i (suc ttl)

    logout_access-Spent :
        (payload : Option Claims) → Keeps jti (logout_access crypto settings payload)
    logout_access-Spent none = pure-Spent tt
    logout_access-Spent (some claims) = elim (Option-cases claims.jti) [
      | inl e ↦ rw e (pure-Spent tt)
      | inr (i, e) ↦ rw e (record { run = λ w s. (blacklist_rest-Spent i _).run w s })
    ]

    revoke-Keeps : (claims : Claims) → Keeps jti (revoke crypto settings claims)
    revoke-Keeps claims = elim (Option-cases claims.jti) [
      | inl e ↦ rw e (pure-Spent tt)
      | inr (i, e) ↦
          rw e (search (then-Spent, revoke-Spent, gets-Spent, blacklist_rest-Spent) depth 8)
    ]

    logout_refresh-Spent : (token : Option Text) → Keeps jti (logout_refresh crypto settings token)
    logout_refresh-Spent none = pure-Spent tt
    logout_refresh-Spent (some []) = pure-Spent tt
    logout_refresh-Spent (some (c ∷ s)) =
        swallow-Spent crypto settings
          (decode_token crypto (c ∷ s) (codes "refresh") >>= revoke crypto settings)
          (search (then-Spent, decode-Spent, revoke-Keeps))

    logout-Spent :
        (payload : Option Claims) (token : Option Text)
        → Keeps jti (logout crypto settings payload token)
    unfolding logout
    logout-Spent payload token = search (then-Spent, logout_access-Spent, logout_refresh-Spent)

    closed-Spent :
        {A : Type 0} (p : Result AppException A × AuthWorld)
        → Good (Spent jti) (λ (_ : A). Unit {0}) p
        → Spent jti (closed p)
    closed-Spent (ok a, w) g = g.0
    closed-Spent (err e, w) g = Spent-same (users_rolled_back w) w refl refl g.0

    auth_call-Spent :
        (c : AuthCall) (w : AuthWorld) → Spent jti w → Spent jti (auth_call crypto settings c w)
    unfolding auth_call
    auth_call-Spent (register_call payload ip) w s =
        closed-Spent _ ((register-Spent payload ip).run w s)
    auth_call-Spent (login_call payload ip) w s = closed-Spent _ ((login-Spent payload ip).run w s)
    auth_call-Spent (refresh_call token) w s = closed-Spent _ ((refresh-Spent token).run w s)
    auth_call-Spent (logout_call payload token) w s =
        closed-Spent _ ((logout-Spent payload token).run w s)
    auth_call-Spent (time_passes seconds) w s = Spent-same _ w refl refl s
    auth_call-Spent (redis_turns up) w s = Spent-same _ w refl refl s

    pub auth_calls-Spent :
        (cs : List AuthCall) (w : AuthWorld)
        → Spent jti w
        → Spent jti (auth_calls crypto settings cs w)
    unfolding auth_calls
    auth_calls-Spent [] w s = s
    auth_calls-Spent (c ∷ cs) w s =
        auth_calls-Spent cs (auth_call crypto settings c w) (auth_call-Spent c w s)
