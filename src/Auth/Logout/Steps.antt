-- ===== src/Auth/Logout/Steps.antt =====
-- The steps of `AuthService.logout`, and the ids on the blacklist.
use prime_pizza_backend.Base.{
  ℕ, zero, suc, ◌+◌, ◌*◌, ◌/◌, ◌-◌, ◌<◌, ◌≡◌, ◌≢◌, refl, ◌∙◌, Bool, true, not, ◌&&◌, some, List, [],
  ◌∷◌, arith, ◌==◌, max, any, keep, ltb,
}
use prime_pizza_backend.Base.Exec.{ok, bind-run, ◌>>=◌}
use prime_pizza_backend.Text.{Text, codes, text_eq}
use prime_pizza_backend.Auth.State.{one_second, Revoked, AuthWorld, Auth}
use prime_pizza_backend.Auth.Sessions.{without, revoke_refresh_token, blacklist_token}
use prime_pizza_backend.Auth.Tokens.{
  Crypto, Claims, valid, checked_claims, decode_token, get_remaining_ttl_seconds,
}
use prime_pizza_backend.Auth.Service.{
  AuthSettings, logout_access, logout_refresh, blacklist_rest, revoke, swallow,
}

-- The id is on the blacklist until the time.
abbrev pub is_listed : ℕ → ℕ → List Revoked → Bool
is_listed jti now l = any (λ r. r.jti == jti && ltb now r.expires_at) l

listed-keep :
    (a j now : ℕ) (l : List Revoked)
    → a ≢ j
    → is_listed a now l ≡ true
    → is_listed a now (keep (λ r. not (r.jti == j)) l) ≡ true
listed-keep a j now [] ne h = h
listed-keep a j now (r ∷ l) ne h = ground (arith, listed-keep a j now l)

module _ (crypto : Crypto) (settings : AuthSettings) where
  -- What a step of the logout leaves: no more stored tokens, and no id less on the blacklist.
  pub record Ends (jti ttl : ℕ) (w w' : AuthWorld) : Type 0 where
    pub same_tokens : w'.redis.refresh_tokens ≡ w.redis.refresh_tokens
    pub same_random : w'.random ≡ w.random
    pub same_now : w'.now ≡ w.now
    pub same_up : w'.redis.is_up ≡ w.redis.is_up
    pub keeps_listed :
        (a now : ℕ)
        → a ≢ jti
        → is_listed a now w.redis.blacklist ≡ true
        → is_listed a now w'.redis.blacklist ≡ true
    pub lists :
        (now : ℕ)
        → 0 < ttl
        → now < w.now + ttl * one_second
        → is_listed jti now w'.redis.blacklist ≡ true

  blacklist_rest-Ends :
      (jti ttl : ℕ) (w : AuthWorld)
      → w.redis.is_up ≡ true
      → (w' : AuthWorld) × (blacklist_rest crypto settings jti ttl w ≡ (ok tt, w'))
        × Ends jti ttl w w'
  unfolding blacklist_token
  blacklist_rest-Ends jti zero w up = (
    w,
    refl,
    record {
      same_tokens = refl;
      same_random = refl;
      same_now = refl;
      same_up = refl;
      keeps_listed = λ a now ne h. h;
      lists = λ now some_left h. absurd (omega (arith, some_left));
    },
  )
  blacklist_rest-Ends jti (suc ttl) w up =
      let rest = keep (λ t. not (t.jti == jti)) w.redis.blacklist in
      (
        record w {
          redis = record w.redis {
            blacklist =
                record { jti = jti; expires_at = w.now + max (suc ttl) 1 * one_second } ∷ rest;
          };
        },
        ground arith,
        record {
          same_tokens = refl;
          same_random = refl;
          same_now = refl;
          same_up = refl;
          keeps_listed = λ a now ne h. ground (arith, listed-keep a jti now w.redis.blacklist ne h);
          lists = λ now some_left h.
              let live : now < w.now + max (suc ttl) 1 * one_second = omega (arith, h) in
              ground (arith, live);
        },
      )

  pub logout_access-Ends :
      (claims : Claims) (a exp : ℕ) (w : AuthWorld)
      → w.redis.is_up ≡ true
      → claims.jti ≡ some a
      → claims.exp ≡ some exp
      → (w' : AuthWorld) × (logout_access crypto settings (some claims) w ≡ (ok tt, w'))
        × Ends a ((exp * one_second - w.now) / one_second) w w'
  unfolding get_remaining_ttl_seconds
  logout_access-Ends claims a exp w up j e =
      rw (j, e) (blacklist_rest-Ends a ((exp * one_second - w.now) / one_second) w up)

  -- The world after the stored token has been removed.
  abbrev pub removed : ℕ → AuthWorld → AuthWorld
  removed jti w = record w {
    redis = record w.redis { refresh_tokens = without jti w.redis.refresh_tokens };
  }

  revoke_run :
      (w : AuthWorld) (c : Claims) (j : ℕ)
      → w.redis.is_up ≡ true
      → c.jti ≡ some j
      → revoke crypto settings c w
        ≡ blacklist_rest crypto settings j (get_remaining_ttl_seconds w.now c.exp) (removed j w)
  unfolding revoke_refresh_token
  revoke_run w c j up has = ground arith

  swallow-run :
      (m : Auth (Unit {0})) (w w' : AuthWorld)
      → m w ≡ (ok tt, w')
      → swallow crypto settings m w ≡ (ok tt, w')
  swallow-run m w w' e = rw e refl

  pub logout_refresh-Ends :
      (w : AuthWorld) (x : ℕ) (s : Text) (c : Claims) (j : ℕ)
      → w.redis.is_up ≡ true
      → crypto.decode w.now (x ∷ s) ≡ valid c
      → c.token_type ≡ some (codes "refresh")
      → c.jti ≡ some j
      → (w' : AuthWorld) × (logout_refresh crypto settings (some (x ∷ s)) w ≡ (ok tt, w'))
        × Ends j (get_remaining_ttl_seconds w.now c.exp) (removed j w) w'
  unfolding decode_token checked_claims revoke_refresh_token text_eq
  logout_refresh-Ends w x s c j up d t has =
      let ttl = get_remaining_ttl_seconds w.now c.exp in
      let (w', run, ends) = blacklist_rest-Ends j ttl (removed j w) up in
      let decoded : decode_token crypto (x ∷ s) (codes "refresh") w ≡ (ok c, w) = ground arith in
      let revoked : revoke crypto settings c w ≡ (ok tt, w') = revoke_run w c j up has ∙ run in
      (
        w',
        swallow-run (decode_token crypto (x ∷ s) (codes "refresh") >>= revoke crypto settings) w w'
            (bind-run (decode_token crypto (x ∷ s) (codes "refresh")) (revoke crypto settings) w w c
              (ok tt, w') decoded revoked),
        ends,
      )
