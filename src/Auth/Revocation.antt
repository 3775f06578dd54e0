-- ===== src/Auth/Revocation.antt =====
-- What becomes of a refresh token that was used (`AuthService.refresh`).
use prime_pizza_backend.Base.{
  ℕ, ◌<◌, ◌≡◌, ◌≢◌, refl, sym, inl, inr, Bool, false, ◌&&◌, Option, none, some, List, [], ◌∷◌,
  arith, ◌==◌, ◌∙◌, find_first-holds, All-find_first, ltb, find_first, All, Option-cases,
}
use prime_pizza_backend.Base.Exec.{ok}
use prime_pizza_backend.Text.{Text}
use prime_pizza_backend.Auth.State.{StoredToken, AuthWorld}
use prime_pizza_backend.Auth.Sessions.{without, consume_refresh_token, is_blacklisted}
use prime_pizza_backend.Auth.Tokens.{Crypto, Claims, valid, checked_claims, decode_token}
use prime_pizza_backend.Auth.Service.{AuthSettings, AuthResponse, refresh, refresh_stored}
use prime_pizza_backend.Auth.Calls.{has_jti, Spent, AuthCall, auth_calls}
use prime_pizza_backend.Auth.Spent.Methods.{refresh_stored-Spent, auth_calls-Spent}

pub has_jti-without : (jti : ℕ) (l : List StoredToken) → has_jti jti (without jti l) ≡ false
has_jti-without jti [] = refl
has_jti-without jti (t ∷ l) = ground (arith, has_jti-without jti l)

absent-found :
    (jti : ℕ) (q : StoredToken → Bool) (l : List StoredToken)
    → has_jti jti l ≡ false
    → find_first (λ t. t.jti == jti && q t) l ≡ none
absent-found jti q [] h = refl
absent-found jti q (t ∷ l) h = ground (arith, absent-found jti q l)

-- Every stored token's id has been drawn.
abbrev pub Known : AuthWorld → Type 0
Known w = All (λ t. t.jti < w.random) w.redis.refresh_tokens

abbrev pub live_token : ℕ → AuthWorld → Option StoredToken
live_token jti w = find_first (λ t. t.jti == jti && ltb w.now t.expires_at) w.redis.refresh_tokens

abbrev pub without_token : ℕ → AuthWorld → AuthWorld
without_token jti w = record w {
  redis = record w.redis { refresh_tokens = without jti w.redis.refresh_tokens };
}

pub token-drawn :
    (jti : ℕ) (w : AuthWorld) (t : StoredToken)
    → Known w
    → live_token jti w ≡ some t
    → jti < w.random
token-drawn jti w t known found =
    let same : t.jti ≡ jti = ground (
      arith,
      find_first-holds (λ t. t.jti == jti && ltb w.now t.expires_at) w.redis.refresh_tokens t found,
    ) in
    let old : t.jti < w.random =
      All-find_first (λ t. t.jti < w.random) _ w.redis.refresh_tokens t known found in
    rw (sym same) old

module _ (crypto : Crypto) (settings : AuthSettings) where
  -- A refresh that succeeds has found and removed the stored token.
  pub refresh_run :
      (w : AuthWorld) (token : Text) (c : Claims) (r : AuthResponse)
      → crypto.decode w.now token ≡ valid c
      → (refresh crypto settings token w).0 ≡ ok r
      → (jti : ℕ) × (t : StoredToken) × (c.jti ≡ some jti)
        × (live_token jti w ≡ some t)
        × ((refresh crypto settings token w)
            ≡ refresh_stored crypto settings c jti (some t.user_id) (without_token jti w))
  unfolding refresh decode_token checked_claims is_blacklisted consume_refresh_token
  refresh_run w token c r d e = elim (Option-cases c.jti) [
    | inl none_ ↦ absurd (ground arith)
    | inr (jti, some_) ↦ elim (Option-cases (live_token jti w)) [
      | inl gone ↦ absurd (ground arith)
      | inr (t, found) ↦ (jti, t, some_, found, ground arith)
    ]
  ]

  -- What a successful refresh leaves behind.
  refresh-Spent_after :
      (w : AuthWorld) (token : Text) (c : Claims) (r : AuthResponse)
      → Known w
      → crypto.decode w.now token ≡ valid c
      → (refresh crypto settings token w).0 ≡ ok r
      → (jti : ℕ) × (c.jti ≡ some jti) × Spent jti (refresh crypto settings token w).1
  refresh-Spent_after w token c r known d e =
      let (jti, t, has, found, run) = refresh_run w token c r d e in
      let start : Spent jti (without_token jti w) = record {
        was_drawn = token-drawn jti w t known found;
        is_gone = has_jti-without jti w.redis.refresh_tokens;
      } in
      (
        jti,
        has,
        rw run
            ((refresh_stored-Spent jti crypto settings c jti (some t.user_id)).run
              (without_token jti w) start).0,
      )

  -- A refresh by an id that is spent is refused.
  pub Spent-refused :
      (w : AuthWorld) (token : Text) (c : Claims) (jti : ℕ) (r : AuthResponse)
      → Spent jti w
      → crypto.decode w.now token ≡ valid c
      → c.jti ≡ some jti
      → (refresh crypto settings token w).0 ≢ ok r
  Spent-refused w token c jti r s d has e =
      let (j, t, has', found, run) = refresh_run w token c r d e in
      ground
        (arith, absent-found jti (λ t. ltb w.now t.expires_at) w.redis.refresh_tokens s.is_gone)

  -- Where the id of every stored token was drawn before: once a refresh token has been used, no
  -- token with its id is accepted again, whatever requests come between, whether or not they
  -- succeed, and however Redis and the clock change.
  pub refresh_once :
      (w : AuthWorld) (token again : Text) (cs : List AuthCall) (c c' : Claims)
      (r r' : AuthResponse)
      → Known w
      → crypto.decode w.now token ≡ valid c
      → (refresh crypto settings token w).0 ≡ ok r
      → crypto.decode (auth_calls crypto settings cs (refresh crypto settings token w).1).now again
        ≡ valid c'
      → c'.jti ≡ c.jti
      → (refresh crypto settings again
          (auth_calls crypto settings cs (refresh crypto settings token w).1)).0
        ≢ ok r'
  refresh_once w token again cs c c' r r' known d e d' same =
      let (jti, has, spent) = refresh-Spent_after w token c r known d e in
      Spent-refused _ again c' jti r' (auth_calls-Spent jti crypto settings cs _ spent) d'
        (same ∙ has)
