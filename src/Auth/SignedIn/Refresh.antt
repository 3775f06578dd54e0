-- ===== src/Auth/SignedIn/Refresh.antt =====
-- The answer of `AuthService.refresh`.
use prime_pizza_backend.Base.{
  ℕ, ◌+◌, ◌*◌, ◌<◌, ◌⊎◌, All-keep_of, ◌≡◌, refl, sym, ap, ◌∙◌, inl, inr, Bool, true, false, not,
  some, List, ◌∷◌, arith, ◌==◌, max, any, Bool-cases, find_first-holds, keep, if◌then◌else◌,
}
use prime_pizza_backend.Base.Exec.{or_raise, ok, bind-ok, ask-ok, ◌>>=◌}
use prime_pizza_backend.Text.{Text}
use prime_pizza_backend.Errors.{unauthorized_exception, invalid_token_exception, text}
use prime_pizza_backend.Authorization.Roles.{is_chef_email}
use prime_pizza_backend.Auth.State.{one_second, Account, AuthWorld, get_by_id, save_account}
use prime_pizza_backend.Auth.Sessions.{blacklist_token}
use prime_pizza_backend.Auth.Tokens.{
  Crypto, Claims, decode_token, Decoded, valid, expired_signature, jwt_error, checked_claims,
  get_remaining_ttl_seconds,
}
use prime_pizza_backend.Auth.Service.{
  AuthSettings, AuthResponse, issue_tokens, active_account, subject, chef_synced,
  sync_chef_role_if_needed, refresh, refresh_stored, rotate, same_subject,
}
use prime_pizza_backend.Auth.Issued.{DrawnRevoked}
use prime_pizza_backend.Auth.Revocation.{Known, token-drawn, without_token, refresh_run}
use prime_pizza_backend.Auth.SignedIn.Answers.{
  later-drawn, has_id, found-saved, any-found, Signed, answer_with, issue-Signed,
  chef_synced-Synced, active_account-ok,
}

-- The session after `if is_chef: commit()`.
abbrev commit_if : Bool → AuthWorld → AuthWorld
commit_if b w = if b then record w { committed = w.users } else w

commit_if-same :
    (b : Bool) (w : AuthWorld)
    → ((commit_if b w).users ≡ w.users)
      × ((commit_if b w).random ≡ w.random)
      × (DrawnRevoked w → DrawnRevoked (commit_if b w))
commit_if-same true w = (refl, refl, λ d. d)
commit_if-same false w = (refl, refl, λ d. d)

Decoded-cases :
    (d : Decoded) → ((c : Claims) × (d ≡ valid c)) ⊎ ((d ≡ expired_signature) ⊎ (d ≡ jwt_error))
Decoded-cases (valid c) = inl (c, refl)
Decoded-cases expired_signature = inr (inl refl)
Decoded-cases jwt_error = inr (inr refl)

module _ (crypto : Crypto) (settings : AuthSettings) where
  blacklist-drawn :
      (jti ttl : ℕ) (w w' : AuthWorld) (u : Unit {0})
      → DrawnRevoked w
      → jti < w.random
      → blacklist_token jti ttl w ≡ (ok u, w')
      → DrawnRevoked w' × (w'.users ≡ w.users)
  unfolding blacklist_token
  blacklist-drawn jti ttl w w' u drawn old e = elim (Bool-cases w.redis.is_up) [
    | inr down ↦ absurd (ground arith)
    | inl up ↦
        let l : w'.redis.blacklist
            ≡ record { jti = jti; expires_at = w.now + max ttl 1 * one_second }
              ∷ keep (λ t. not (t.jti == jti)) w.redis.blacklist =
          ground arith in
        let n : w'.random ≡ w.random = ground arith in
        (
          rw l (
            rw n old,
            later-drawn w.random w'.random _ (omega (arith, n)) (
                All-keep_of (λ r. r.jti < w.random) (λ t. not (t.jti == jti)) w.redis.blacklist
                  drawn),
          ),
          ground arith,
        )
  ]

  rotate-Signed :
      (claims : Claims) (jti : ℕ) (account : Account) (w w' : AuthWorld) (r : AuthResponse)
      → DrawnRevoked w
      → jti < w.random
      → any (has_id account.user.id) w.users ≡ true
      → account.deleted ≡ false
      → account.user.is_active ≡ true
      → rotate crypto settings claims jti account w ≡ (ok r, w')
      → Signed crypto settings r w'
  unfolding rotate sync_chef_role_if_needed
  rotate-Signed claims jti account w w' r drawn old known kept active e =
      let synced = chef_synced crypto settings account account.user.email in
      let s = chef_synced-Synced crypto settings account account.user.email in
      let w1 =
        commit_if (is_chef_email settings.chef_email synced.user.email) (save_account synced w) in
      let ttl = get_remaining_ttl_seconds w1.now claims.exp in
      let (u, w2, e1, e2) =
        bind-ok (blacklist_token jti ttl)
          (λ _.
            issue_tokens crypto settings synced.user
            >>= answer_with crypto settings synced.user false)
          w1 w' r e in
      let (users, random, drawn1) =
        commit_if-same (is_chef_email settings.chef_email synced.user.email)
          (save_account synced w) in
      let (drawn2, users2) = blacklist-drawn jti ttl w1 w2 u (drawn1 drawn) (rw random old) e1 in
      let stored : w2.users ≡ (save_account synced w).users = users2 ∙ users in
      issue-Signed crypto settings synced false w2 w' r drawn2
        (rw stored (
          found-saved synced.user.id synced w.users refl (s.same_deleted ∙ kept)
            (rw s.same_id known)))
        (s.is_active active) e2

  get_by_id-kept :
      (users : List Account) (i : ℕ) (a : Account)
      → get_by_id users i ≡ some a
      → (any (has_id a.user.id) users ≡ true) × (a.deleted ≡ false)
  unfolding get_by_id
  get_by_id-kept users i a e =
      (any-found a.user.id _ users a e refl, ground (arith, find_first-holds _ users a e))

  refresh_stored-Signed :
      (claims : Claims) (jti stored : ℕ) (w w' : AuthWorld) (r : AuthResponse)
      → DrawnRevoked w
      → jti < w.random
      → refresh_stored crypto settings claims jti (some stored) w ≡ (ok r, w')
      → Signed crypto settings r w'
  unfolding refresh_stored
  refresh_stored-Signed claims jti stored w w' r drawn old e =
      let refusal = unauthorized_exception (text "User not found or inactive") in
      let (i, same, e1) =
        ask-ok (same_subject crypto settings (subject claims) stored)
          (invalid_token_exception (text "Refresh token subject mismatch"))
          (λ i v.
            (or_raise (active_account (get_by_id v.users i)) refusal
                >>= rotate crypto settings claims jti)
              v)
          w w' r e in
      let (a, found, e2) =
        ask-ok (active_account (get_by_id w.users i)) refusal (rotate crypto settings claims jti) w
          w' r e1 in
      let (there, active) = active_account-ok (get_by_id w.users i) a found in
      let (known, kept) = get_by_id-kept w.users i a there in
      rotate-Signed claims jti a w w' r drawn old known kept active e2

  refresh_decoded :
      (token : Text) (w : AuthWorld) (r : AuthResponse)
      → (refresh crypto settings token w).0 ≡ ok r
      → (c : Claims) × (crypto.decode w.now token ≡ valid c)
  unfolding refresh decode_token checked_claims
  refresh_decoded token w r e = elim (Decoded-cases (crypto.decode w.now token)) [
    | inl (c, d) ↦ (c, d)
    | inr (inl d) ↦ absurd (ground arith)
    | inr (inr d) ↦ absurd (ground arith)
  ]

  pub refresh-Signed :
      (token : Text) (w w' : AuthWorld) (r : AuthResponse)
      → DrawnRevoked w
      → Known w
      → refresh crypto settings token w ≡ (ok r, w')
      → Signed crypto settings r w'
  refresh-Signed token w w' r drawn known e =
      let answered = ap (λ p. p.0) e in
      let (c, d) = refresh_decoded token w r answered in
      let (jti, t, has, found, run) = refresh_run crypto settings w token c r d answered in
      let old : jti < w.random = token-drawn jti w t known found in
      refresh_stored-Signed c jti t.user_id (without_token jti w) w' r drawn old (sym run ∙ e)
