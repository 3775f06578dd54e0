-- ===== src/Auth/Logout.antt =====
-- What `AuthService.logout` ends.
mod Steps
use prime_pizza_backend.Base.{
  ℕ, zero, suc, ◌+◌, ◌*◌, ◌/◌, ◌-◌, ◌<◌, ◌≤◌, ◌≡◌, ◌≢◌, refl, sym, ap, ◌∙◌, inl, inr, Bool, true,
  false, not, ◌&&◌, Option, none, some, List, [], ◌∷◌, arith, ◌==◌, max, any, keep, ltb,
  Option-cases,
}
use prime_pizza_backend.Base.Exec.{ok, err, bind-run, ◌>>=◌, ◌>>◌}
use prime_pizza_backend.Text.{Text, codes, text_eq, lower}
use prime_pizza_backend.Errors.{AppException, invalid_token_exception, text}
use prime_pizza_backend.Auth.State.{one_second, StoredToken, Revoked, AuthWorld, Auth}
use prime_pizza_backend.Auth.Sessions.{
  without, revoke_refresh_token, blacklist_token, is_blacklisted,
}
use prime_pizza_backend.Auth.Tokens.{
  Crypto, Claims, valid, checked_claims, decode_token, get_remaining_ttl_seconds,
}
use prime_pizza_backend.Auth.Service.{
  AuthSettings, AuthResponse, logout, logout_access, logout_refresh, blacklist_rest, revoke,
  swallow, refresh,
}
use prime_pizza_backend.Auth.Requests.{get_token_payload}
use prime_pizza_backend.Auth.Calls.{has_jti, Spent, AuthCall, auth_calls}
use prime_pizza_backend.Auth.Spent.Methods.{auth_calls-Spent}
use prime_pizza_backend.Auth.Revocation.{has_jti-without, Spent-refused}
use prime_pizza_backend.Auth.Issued.{bearer_of, later}
use prime_pizza_backend.Auth.Logout.Steps.{
  is_listed, Ends, logout_access-Ends, logout_refresh-Ends, removed,
}

module _ (crypto : Crypto) (settings : AuthSettings) where
  record Ended (a exp j : ℕ) (w w' : AuthWorld) : Type 0 where
    is_up : w'.redis.is_up ≡ true
    same_now : w'.now ≡ w.now
    is_spent : Spent j w'
    listed :
        (now : ℕ) → now + one_second ≤ exp * one_second → is_listed a now w'.redis.blacklist ≡ true

  logout-Ended :
      (w : AuthWorld) (claims c : Claims) (a exp j x : ℕ) (s : Text)
      → w.redis.is_up ≡ true
      → claims.jti ≡ some a
      → claims.exp ≡ some exp
      → crypto.decode w.now (x ∷ s) ≡ valid c
      → c.token_type ≡ some (codes "refresh")
      → c.jti ≡ some j
      → a ≢ j
      → j < w.random
      → w.now + one_second ≤ exp * one_second
      → (w' : AuthWorld) × (logout crypto settings (some claims) (some (x ∷ s)) w ≡ (ok tt, w'))
        × Ended a exp j w w'
  unfolding logout
  logout-Ended w claims c a exp j x s up ja je d t jc ne old soon =
      let (w1, run1, e1) = logout_access-Ends crypto settings claims a exp w up ja je in
      let up1 : w1.redis.is_up ≡ true = e1.same_up ∙ up in
      let (w2, run2, e2) =
        logout_refresh-Ends crypto settings w1 x s c j up1 (rw e1.same_now d) t jc in
      (
        w2,
        bind-run (logout_access crypto settings (some claims))
            (λ _. logout_refresh crypto settings (some (x ∷ s))) w w1 tt (ok tt, w2) run1 run2,
        record {
          is_up = e2.same_up ∙ up1;
          same_now = e2.same_now ∙ e1.same_now;
          is_spent = record {
            was_drawn = rw (e2.same_random, e1.same_random) old;
            is_gone = rw e2.same_tokens (has_jti-without j w1.redis.refresh_tokens);
          };
          listed = λ now h.
              e2.keeps_listed a now ne
                (e1.lists now (omega (arith, soon)) (omega (arith, soon, h)));
        },
      )

  revoked_payload :
      (w : AuthWorld) (token : Text) (c : Claims) (a : ℕ)
      → crypto.decode w.now token ≡ valid c
      → c.token_type ≡ some (codes "access")
      → c.jti ≡ some a
      → w.redis.is_up ≡ true
      → is_listed a w.now w.redis.blacklist ≡ true
      → get_token_payload crypto (bearer_of token) w
        ≡ (err (invalid_token_exception (text "Token has been revoked")), w)
  unfolding get_token_payload decode_token checked_claims is_blacklisted text_eq lower
  revoked_payload w token c a d t has up listed = ground arith

  -- With Redis up, for an access token and a refresh token with different ids, both valid, and the
  -- latter's drawn before: a logout succeeds, and after it the access token's id is refused as
  -- revoked for as long as at least one second of the token's life is left, and no refresh token with
  -- the other id is accepted again, whatever requests come between, whether or not they succeed, and however Redis and the
  -- clock change.
  pub logout_ends :
      (w : AuthWorld) (claims c : Claims) (a exp j x : ℕ) (s : Text) (access : Text)
      (access_claims : Claims) (elapsed : ℕ) (again : Text) (cs : List AuthCall) (c' : Claims)
      (r : AuthResponse)
      → w.redis.is_up ≡ true
      → claims.jti ≡ some a
      → claims.exp ≡ some exp
      → crypto.decode w.now (x ∷ s) ≡ valid c
      → c.token_type ≡ some (codes "refresh")
      → c.jti ≡ some j
      → a ≢ j
      → j < w.random
      → w.now + elapsed + one_second ≤ exp * one_second
      → crypto.decode (w.now + elapsed) access ≡ valid access_claims
      → access_claims.token_type ≡ some (codes "access")
      → access_claims.jti ≡ some a
      → crypto.decode
          (auth_calls crypto settings cs
            (logout crypto settings (some claims) (some (x ∷ s)) w).1).now
          again
        ≡ valid c'
      → c'.jti ≡ some j
      → let out = logout crypto settings (some claims) (some (x ∷ s)) w in
        (out.0 ≡ ok tt)
        × (get_token_payload crypto (bearer_of access) (later elapsed out.1)
            ≡ (err (invalid_token_exception (text "Token has been revoked")), later elapsed out.1))
        × ((refresh crypto settings again (auth_calls crypto settings cs out.1)).0 ≢ ok r)
  logout_ends w claims c a exp j x s access ac elapsed again cs c' r up ja je d t jc ne old soon da
        ta ha dr hr =
      let (w', run, ended) =
        logout-Ended w claims c a exp j x s up ja je d t jc ne old (omega (arith, soon)) in
      let world : (logout crypto settings (some claims) (some (x ∷ s)) w).1 ≡ w' =
        ap (λ p. p.1) run in
      (
        ap (λ p. p.0) run,
        rw world (
            revoked_payload (later elapsed w') access ac a (rw ended.same_now da) ta ha ended.is_up
              (ended.listed (w'.now + elapsed) (rw ended.same_now soon))),
        rw world (
            Spent-refused crypto settings (auth_calls crypto settings cs w') again c' j r
              (auth_calls-Spent j crypto settings cs w' ended.is_spent) (rw world at dr) hr),
      )
