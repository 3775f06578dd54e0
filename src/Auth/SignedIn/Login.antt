-- ===== src/Auth/SignedIn/Login.antt =====
-- The answer of `AuthService.login`.
use prime_pizza_backend.Base.{
  ◌≡◌, refl, ◌∙◌, true, false, not, Option, some, List, arith, any, find_first-holds,
}
use prime_pizza_backend.Base.Exec.{raise_if, or_raise, ok, bind-ok, ask-ok, guard-ok, ◌>>=◌, ◌>>◌}
use prime_pizza_backend.Text.{Text, lower, strip}
use prime_pizza_backend.Errors.{unauthorized_exception, text}
use prime_pizza_backend.Auth.State.{Account, AuthWorld, Auth, get_by_email, save_account}
use prime_pizza_backend.Auth.Sessions.{enforce_login_rate_limit}
use prime_pizza_backend.Auth.Tokens.{Crypto, verify_password}
use prime_pizza_backend.Auth.Service.{
  AuthSettings, AuthResponse, LoginRequest, active_account, chef_synced, sync_chef_role_if_needed,
  mark_login, log_in, login,
}
use prime_pizza_backend.Auth.Issued.{DrawnRevoked}
use prime_pizza_backend.Auth.Limited.{enforce_login-Counts}
use prime_pizza_backend.Auth.SignedIn.Answers.{
  has_id, any-save, found-saved, any-found, Signed, issue-Signed, chef_synced-Synced, still_drawn,
  active_account-ok,
}

module _ (crypto : Crypto) (settings : AuthSettings) where
  log_in-Signed :
      (account : Account) (email : Text) (w w' : AuthWorld) (r : AuthResponse)
      → DrawnRevoked w
      → any (has_id account.user.id) w.users ≡ true
      → account.deleted ≡ false
      → account.user.is_active ≡ true
      → log_in crypto settings account email w ≡ (ok r, w')
      → Signed crypto settings r w'
  unfolding log_in sync_chef_role_if_needed
  log_in-Signed account email w w' r drawn known kept active e =
      let synced = chef_synced crypto settings account email in
      let s = chef_synced-Synced crypto settings account email in
      let marked = mark_login crypto settings w.now synced in
      issue-Signed crypto settings marked false
        (record (save_account marked (save_account synced w)) {
          committed = (save_account marked (save_account synced w)).users;
        })
        w' r drawn
        (found-saved synced.user.id marked _ refl (s.same_deleted ∙ kept)
          (any-save synced.user.id synced w.users refl ∙ rw s.same_id known))
        (s.is_active active) e

  get_by_email-kept :
      (users : List Account) (email : Text) (a : Account)
      → get_by_email users email ≡ some a
      → (any (has_id a.user.id) users ≡ true) × (a.deleted ≡ false)
  unfolding get_by_email
  get_by_email-kept users email a e =
      (any-found a.user.id _ users a e refl, ground (arith, find_first-holds _ users a e))

  -- `login`, from the account on
  abbrev found_login : LoginRequest → Account → Auth AuthResponse
  found_login payload account = do
    raise_if (not (verify_password crypto payload.password account.password_hash))
        (unauthorized_exception (text "Invalid email or password"))
    log_in crypto settings account (lower (strip payload.email))

  pub login-Signed :
      (payload : LoginRequest) (ip : Option Text) (w w' : AuthWorld) (r : AuthResponse)
      → DrawnRevoked w
      → login crypto settings payload ip w ≡ (ok r, w')
      → Signed crypto settings r w'
  unfolding login
  login-Signed payload ip w w' r drawn e =
      let email = lower (strip payload.email) in
      let refusal = unauthorized_exception (text "Invalid email or password") in
      let limits = enforce_login_rate_limit settings.login_limit settings.ip_limit email ip in
      let (u, w1, e1, e2) =
        bind-ok limits
          (λ _ v.
            (or_raise (active_account (get_by_email v.users email)) refusal >>= found_login payload)
              v)
          w w' r e in
      let (a, found, e3) =
        ask-ok (active_account (get_by_email w1.users email)) refusal (found_login payload) w1 w' r
          e2 in
      let (right, e4) =
        guard-ok (not (verify_password crypto payload.password a.password_hash)) refusal
          (log_in crypto settings a email) w1 w' r e3 in
      let (there, active) = active_account-ok (get_by_email w1.users email) a found in
      let (known, kept) = get_by_email-kept w1.users email a there in
      let counts = enforce_login-Counts settings.login_limit settings.ip_limit email ip in
      log_in-Signed a email w1 w' r (still_drawn limits counts w w1 u e1 drawn) known kept active e4
