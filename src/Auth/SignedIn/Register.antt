-- ===== src/Auth/SignedIn/Register.antt =====
-- The answer of `AuthService.register`.
use prime_pizza_backend.Base.{
  ℕ, ◌+◌, ◌<◌, ◌≡◌, refl, sym, ap, ◌∙◌, true, false, Option, some, List, [], ◌∷◌, ◌++◌, arith, All,
  is_some,
}
use prime_pizza_backend.Base.Exec.{gets, modify, raise_if, ok, bind-ok, guard-ok, pure, ◌>>=◌, ◌>>◌}
use prime_pizza_backend.Text.{Text, lower, strip}
use prime_pizza_backend.Errors.{conflict_exception, text}
use prime_pizza_backend.Enums.{customer}
use prime_pizza_backend.Auth.State.{
  Account, AuthWorld, Auth, get_by_id, get_by_email, draw, commit_users,
}
use prime_pizza_backend.Auth.Sessions.{enforce_register_rate_limit}
use prime_pizza_backend.Auth.Tokens.{Crypto}
use prime_pizza_backend.Auth.Service.{
  AuthSettings, AuthResponse, RegisterRequest, issue_tokens, register, registered_user, phone_taken,
}
use prime_pizza_backend.Auth.Issued.{DrawnRevoked}
use prime_pizza_backend.Auth.Limited.{counted, enforce_register-Counts}
use prime_pizza_backend.Auth.SignedIn.Answers.{later-drawn, Signed, issue-Signed, still_drawn}

found-appended :
    (b : Account) (n : ℕ) (users : List Account)
    → n < b.user.id
    → b.deleted ≡ false
    → All (λ a. a.user.id < n) users
    → get_by_id (users ++ b ∷ []) b.user.id ≡ some b
unfolding get_by_id
found-appended b n [] new d hs = ground arith
found-appended b n (a ∷ users) new d (h, hs) = ground (arith, found-appended b n users)

module _ (crypto : Crypto) (settings : AuthSettings) where
  -- `register`, from the new account on, and from each of its checks on
  abbrev new_account : RegisterRequest → Auth AuthResponse
  new_account payload = do
    salt ← draw
    user_id ← draw
    now ← gets (λ w. w.now)
    account ← pure (
        registered_user user_id now payload.first_name payload.last_name
          (lower (strip payload.email)) (crypto.hashpw salt payload.password) customer
          payload.phone_number)
    modify (λ w. record w { users = w.users ++ account ∷ [] })
    commit_users
    tokens ← issue_tokens crypto settings account.user
    pure record { user = account.user; tokens = tokens; is_new_user = true }

  abbrev unknown_phone : RegisterRequest → List Account → Auth AuthResponse
  unknown_phone payload users = do
    raise_if (phone_taken users payload.phone_number)
        (conflict_exception (text "An account with this phone number already exists"))
    new_account payload

  abbrev unknown_register : RegisterRequest → List Account → Auth AuthResponse
  unknown_register payload users = do
    raise_if (is_some (get_by_email users (lower (strip payload.email))))
        (conflict_exception (text "An account with this email already exists"))
    unknown_phone payload users

  new_account-Signed :
      (payload : RegisterRequest) (w w' : AuthWorld) (r : AuthResponse)
      → DrawnRevoked w
      → All (λ a. a.user.id < w.random) w.users
      → new_account payload w ≡ (ok r, w')
      → Signed crypto settings r w'
  unfolding registered_user
  new_account-Signed payload w w' r drawn accounts e =
      let account =
        registered_user (w.random + 1) w.now payload.first_name payload.last_name
          (lower (strip payload.email)) (crypto.hashpw w.random payload.password) customer
          payload.phone_number in
      let users = w.users ++ account ∷ [] in
      issue-Signed crypto settings account true
        (record w { users = users; committed = users; random = w.random + 1 + 1 }) w' r
        (later-drawn w.random (w.random + 1 + 1) w.redis.blacklist (omega arith) drawn)
        (found-appended account w.random w.users (omega arith) refl accounts) refl e

  pub register-Signed :
      (payload : RegisterRequest) (ip : Option Text) (w w' : AuthWorld) (r : AuthResponse)
      → DrawnRevoked w
      → All (λ a. a.user.id < w.random) w.users
      → register crypto settings payload ip w ≡ (ok r, w')
      → Signed crypto settings r w'
  unfolding register
  register-Signed payload ip w w' r drawn accounts e =
      let email = lower (strip payload.email) in
      let limits = enforce_register_rate_limit settings.register_limit settings.ip_limit email ip in
      let counts = enforce_register-Counts settings.register_limit settings.ip_limit email ip in
      let (u, w1, e1, e2) = bind-ok limits (λ _ v. (unknown_register payload v.users) v) w w' r e in
      let same : w1 ≡ counted (limits w).1.redis.counters w =
        sym (ap (λ p. p.1) e1) ∙ counts.run w in
      let (new, e3) =
        guard-ok (is_some (get_by_email w1.users email))
          (conflict_exception (text "An account with this email already exists"))
          (unknown_phone payload w1.users) w1 w' r e2 in
      let (free, e4) =
        guard-ok (phone_taken w1.users payload.phone_number)
          (conflict_exception (text "An account with this phone number already exists"))
          (new_account payload) w1 w' r e3 in
      new_account-Signed payload w1 w' r (still_drawn limits counts w w1 u e1 drawn)
        (rw same accounts) e4
