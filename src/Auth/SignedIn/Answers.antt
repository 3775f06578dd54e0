-- ===== src/Auth/SignedIn/Answers.antt =====
-- Tokens for an account that is stored as it is answered.
use prime_pizza_backend.Base.{
  ℕ, ◌*◌, ◌<◌, ◌≤◌, ◌≡◌, refl, sym, ap, ◌∙◌, inl, inr, Bool, true, false, Option, none, some, List,
  [], ◌∷◌, arith, ◌==◌, any, Bool-cases, All, find_first, update_where,
}
use prime_pizza_backend.Base.Exec.{ok, bind-ok, ok-injective, pure, ◌>>=◌}
use prime_pizza_backend.Text.{Text}
use prime_pizza_backend.Models.{User}
use prime_pizza_backend.Authorization.Roles.{is_chef_email}
use prime_pizza_backend.Auth.State.{Account, Revoked, AuthWorld, Auth, get_by_id}
use prime_pizza_backend.Auth.Tokens.{Crypto}
use prime_pizza_backend.Auth.Service.{
  AuthSettings, TokenPairResponse, AuthResponse, issue_tokens, active_account, chef_synced,
}
use prime_pizza_backend.Auth.Issued.{
  DrawnRevoked, IsFaithful, Issued, issue_tokens-Issued, Accepts, Issued-Accepts, after,
}
use prime_pizza_backend.Auth.Limited.{counted, Counts}

abbrev pub has_id : ℕ → Account → Bool
has_id user_id a = a.user.id == user_id

pub any-save :
    (i : ℕ) (b : Account) (users : List Account)
    → b.user.id ≡ i
    → any (has_id i) (update_where (λ a. a.user.id == i) (λ _. b) users) ≡ any (has_id i) users
any-save i b [] e = refl
any-save i b (a ∷ users) e = ground (arith, any-save i b users)

-- A row that is saved is the row that is found.
pub found-saved :
    (i : ℕ) (b : Account) (users : List Account)
    → b.user.id ≡ i
    → b.deleted ≡ false
    → any (has_id i) users ≡ true
    → get_by_id (update_where (λ a. a.user.id == i) (λ _. b) users) i ≡ some b
unfolding get_by_id
found-saved i b [] e d h = ground arith
found-saved i b (a ∷ users) e d h = ground (arith, found-saved i b users)

pub any-found :
    (i : ℕ) (q : Account → Bool) (users : List Account) (a : Account)
    → find_first q users ≡ some a
    → a.user.id ≡ i
    → any (has_id i) users ≡ true
any-found i q [] a e h = ground arith
any-found i q (b ∷ users) a e h = ground (arith, any-found i q users a)

pub still_drawn :
    {A : Type 0} (m : Auth A)
    → Counts m
    → (w w1 : AuthWorld) (a : A) → m w ≡ (ok a, w1)
    → DrawnRevoked w
    → DrawnRevoked w1
still_drawn m c w w1 a e drawn =
    let same : w1 ≡ counted (m w).1.redis.counters w = sym (ap (λ p. p.1) e) ∙ c.run w in
    rw same drawn

pub active_account-ok :
    (o : Option Account) (a : Account)
    → active_account o ≡ some a
    → (o ≡ some a) × (a.user.is_active ≡ true)
active_account-ok none a e = ground arith
active_account-ok (some b) a e = elim (Bool-cases b.user.is_active) [
  | inl active ↦ (ground arith, ground arith)
  | inr idle ↦ absurd (ground arith)
]

pub later-drawn :
    (n m : ℕ) (l : List Revoked) → n ≤ m → All (λ r. r.jti < n) l → All (λ r. r.jti < m) l
later-drawn n m [] le hs = tt
later-drawn n m (r ∷ l) le (h, hs) = (omega (arith, h, le), later-drawn n m l le hs)

module _ (crypto : Crypto) (settings : AuthSettings) where
  -- An answer with tokens for an account that is stored as it is answered.
  pub record Signed (r : AuthResponse) (w' : AuthWorld) : Type 0 where
    pub account : Account
    pub before : AuthWorld
    pub issued : Issued crypto settings account.user before r.tokens w'
    pub answered : r.user ≡ account.user
    pub is_found : get_by_id before.users account.user.id ≡ some account
    pub is_active : account.user.is_active ≡ true
    pub drawn : DrawnRevoked before

  pub Signed-Accepts :
      (r : AuthResponse) (w' : AuthWorld) (seconds : ℕ)
      → IsFaithful crypto
      → Signed r w'
      → seconds < settings.access_token_expire_minutes * 60
      → Accepts crypto r.tokens.access_token r.user (after seconds w')
  Signed-Accepts r w' seconds faithful s soon = rw s.answered (
      Issued-Accepts crypto settings s.account s.before w' r.tokens seconds faithful s.drawn
        s.issued (rw s.issued.same_users s.is_found) s.is_active soon)

  abbrev pub answer_with : User → Bool → TokenPairResponse → Auth AuthResponse
  answer_with user is_new tokens =
      pure record { user = user; tokens = tokens; is_new_user = is_new }

  -- The end of every method: tokens for a stored account.
  pub issue-Signed :
      (account : Account) (is_new : Bool) (w w' : AuthWorld) (r : AuthResponse)
      → DrawnRevoked w
      → get_by_id w.users account.user.id ≡ some account
      → account.user.is_active ≡ true
      → (issue_tokens crypto settings account.user >>= answer_with account.user is_new) w
        ≡ (ok r, w')
      → Signed r w'
  issue-Signed account is_new w w' r drawn found active e =
      let (tokens, t, issue, done) =
        bind-ok (issue_tokens crypto settings account.user) (answer_with account.user is_new) w w' r
          e in
      let issued = issue_tokens-Issued crypto settings account.user w t tokens issue in
      let world : w' ≡ t = sym (ap (λ p. p.1) done) in
      let answer : r ≡ record { user = account.user; tokens = tokens; is_new_user = is_new } =
        sym (ok-injective _ r (ap (λ p. p.0) done)) in
      record {
        account = account;
        before = w;
        issued = rw (world, answer) issued;
        answered = rw answer refl;
        is_found = found;
        is_active = active;
        drawn = drawn;
      }

  pub record Synced (account synced : Account) : Type 0 where
    pub same_id : synced.user.id ≡ account.user.id
    pub same_deleted : synced.deleted ≡ account.deleted
    pub is_active : account.user.is_active ≡ true → synced.user.is_active ≡ true

  pub chef_synced-Synced :
      (account : Account) (email : Text)
      → Synced account (chef_synced crypto settings account email)
  unfolding chef_synced
  chef_synced-Synced account email = elim (Bool-cases (is_chef_email settings.chef_email email)) [
    | inl is ↦ rw is record { same_id = refl; same_deleted = refl; is_active = λ _. refl }
    | inr other ↦ rw other record { same_id = refl; same_deleted = refl; is_active = λ a. a }
  ]
