-- ===== src/Auth/Limited.antt =====
-- The rate limits of `RedisAuthRepository`: what they leave as it was.
use prime_pizza_backend.Base.{ℕ, ◌≡◌, refl, inl, inr, Option, none, some, List, arith, Bool-cases}
use prime_pizza_backend.Base.Exec.{run-cases, pure, ◌>>=◌}
use prime_pizza_backend.Text.{Text, codes, text_eq}
use prime_pizza_backend.Errors.{Message}
use prime_pizza_backend.Auth.State.{Counter, RateKey, AuthWorld, Auth}
use prime_pizza_backend.Auth.Sessions.{
  Limit, enforce_limit, enforce_ip, enforce_login_rate_limit, enforce_register_rate_limit,
}
use prime_pizza_backend.Auth.Service.{login, register}

-- The world after some hits on the counters.
abbrev pub counted : List Counter → AuthWorld → AuthWorld
counted counters w = record w { redis = record w.redis { counters = counters } }

-- A step that changes only the counters.
pub record Counts {A : Type 0} (m : Auth A) : Type 0 where
  pub run : (w : AuthWorld) → (m w).1 ≡ counted (m w).1.redis.counters w

pure-Counts : {A : Type 0} (a : A) → Counts (pure a)
pure-Counts a = record { run = λ w. refl }

then-Counts :
    {A B : Type 0} (m : Auth A) (k : A → Auth B)
    → Counts m
    → ((a : A) → Counts (k a))
    → Counts (m >>= k)
then-Counts m k hm hk = record {
  run = λ w. elim (run-cases (m w)) [
    | inl (a, t, e) ↦ let first = hm.run w in let one_second = (hk a).run t in ground arith
    | inr (x, t, e) ↦ let first = hm.run w in ground arith
  ];
}

enforce_limit-Counts :
    (key : RateKey) (limit window : ℕ) (message : Message)
    → Counts (enforce_limit key limit window message)
unfolding enforce_limit
enforce_limit-Counts key limit window message = record {
  run = λ w. elim (Bool-cases w.redis.is_up) [ inl up ↦ rw up refl | inr down ↦ rw down refl ];
}

enforce_ip-Counts : (ip : Limit) (client : Option Text) → Counts (enforce_ip ip client)
enforce_ip-Counts ip none = pure-Counts tt
enforce_ip-Counts ip (some client) = elim (Bool-cases (text_eq client (codes ""))) [
  | inl e ↦ rw e (pure-Counts tt)
  | inr e ↦ rw e (elim (Bool-cases (text_eq client (codes "unknown"))) [
    | inl f ↦ rw f (pure-Counts tt)
    | inr f ↦ rw f (enforce_limit-Counts _ _ _ _)
  ])
]

pub enforce_login-Counts :
    (login ip : Limit) (identity : Text) (client : Option Text)
    → Counts (enforce_login_rate_limit login ip identity client)
unfolding enforce_login_rate_limit
enforce_login-Counts login ip identity client =
    search (then-Counts, enforce_limit-Counts, enforce_ip-Counts)

pub enforce_register-Counts :
    (register ip : Limit) (identity : Text) (client : Option Text)
    → Counts (enforce_register_rate_limit register ip identity client)
unfolding enforce_register_rate_limit
enforce_register-Counts register ip identity client =
    search (then-Counts, enforce_limit-Counts, enforce_ip-Counts)
