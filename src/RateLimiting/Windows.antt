-- ===== src/RateLimiting/Windows.antt =====
-- `_check_windows`: the counters in Redis.
use prime_pizza_backend.Base.{
  ℕ, ◌+◌, ◌-◌, ◌/◌, Bool, true, false, not, ◌&&◌, Option, none, some, List, ◌∷◌, ltb, ◌==◌, keep,
  find_first, if◌then◌else◌,
}
use prime_pizza_backend.Text.{Text, text_eq}
use prime_pizza_backend.RateLimiting.Policies.{PolicyName, same_policy, RateLimitPolicy}

pub data Window : Type 0 where
  minute hour burst_window : Window

abbrev pub seconds : Window → ℕ
seconds minute = 60
seconds hour = 3600
seconds burst_window = 10

-- f"rl:{policy.name}:{identity}:{window}:{slot}"
pub record RateKey : Type 0 where
  pub policy : PolicyName
  pub identity : Text
  pub window : Window
  pub slot : ℕ

unfoldable pub same_key : RateKey → RateKey → Bool
unfolding text_eq
same_key a b =
    same_policy a.policy b.policy
    && text_eq a.identity b.identity
    && seconds a.window == seconds b.window
    && a.slot == b.slot

pub record RateCounter : Type 0 where
  pub key : RateKey
  pub count : ℕ
  pub expires_at : ℕ

-- A counter that has expired may still be in the list; every read leaves it out.
pub record RateWorld : Type 0 where
  pub is_up : Bool
  pub counters : List RateCounter
  pub now : ℕ

unfoldable pub live_counter : RateKey → RateWorld → Option RateCounter
unfolding same_key
live_counter key w = find_first (λ c. same_key c.key key && ltb w.now c.expires_at) w.counters

-- `incr(key)` and `expire(key, …, nx=True)`: a new counter has one hit and the window before it.
abbrev pub bumped : RateKey → RateWorld → Option RateCounter → RateCounter
bumped key w none = record { key = key; count = 1; expires_at = w.now + seconds key.window }
bumped key w (some c) = record { key = key; count = c.count + 1; expires_at = c.expires_at }

unfoldable pub hit : RateKey → RateWorld → RateWorld
unfolding live_counter same_key
hit key w = record w {
  counters = bumped key w (live_counter key w) ∷ keep (λ c. not (same_key c.key key)) w.counters;
}

abbrev pub count_of : Option RateCounter → ℕ
count_of none = 0
count_of (some c) = c.count

-- The value that `incr` answers is the count after it.
unfoldable pub hits : RateKey → RateWorld → ℕ
unfolding live_counter
hits key w = count_of (live_counter key w)

abbrev pub key_at : RateLimitPolicy → Text → ℕ → Window → RateKey
key_at policy identity now window = record {
  policy = policy.name;
  identity = identity;
  window = window;
  slot = now / seconds window;
}

-- The pipeline: the three counters are hit in this order.
unfoldable pub hit_all : RateLimitPolicy → Text → RateWorld → RateWorld
hit_all policy identity w =
    hit (key_at policy identity w.now burst_window)
      (hit (key_at policy identity w.now hour) (hit (key_at policy identity w.now minute) w))

pub record Allowance : Type 0 where
  pub allowed : Bool
  pub retry_after : Option ℕ
  pub remaining : ℕ

abbrev pub verdict : RateLimitPolicy → ℕ → ℕ → ℕ → Allowance
verdict policy minute_count hour_count burst_count =
    if ltb policy.per_minute minute_count
    then record { allowed = false; retry_after = some 60; remaining = policy.burst - minute_count }
    else if ltb policy.per_hour hour_count
    then record { allowed = false; retry_after = some 3600; remaining = policy.burst - hour_count }
    else if ltb policy.burst burst_count
    then record { allowed = false; retry_after = some 10; remaining = 0 }
    else record { allowed = true; retry_after = none; remaining = policy.burst - burst_count }

-- `_check_windows`; `none` is the exception of a Redis that is down.
unfoldable pub check_windows : Text → RateLimitPolicy → RateWorld → Option Allowance × RateWorld
check_windows identity policy w =
    let after = hit_all policy identity w in
    if w.is_up
    then (
      some (
          verdict policy (hits (key_at policy identity w.now minute) after)
            (hits (key_at policy identity w.now hour) after)
            (hits (key_at policy identity w.now burst_window) after)),
      after,
    )
    else (none, w)
