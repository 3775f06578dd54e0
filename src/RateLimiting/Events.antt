-- ===== src/RateLimiting/Events.antt =====
-- Sequences of requests, and the requests of one sender that pass.
use prime_pizza_backend.Base.{ℕ, ◌+◌, Bool, true, false, ◌&&◌, List, [], ◌∷◌, if◌then◌else◌}
use prime_pizza_backend.Text.{Text, text_eq}
use prime_pizza_backend.RateLimiting.Policies.{
  PolicyName, same_policy, RateLimitPolicy, RateSettings, Request, policy_for_path, get_client_ip,
}
use prime_pizza_backend.RateLimiting.Windows.{
  Window, minute, hour, burst_window, RateKey, RateWorld,
}
use prime_pizza_backend.RateLimiting.Dispatch.{
  Disposition, handed_on, handed_on_with, unavailable, too_many, is_counted, dispatch,
}

pub data RateEvent : Type 0 where
  arrives : Request → RateEvent
  time_passes : ℕ → RateEvent

abbrev pub later : ℕ → RateWorld → RateWorld
later d w = record w { now = w.now + d }

abbrev pub is_let_through : Disposition → Bool
is_let_through handed_on = true
is_let_through (handed_on_with limit remaining name) = true
is_let_through (unavailable name) = false
is_let_through (too_many retry_after limit name) = false

abbrev pub waited : List RateEvent → ℕ
waited [] = 0
waited (arrives r ∷ es) = waited es
waited (time_passes d ∷ es) = d + waited es

abbrev pub limit_of : RateLimitPolicy → Window → ℕ
limit_of policy minute = policy.per_minute
limit_of policy hour = policy.per_hour
limit_of policy burst_window = policy.burst

module _ (settings : RateSettings) (name : PolicyName) (identity : Text) where
  -- A request that is counted for the sender under the policy.
  unfoldable pub is_for : Request → Bool
  is_for r =
      is_counted settings r
      && same_policy (policy_for_path settings r.path r.method).name name
      && text_eq (get_client_ip settings r) identity

  -- How many of these the middleware lets through.
  unfoldable pub passed : List RateEvent → RateWorld → ℕ
  passed [] w = 0
  passed (arrives r ∷ es) w =
      let (d, w') = dispatch settings r w in
      (if is_for r && is_let_through d then 1 else 0) + passed es w'
  passed (time_passes d ∷ es) w = passed es (later d w)

  abbrev pub key_in : Window → ℕ → RateKey
  key_in x slot = record { policy = name; identity = identity; window = x; slot = slot }
