-- ===== src/Tests/Limits.antt =====
-- Three requests of one sender, of which two may pass in a minute.
use prime_pizza_backend.Base.{◌-◌, ◌≤◌, refl, true, false, none, some, List, [], ◌∷◌}
use prime_pizza_backend.Text.{codes}
use prime_pizza_backend.RateLimiting.Policies.{default, RateSettings, get, Request}
use prime_pizza_backend.RateLimiting.Windows.{minute, RateWorld, hits}
use prime_pizza_backend.RateLimiting.Events.{RateEvent, arrives, time_passes, passed}
use prime_pizza_backend.RateLimiting.Quota.{passed_bound}

abbrev two_a_minute : RateSettings
two_a_minute = record {
  rate_limit_enabled = true;
  rate_limit_owner_bypass = false;
  rate_limit_bypass_ips = [];
  rate_limit_fail_closed_policies = [];
  trust_x_forwarded_for = false;
  trusted_proxy_ips = [];
  limits = λ name. record { name = name; per_minute = 2; per_hour = 100; burst = 30 };
}

abbrev menu : Request
menu = record {
  method = get;
  path = codes "/menu";
  peer = some (codes "10.0.0.1");
  forwarded_for = none;
  real_ip = none;
}

abbrev visits : List RateEvent
visits = arrives menu ∷ time_passes 5 ∷ arrives menu ∷ arrives menu ∷ []

abbrev fresh : RateWorld
fresh = record { is_up = true; counters = []; now = 600 }

passed_bound_example :
    passed two_a_minute default (codes "10.0.0.1") visits fresh
    ≤ 2
      - hits
          (record { policy = default; identity = codes "10.0.0.1"; window = minute; slot = 10 })
          fresh
passed_bound_example =
    passed_bound two_a_minute default (codes "10.0.0.1") minute visits fresh refl tt refl
