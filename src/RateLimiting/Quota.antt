-- ===== src/RateLimiting/Quota.antt =====
-- How many requests of one sender pass within one slot of a window.
use prime_pizza_backend.Base.{
  ℕ, ◌+◌, ◌-◌, ◌/◌, ◌≤◌, ◌≡◌, refl, true, ◌&&◌, List, [], ◌∷◌, arith, if◌then◌else◌,
}
use prime_pizza_backend.Text.{Text}
use prime_pizza_backend.RateLimiting.Policies.{PolicyName, RateSettings, Request}
use prime_pizza_backend.RateLimiting.Windows.{
  Window, minute, hour, burst_window, seconds, RateWorld, hits,
}
use prime_pizza_backend.RateLimiting.Dispatch.{dispatch}
use prime_pizza_backend.RateLimiting.Counted.{IsTimed, hits-later}
use prime_pizza_backend.RateLimiting.Events.{
  RateEvent, arrives, time_passes, later, is_let_through, waited, limit_of, is_for, passed, key_in,
}
use prime_pizza_backend.RateLimiting.Steps.{Stepped, step}

module _ (settings : RateSettings) (name : PolicyName) (identity : Text) where
  between :
      (x : Window) (now d e slot : ℕ)
      → now / seconds x ≡ slot
      → (now + (d + e)) / seconds x ≡ slot
      → (now + d) / seconds x ≡ slot
  between minute now d e slot h k = omega arith
  between hour now d e slot h k = omega arith
  between burst_window now d e slot h k = omega arith

  passed_arrives :
      (r : Request) (w : RateWorld) (x : Window) (limit before rest : ℕ)
      → Stepped settings name identity r w x
      → hits (key_in settings name identity x (w.now / seconds x)) w ≡ before
      → limit_of (settings.limits name) x ≡ limit
      → rest
        ≤ limit
          - hits (key_in settings name identity x (w.now / seconds x)) (dispatch settings r w).1
      → (if is_for settings name identity r && is_let_through (dispatch settings r w).0
            then 1
            else 0)
          + rest
        ≤ limit - before
  passed_arrives r w x limit before rest s b l h = ground (arith, s.one_more, s.in_limit)

  passed_slot :
      (x : Window) (slot : ℕ) (es : List RateEvent) (w : RateWorld)
      → w.is_up ≡ true
      → IsTimed w
      → w.now / seconds x ≡ slot
      → (w.now + waited es) / seconds x ≡ slot
      → passed settings name identity es w
        ≤ limit_of (settings.limits name) x - hits (key_in settings name identity x slot) w
  unfolding passed
  passed_slot x slot [] w up t start end = omega arith
  passed_slot x slot (arrives r ∷ es) w up t start end =
      let s = step settings name identity r w x up t in
      let w' = (dispatch settings r w).1 in
      let ih =
        passed_slot x slot es w' s.is_up s.is_timed (rw s.same_time start) (rw s.same_time end) in
      passed_arrives r w x _ _ (passed settings name identity es w') s (rw start) refl (rw start ih)
  passed_slot x slot (time_passes d ∷ es) w up t start end =
      let add_assoc3 : w.now + d + waited es ≡ w.now + (d + waited es) = omega arith in
      let mid = between x w.now d (waited es) slot start end in
      let ih = passed_slot x slot es (later d w) up t mid (rw add_assoc3 end) in
      rw (hits-later (key_in settings name identity x slot) d w t start mid) at ih

  -- While Redis is up, and where no counter expires before its window is over: of any requests,
  -- however they come, as long as the clock stays within one minute, one hour or one burst of ten
  -- seconds, at most as many of a sender's counted requests under a policy pass as the policy's
  -- limit for that window, less those counted before.
  pub passed_bound :
      (x : Window) (es : List RateEvent) (w : RateWorld)
      → w.is_up ≡ true
      → IsTimed w
      → (w.now + waited es) / seconds x ≡ w.now / seconds x
      → passed settings name identity es w
        ≤ limit_of (settings.limits name) x
          - hits
              (record { policy = name; identity = identity; window = x; slot = w.now / seconds x })
              w
  passed_bound x es w up t same = passed_slot x (w.now / seconds x) es w up t refl same
