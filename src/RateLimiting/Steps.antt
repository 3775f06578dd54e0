-- ===== src/RateLimiting/Steps.antt =====
-- What one request does to the counters.
use prime_pizza_backend.Base.{
  ℕ, ◌+◌, ◌/◌, ◌≤◌, ◌≡◌, refl, ap, inl, inr, true, false, ◌&&◌, ◌∙◌, some, arith, if◌then◌else◌,
  Bool-cases,
}
use prime_pizza_backend.Text.{Text, text_eq, eq_of_text_eq}
use prime_pizza_backend.RateLimiting.Policies.{
  PolicyName, same_policy, RateLimitPolicy, RateSettings, Request, policy_for_path, get_client_ip,
}
use prime_pizza_backend.RateLimiting.Windows.{
  Window, minute, hour, burst_window, seconds, same_key, RateWorld, hit, hits, key_at, hit_all,
  check_windows, verdict, Allowance,
}
use prime_pizza_backend.RateLimiting.Dispatch.{handed_on, is_counted, answer, dispatch}
use prime_pizza_backend.RateLimiting.Counted.{same_policy_sound, hits-hit, IsTimed, hit-IsTimed}
use prime_pizza_backend.RateLimiting.Events.{is_let_through, limit_of, is_for, key_in}

module _ (settings : RateSettings) (name : PolicyName) (identity : Text) where
  -- Of the three keys that a request hits, one belongs to the window.
  key_hits :
      (policy : RateLimitPolicy) (sender : Text) (now : ℕ) (x : Window)
      → let j = key_in settings name identity x (now / seconds x) in
        (if same_key (key_at policy sender now minute) j then 1 else 0)
          + (if same_key (key_at policy sender now hour) j then 1 else 0)
          + (if same_key (key_at policy sender now burst_window) j then 1 else 0)
        ≡ (if same_policy policy.name name && text_eq sender identity then 1 else 0)
  unfolding same_key
  key_hits policy sender now minute = ground arith
  key_hits policy sender now hour = ground arith
  key_hits policy sender now burst_window = ground arith

  hits-hit_all :
      (policy : RateLimitPolicy) (sender : Text) (w : RateWorld) (x : Window)
      → hits (key_in settings name identity x (w.now / seconds x)) (hit_all policy sender w)
        ≡ hits (key_in settings name identity x (w.now / seconds x)) w
          + (if same_policy policy.name name && text_eq sender identity then 1 else 0)
  unfolding hit_all
  hits-hit_all policy sender w x =
      let j = key_in settings name identity x (w.now / seconds x) in
      let w1 = hit (key_at policy sender w.now minute) w in
      let w2 = hit (key_at policy sender w.now hour) w1 in
      omega (
        arith,
        hits-hit j (key_at policy sender w.now minute) w,
        hits-hit j (key_at policy sender w.now hour) w1,
        hits-hit j (key_at policy sender w.now burst_window) w2,
        key_hits policy sender w.now x,
      )

  hit_all-IsTimed :
      (policy : RateLimitPolicy) (sender : Text) (w : RateWorld)
      → IsTimed w
      → IsTimed (hit_all policy sender w)
  unfolding hit_all hit
  hit_all-IsTimed policy sender w t =
      let w1 = hit (key_at policy sender w.now minute) w in
      let w2 = hit (key_at policy sender w.now hour) w1 in
      hit-IsTimed policy sender burst_window w2
        (hit-IsTimed policy sender hour w1 (hit-IsTimed policy sender minute w t))

  hit_all-same :
      (policy : RateLimitPolicy) (sender : Text) (w : RateWorld)
      → ((hit_all policy sender w).is_up ≡ w.is_up) × ((hit_all policy sender w).now ≡ w.now)
  unfolding hit_all hit
  hit_all-same policy sender w = (refl, refl)

  -- The keys of a sender's counters are those of the request that hits them.
  counts_of :
      (policy : RateLimitPolicy) (sender : Text) (x : Window) (now : ℕ)
      → policy.name ≡ name
      → sender ≡ identity
      → key_at policy sender now x ≡ key_in settings name identity x (now / seconds x)
  counts_of policy sender x now n i = ground arith

  -- A request that passes has a count of at most the limit in each window.
  verdict_allowed :
      (policy : RateLimitPolicy) (m h b : ℕ)
      → (verdict policy m h b).allowed ≡ true
      → (m ≤ policy.per_minute) × (h ≤ policy.per_hour) × (b ≤ policy.burst)
  verdict_allowed policy m h b e = ground arith

  let_through_allowed :
      (policy : RateLimitPolicy) (a : Allowance)
      → is_let_through (answer settings policy (some a)) ≡ true
      → a.allowed ≡ true
  let_through_allowed policy a e = ground arith

  abbrev judged : RateLimitPolicy → Text → RateWorld → Allowance
  judged policy sender w =
      verdict policy (hits (key_at policy sender w.now minute) (hit_all policy sender w))
        (hits (key_at policy sender w.now hour) (hit_all policy sender w))
        (hits (key_at policy sender w.now burst_window) (hit_all policy sender w))

  judged_limit :
      (policy : RateLimitPolicy) (sender : Text) (w : RateWorld) (x : Window)
      → (judged policy sender w).allowed ≡ true
      → hits (key_at policy sender w.now x) (hit_all policy sender w) ≤ limit_of policy x
  judged_limit policy sender w minute e = (verdict_allowed policy _ _ _ e).0
  judged_limit policy sender w hour e = (verdict_allowed policy _ _ _ e).1
  judged_limit policy sender w burst_window e = (verdict_allowed policy _ _ _ e).2

  dispatch_counted :
      (r : Request) (w : RateWorld)
      → w.is_up ≡ true
      → is_counted settings r ≡ true
      → let policy = policy_for_path settings r.path r.method in
        let sender = get_client_ip settings r in
        dispatch settings r w
        ≡ (answer settings policy (some (judged policy sender w)), hit_all policy sender w)
  unfolding dispatch check_windows
  dispatch_counted r w up counted = ground arith

  dispatch_free :
      (r : Request) (w : RateWorld)
      → is_counted settings r ≡ false
      → dispatch settings r w ≡ (handed_on, w)
  unfolding dispatch
  dispatch_free r w free = ground arith

  -- What a request does to the world, and the count that it must not pass.
  pub record Stepped (r : Request) (w : RateWorld) (x : Window) : Type 0 where
    pub is_up : (dispatch settings r w).1.is_up ≡ true
    pub same_time : (dispatch settings r w).1.now ≡ w.now
    pub is_timed : IsTimed (dispatch settings r w).1
    pub one_more :
        hits (key_in settings name identity x (w.now / seconds x)) (dispatch settings r w).1
        ≡ hits (key_in settings name identity x (w.now / seconds x)) w
          + (if is_for settings name identity r then 1 else 0)
    pub in_limit :
        is_for settings name identity r ≡ true
        → is_let_through (dispatch settings r w).0 ≡ true
        → hits (key_in settings name identity x (w.now / seconds x)) (dispatch settings r w).1
          ≤ limit_of (settings.limits name) x

  free_step :
      (r : Request) (w : RateWorld) (x : Window)
      → w.is_up ≡ true
      → IsTimed w
      → is_counted settings r ≡ false
      → Stepped r w x
  unfolding is_for
  free_step r w x up t free =
      let e = dispatch_free r w free in
      record {
        is_up = rw e up;
        same_time = rw e;
        is_timed = rw e t;
        one_more = rw (e, free) (omega arith);
        in_limit = λ for pass. absurd (ground arith);
      }

  policy_limit :
      (r : Request) (x : Window)
      → (policy_for_path settings r.path r.method).name ≡ name
      → limit_of (policy_for_path settings r.path r.method) x ≡ limit_of (settings.limits name) x
  unfolding policy_for_path
  policy_limit r minute e = ap (λ n. (settings.limits n).per_minute) e
  policy_limit r hour e = ap (λ n. (settings.limits n).per_hour) e
  policy_limit r burst_window e = ap (λ n. (settings.limits n).burst) e

  counted_step :
      (r : Request) (w : RateWorld) (x : Window)
      → w.is_up ≡ true
      → IsTimed w
      → is_counted settings r ≡ true
      → Stepped r w x
  unfolding is_for
  counted_step r w x up t counted =
      let policy = policy_for_path settings r.path r.method in
      let sender = get_client_ip settings r in
      let e = dispatch_counted r w up counted in
      record {
        is_up = rw e ((hit_all-same policy sender w).0 ∙ up);
        same_time = rw e (hit_all-same policy sender w).1;
        is_timed = rw e (hit_all-IsTimed policy sender w t);
        one_more = rw (e, counted) (hits-hit_all policy sender w x);
        in_limit = λ for pass.
            let n : policy.name ≡ name = same_policy_sound policy.name name (ground arith) in
            let i : sender ≡ identity = eq_of_text_eq sender identity (ground arith) in
            let allowed : (judged policy sender w).allowed ≡ true =
              let_through_allowed policy (judged policy sender w) (rw e at pass) in
            let bound = judged_limit policy sender w x allowed in
            rw e (rw (counts_of policy sender x w.now n i, policy_limit r x n) at bound);
      }

  pub step : (r : Request) (w : RateWorld) (x : Window) → w.is_up ≡ true → IsTimed w → Stepped r w x
  step r w x up t = elim (Bool-cases (is_counted settings r)) [
    | inl counted ↦ counted_step r w x up t counted
    | inr free ↦ free_step r w x up t free
  ]
