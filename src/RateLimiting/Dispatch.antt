-- ===== src/RateLimiting/Dispatch.antt =====
-- `RateLimitingMiddleware.dispatch`.
use prime_pizza_backend.Base.{ℕ, Bool, not, ◌&&◌, Option, none, some, [], ◌∷◌, if◌then◌else◌}
use prime_pizza_backend.Text.{Text, text_in}
use prime_pizza_backend.RateLimiting.Policies.{
  PolicyName, email, upload, admin, policy_in, RateLimitPolicy, RateSettings, options, same_method,
  Request, policy_for_path, get_client_ip,
}
use prime_pizza_backend.RateLimiting.Windows.{RateWorld, Allowance, check_windows}

-- What becomes of a request: it is handed on as it is; it is handed on and the answer gets the limit,
-- what is left of it, and the policy's name; or the middleware answers 503 or 429.
pub data Disposition : Type 0 where
  handed_on : Disposition
  handed_on_with : ℕ → ℕ → PolicyName → Disposition
  unavailable : PolicyName → Disposition
  too_many : ℕ → ℕ → PolicyName → Disposition

-- The owner's addresses are not counted.
unfoldable pub is_bypassed : RateSettings → PolicyName → Text → Bool
unfolding text_in
is_bypassed settings name client_ip =
    settings.rate_limit_owner_bypass
    && policy_in name (admin ∷ email ∷ upload ∷ [])
    && text_in client_ip settings.rate_limit_bypass_ips

-- `retry_after or "60"`
abbrev retry : Option ℕ → ℕ
retry none = 60
retry (some s) = s

abbrev pub answer : RateSettings → RateLimitPolicy → Option Allowance → Disposition
answer settings policy none =
    if policy_in policy.name settings.rate_limit_fail_closed_policies
    then unavailable policy.name
    else handed_on
answer settings policy (some a) =
    if a.allowed
    then handed_on_with policy.per_minute a.remaining policy.name
    else too_many (retry a.retry_after) policy.per_minute policy.name

abbrev pub answered :
    RateSettings → RateLimitPolicy → Option Allowance × RateWorld → Disposition × RateWorld
answered settings policy (a, w) = (answer settings policy a, w)

-- Whether the counters are asked at all.
unfoldable pub is_counted : RateSettings → Request → Bool
is_counted settings request =
    settings.rate_limit_enabled
    && not (same_method request.method options)
    && not (
        is_bypassed settings (policy_for_path settings request.path request.method).name
          (get_client_ip settings request))

unfoldable pub dispatch : RateSettings → Request → RateWorld → Disposition × RateWorld
dispatch settings request w =
    let policy = policy_for_path settings request.path request.method in
    if is_counted settings request
    then answered settings policy (check_windows (get_client_ip settings request) policy w)
    else (handed_on, w)
