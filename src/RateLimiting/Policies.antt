-- ===== src/RateLimiting/Policies.antt =====
-- Which policy a request falls under, and who sends it.
use prime_pizza_backend.Base.{
  ℕ, Bool, false, not, ◌&&◌, ◌||◌, Option, none, some, List, [], ◌∷◌, ◌==◌, if◌then◌else◌,
}
use prime_pizza_backend.Text.{Text, codes, lower, strip, starts_with, has_text, until_code, text_in}

pub data PolicyName : Type 0 where
  health auth email upload admin checkout orders search default : PolicyName

abbrev pub policy_place : PolicyName → ℕ
policy_place health = 0
policy_place auth = 1
policy_place email = 2
policy_place upload = 3
policy_place admin = 4
policy_place checkout = 5
policy_place orders = 6
policy_place search = 7
policy_place default = 8

abbrev pub same_policy : PolicyName → PolicyName → Bool
same_policy a b = policy_place a == policy_place b

-- `a in {…}`
abbrev pub policy_in : PolicyName → List PolicyName → Bool
policy_in a [] = false
policy_in a (b ∷ l) = same_policy a b || policy_in a l

pub record RateLimitPolicy : Type 0 where
  pub name : PolicyName
  pub per_minute : ℕ
  pub per_hour : ℕ
  pub burst : ℕ

-- The settings `rate_limit_{name}_per_minute`, `…_per_hour` and `…_burst` are one policy for each
-- name.
pub record RateSettings : Type 0 where
  pub rate_limit_enabled : Bool
  pub rate_limit_owner_bypass : Bool
  pub rate_limit_bypass_ips : List Text
  pub rate_limit_fail_closed_policies : List PolicyName
  pub trust_x_forwarded_for : Bool
  pub trusted_proxy_ips : List Text
  pub limits : PolicyName → RateLimitPolicy

pub data Method : Type 0 where
  get post put patch delete options other : Method

abbrev pub method_place : Method → ℕ
method_place get = 0
method_place post = 1
method_place put = 2
method_place patch = 3
method_place delete = 4
method_place options = 5
method_place other = 6

abbrev pub same_method : Method → Method → Bool
same_method a b = method_place a == method_place b

-- What the middleware reads of a request: the peer's address and the two headers.
pub record Request : Type 0 where
  pub method : Method
  pub path : Text
  pub peer : Option Text
  pub forwarded_for : Option Text
  pub real_ip : Option Text

-- The tests of `_policy_for_path`, in order.
unfoldable pub policy_name : Text → Method → PolicyName
unfolding lower starts_with has_text text_in
policy_name path method =
    let lowered = lower path in
    if starts_with lowered (codes "/health")
      || text_in lowered (codes "/" ∷ codes "/api/v1" ∷ codes "/api/v1/" ∷ [])
    then health
    else if has_text (codes "/auth/") lowered
    then auth
    else if has_text (codes "/admin/") lowered
    then if has_text (codes "test-email") lowered || has_text (codes "/email") lowered
      then email
      else if has_text (codes "upload") lowered
          || (same_method method post && has_text (codes "images") lowered)
      then upload
      else admin
    else if has_text (codes "/checkout") lowered && same_method method post
    then checkout
    else if has_text (codes "/orders") lowered && same_method method post
    then orders
    else if has_text (codes "/search") lowered
    then search
    else if (same_method method post || same_method method put || same_method method patch)
        && (has_text (codes "avatar") lowered
            || has_text (codes "images") lowered
            || has_text (codes "upload") lowered)
    then upload
    else default

-- `_policy_for_path`
unfoldable pub policy_for_path : RateSettings → Text → Method → RateLimitPolicy
unfolding policy_name
policy_for_path settings path method = record (settings.limits (policy_name path method)) {
  name = policy_name path method;
}

-- `value.strip()` where it is not empty
abbrev pub filled : Text → Option Text
filled [] = none
filled (c ∷ s) = some (c ∷ s)

abbrev pub or_next : Option Text → Option Text → Option Text
or_next none next = next
or_next (some a) next = some a

abbrev pub header : (Text → Text) → Option Text → Option Text
header f none = none
header f (some value) = filled (f value)

abbrev pub peer_of : Option Text → Text
peer_of none = codes "unknown"
peer_of (some []) = codes "unknown"
peer_of (some (c ∷ s)) = c ∷ s

abbrev text_or : Option Text → Text → Text
text_or none d = d
text_or (some a) d = a

-- `get_client_ip`
unfoldable pub get_client_ip : RateSettings → Request → Text
unfolding text_in strip until_code
get_client_ip settings request =
    let peer = peer_of request.peer in
    if not settings.trust_x_forwarded_for
    then peer
    else if not (text_in peer settings.trusted_proxy_ips)
        && not (text_in (codes "*") settings.trusted_proxy_ips)
    then peer
    else text_or
        (or_next (header (λ s. strip (until_code 44 s)) request.forwarded_for)
          (header strip request.real_ip))
        peer
