-- ===== src/SystemSettings/Maintenance.antt =====
-- `MaintenanceModeMiddleware` of app/middleware/maintenance.py.
use prime_pizza_backend.Base.{
  Bool, false, not, ◌&&◌, ◌||◌, Option, none, some, [], ◌∷◌, ◌++◌, any, ltb, if◌then◌else◌,
}
use prime_pizza_backend.Text.{Text, codes, text_eq, lower, starts_with, has_text, text_in}
use prime_pizza_backend.Store.{World}
use prime_pizza_backend.SystemSettings.Commerce.{is_on}

unfoldable pub is_exempt : Text → Bool
unfolding text_eq lower starts_with has_text text_in
is_exempt path =
    text_in path (codes "/" ∷ codes "/favicon.ico" ∷ [])
    || any (λ p. text_eq path p || starts_with path (p ++ codes "/"))
        (codes "/health" ∷ codes "/docs" ∷ codes "/redoc" ∷ codes "/openapi.json" ∷ [])
    || has_text (codes "/auth/") (lower path)
    || has_text (codes "/admin/") (lower path)

-- `redis.get(COMMERCE_CACHE_KEY)` and `redis.get("settings:maintenance")`
abbrev pub cached_mode : World → Option Bool
cached_mode w = elim w.redis.commerce [
  | none ↦ none
  | some c ↦ if ltb w.now c.expires_at then some c.config.maintenance_mode else none
]

abbrev pub cached_flag : World → Option Text
cached_flag w = elim w.redis.maintenance [
  | none ↦ none
  | some f ↦ if ltb w.now f.expires_at then some f.value else none
]

abbrev pub flag_on : Option Text → Bool
flag_on none = false
flag_on (some []) = false
flag_on (some (c ∷ s)) = is_on (lower (c ∷ s))

abbrev pub mode_or : Option Bool → Bool → Bool
mode_or none flag = flag
mode_or (some mode) flag = mode

-- `_maintenance_enabled`; with Redis down, false.
unfoldable pub maintenance_enabled : World → Bool
unfolding lower text_in
maintenance_enabled w = w.redis.is_up && mode_or (cached_mode w) (flag_on (cached_flag w))

pub data Gate : Type 0 where
  handed_on maintenance_answer : Gate

-- `dispatch`: the request is handed on, or answered 503.
unfoldable pub maintenance_gate : Text → World → Gate
unfolding is_exempt maintenance_enabled
maintenance_gate path w =
    if is_exempt path
    then handed_on
    else if not (maintenance_enabled w)
    then handed_on
    else maintenance_answer
