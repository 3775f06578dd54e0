-- ===== src/SystemSettings/Commerce.antt =====
-- `CommerceConfigService` of app/services/commerce_config.py.
use prime_pizza_backend.Base.{
  ◌+◌, Bool, false, Option, none, some, List, [], ◌∷◌, ltb, if◌then◌else◌,
}
use prime_pizza_backend.Base.Exec.{ok, err, pure, ◌>>=◌}
use prime_pizza_backend.Text.{Text, codes, strip, lower, text_in}
use prime_pizza_backend.Errors.{connection_error}
use prime_pizza_backend.Money.{Decimal, of_cents, money}
use prime_pizza_backend.Commerce.{CommerceConfig}
use prime_pizza_backend.Models.{SystemSetting}
use prime_pizza_backend.Store.{World, Service}
use prime_pizza_backend.SystemSettings.Known.{EnvSettings, get_by_key, value_of}

-- A command of Redis, outside any `try`.
abbrev pub on_cache : {A : Type 0} → (World → A × World) → Service A
on_cache f w =
    if w.redis.is_up then (let (a, w') = f w in (ok a, w')) else (err connection_error, w)

-- `_from_env`
abbrev pub from_env : EnvSettings → CommerceConfig
from_env env = record {
  delivery_fee = money env.delivery_fee_flat;
  free_delivery_threshold = money env.free_delivery_threshold;
  tax_percent = env.tax_rate_percent;
  maintenance_mode = false;
}

abbrev pub rounded : Option Decimal → Decimal → Decimal
rounded none fallback = fallback
rounded (some d) fallback = of_cents (money d)

abbrev pub parse_filled : (Text → Option Decimal) → Text → Decimal → Decimal
parse_filled number [] fallback = fallback
parse_filled number (c ∷ s) fallback = rounded (number (c ∷ s)) fallback

-- `_parse_decimal`. `number` is Python's `Decimal(text)`, at texts that are no negative number; `none`
-- where it raises.
unfoldable pub parse_decimal : (Text → Option Decimal) → Option Text → Decimal → Decimal
unfolding strip
parse_decimal number none fallback = fallback
parse_decimal number (some raw) fallback = parse_filled number (strip raw) fallback

abbrev pub or_false : Option Text → Text
or_false none = codes "false"
or_false (some []) = codes "false"
or_false (some (c ∷ s)) = c ∷ s

-- `raw in {"1", "true", "yes", "on"}`
abbrev pub is_on : Text → Bool
is_on raw = text_in raw (codes "1" ∷ codes "true" ∷ codes "yes" ∷ codes "on" ∷ [])

unfoldable pub parse_bool : Option Text → Bool
unfolding strip lower text_in
parse_bool raw = is_on (lower (strip (or_false raw)))

-- The configuration that the rows give. The fee and the threshold are `Decimal`s with two places
-- and are kept as cents.
unfoldable pub config_of :
    (Text → Option Decimal) → EnvSettings → List SystemSetting → CommerceConfig
unfolding parse_decimal parse_bool
config_of number env rows =
    let value = λ (key : Text). value_of (get_by_key rows key) in
    record {
      delivery_fee = money (
          parse_decimal number (value (codes "delivery.fee"))
            (of_cents (from_env env).delivery_fee));
      free_delivery_threshold = money (
          parse_decimal number (value (codes "delivery.free_threshold"))
            (of_cents (from_env env).free_delivery_threshold));
      tax_percent = parse_decimal number (value (codes "tax.percent")) (from_env env).tax_percent;
      maintenance_mode = parse_bool (value (codes "maintenance.mode"));
    }

-- A cached configuration, as it is read back: the amounts pass through `money` again.
abbrev pub read_back : CommerceConfig → CommerceConfig
read_back c = record c {
  delivery_fee = money (of_cents c.delivery_fee);
  free_delivery_threshold = money (of_cents c.free_delivery_threshold);
}

unfoldable pub live_commerce : World → Option CommerceConfig
live_commerce w = elim w.redis.commerce [
  | none ↦ none
  | some c ↦ if ltb w.now c.expires_at then some (read_back c.config) else none
]

-- `set_json(COMMERCE_CACHE_KEY, …, ttl_seconds=COMMERCE_CACHE_TTL_SECONDS)`
abbrev pub cache_commerce : CommerceConfig → World → World
cache_commerce config w = record w {
  redis = record w.redis { commerce = some record { config = config; expires_at = w.now + 60 } };
}

abbrev pub cached_or : Option CommerceConfig → Service CommerceConfig → Service CommerceConfig
cached_or none compute = compute
cached_or (some config) compute = pure config

-- `get`; a write of the cache that fails raises, as its read does.
unfoldable pub get_config : (Text → Option Decimal) → EnvSettings → Service CommerceConfig
unfolding config_of live_commerce
get_config number env = do
  cached ← on_cache (λ w. (live_commerce w, w))
  cached_or cached (λ w.
      let config = config_of number env w.db.system_settings in
      on_cache (λ v. (config, cache_commerce config v)) w)

-- `invalidate`
unfoldable pub invalidate : Service (Unit {0})
invalidate =
    on_cache λ w. (tt, record w { redis = record w.redis { commerce = none; maintenance = none } })
