-- ===== src/SystemSettings/Calls.antt =====
-- Sequences of requests to the settings and to what reads them.
use prime_pizza_backend.Base.{ℕ, ◌+◌, ◌≡◌, true, Option, some, List, [], ◌∷◌}
use prime_pizza_backend.Text.{Text}
use prime_pizza_backend.Money.{Decimal, of_cents, money}
use prime_pizza_backend.Commerce.{CommerceConfig}
use prime_pizza_backend.Store.{World, run_request}
use prime_pizza_backend.SystemSettings.Known.{EnvSettings}
use prime_pizza_backend.SystemSettings.Commerce.{
  parse_decimal, config_of, live_commerce, get_config,
}
use prime_pizza_backend.SystemSettings.View.{restaurant_view}
use prime_pizza_backend.SystemSettings.Service.{
  SystemSettingUpsertRequest, list_settings, get_setting, upsert, bulk_upsert,
}

pub data SettingsCall : Type 0 where
  list_call : SettingsCall
  get_call : Text → SettingsCall
  view_call : SettingsCall
  upsert_call : Text → SystemSettingUpsertRequest → ℕ → SettingsCall
  bulk_call : List (Text × SystemSettingUpsertRequest) → ℕ → SettingsCall
  commerce_call : SettingsCall
  time_passes : ℕ → SettingsCall

module _ (number : Text → Option Decimal) (env : EnvSettings) where
  unfoldable pub settings_call : SettingsCall → World → World
  unfolding run_request
  settings_call list_call w = (run_request (list_settings env) w).1
  settings_call (get_call key) w = (run_request (get_setting env key) w).1
  settings_call view_call w = (run_request (restaurant_view env) w).1
  settings_call (upsert_call key payload actor_id) w =
      (run_request (upsert key payload actor_id) w).1
  settings_call (bulk_call items actor_id) w = (run_request (bulk_upsert items actor_id) w).1
  settings_call commerce_call w = (run_request (get_config number env) w).1
  settings_call (time_passes seconds) w = record w { now = w.now + seconds }

  unfoldable pub settings_calls : List SettingsCall → World → World
  unfolding settings_call
  settings_calls [] w = w
  settings_calls (c ∷ cs) w = settings_calls cs (settings_call c w)

  -- The environment's numbers read back from their text, and its tax has two places.
  pub record IsPlain : Type 0 where
    pub fee :
        parse_decimal number (some env.delivery_fee_text) (of_cents (money env.delivery_fee_flat))
        ≡ of_cents (money env.delivery_fee_flat)
    pub threshold :
        parse_decimal number
          (some env.free_delivery_text)
          (of_cents (money env.free_delivery_threshold))
        ≡ of_cents (money env.free_delivery_threshold)
    pub tax :
        parse_decimal number (some env.tax_rate_text) env.tax_rate_percent ≡ env.tax_rate_percent

  -- What is cached, as long as it lives, is what the rows give.
  pub record IsCoherent (w : World) : Type 0 where
    pub is_up : w.redis.is_up ≡ true
    pub is_committed : w.committed ≡ w.db
    pub is_current :
        (config : CommerceConfig)
        → live_commerce w ≡ some config
        → config ≡ config_of number env w.db.system_settings
