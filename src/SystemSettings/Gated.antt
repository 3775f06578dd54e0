-- ===== src/SystemSettings/Gated.antt =====
-- The maintenance mode after a change of its setting.
use prime_pizza_backend.Base.{
  ℕ, ◌+◌, ◌<◌, ◌≡◌, refl, sym, ap, ◌∙◌, inl, inr, Bool, true, false, not, ◌&&◌, Option, some, List,
  [], ◌∷◌, arith, map, Option-cases, Bool-cases, if◌then◌else◌,
}
use prime_pizza_backend.Base.Exec.{ok}
use prime_pizza_backend.Text.{Text, text_eq}
use prime_pizza_backend.Money.{Decimal}
use prime_pizza_backend.Commerce.{CommerceConfig}
use prime_pizza_backend.Models.{SystemSetting}
use prime_pizza_backend.Store.{World, CachedCommerce, run_request, finish}
use prime_pizza_backend.SystemSettings.Known.{
  EnvSettings, get_by_key, value_of, is_settings_key, known_keys,
}
use prime_pizza_backend.SystemSettings.Commerce.{
  config_of, live_commerce, cache_commerce, get_config, parse_bool,
}
use prime_pizza_backend.SystemSettings.Service.{SystemSettingUpsertRequest, upsert, upserted}
use prime_pizza_backend.SystemSettings.Maintenance.{
  is_exempt, handed_on, maintenance_answer, maintenance_enabled, maintenance_gate,
}
use prime_pizza_backend.SystemSettings.Calls.{
  SettingsCall, commerce_call, time_passes, settings_call, settings_calls,
}
use prime_pizza_backend.SystemSettings.Upserts.{settled, upsert_run}
use prime_pizza_backend.SystemSettings.Current.{get_config_hit, get_config_miss}
use prime_pizza_backend.SystemSettings.Mode.{
  mode_key, stored-found, upserted-has_key, Gated, Gated-enabled,
}

-- What does not go through the settings service.
pub data Reading : Type 0 where
  reads_config : Reading
  waits : ℕ → Reading

abbrev pub call_of : Reading → SettingsCall
call_of reads_config = commerce_call
call_of (waits seconds) = time_passes seconds

abbrev pub waited : List Reading → ℕ
waited [] = 0
waited (reads_config ∷ rs) = waited rs
waited (waits seconds ∷ rs) = seconds + waited rs

known_mode : is_settings_key mode_key ≡ true
unfolding is_settings_key known_keys text_eq
known_mode = refl

gate_answer :
    (path : Text) (w : World) (b : Bool)
    → maintenance_enabled w ≡ b
    → maintenance_gate path w
      ≡ (if not (is_exempt path) && b then maintenance_answer else handed_on)
unfolding maintenance_gate
gate_answer path w b e = elim (Bool-cases (is_exempt path)) [
  | inl exempt ↦ rw exempt refl
  | inr other ↦ rw (other, e) (opens b)
]
  where
    opens :
        (b : Bool)
        → (if not b then handed_on else maintenance_answer)
          ≡ (if b then maintenance_answer else handed_on)
    opens true = refl
    opens false = refl

module _ (number : Text → Option Decimal) (env : EnvSettings) where
  resolved-mode :
      (rows : List SystemSetting)
      → (config_of number env rows).maintenance_mode
        ≡ parse_bool (value_of (get_by_key rows mode_key))
  unfolding config_of
  resolved-mode rows = refl

  abbrev resolved : World → CommerceConfig
  resolved w = config_of number env w.db.system_settings

  cached_config :
      (config : CommerceConfig) (w : World) (c : CachedCommerce)
      → (cache_commerce config w).redis.commerce ≡ some c
      → config ≡ c.config
  cached_config config w c e = ground arith

  resolved-row :
      {value : Option Text} {expires_at : ℕ} (w : World)
      → Gated value expires_at w
      → (resolved w).maintenance_mode ≡ parse_bool value
  resolved-row w g = resolved-mode w.db.system_settings ∙ ap parse_bool g.row

  get_config-Gated :
      (value : Option Text) (expires_at : ℕ) (w : World)
      → Gated value expires_at w
      → Gated value expires_at (get_config number env w).1
  get_config-Gated value expires_at w g = elim (Option-cases (live_commerce w)) [
    | inr (config, hit) ↦ rw (get_config_hit number env w config g.is_up hit) g
    | inl miss ↦ rw (get_config_miss number env w g.is_up miss) record {
      is_up = g.is_up;
      flag = g.flag;
      mode = λ c cached. rw (sym (cached_config (resolved w) w c cached)) (resolved-row w g);
      row = g.row;
    }
  ]

  get_config-same :
      (w : World)
      → w.redis.is_up ≡ true
      → (config : CommerceConfig) × (t : World) × (get_config number env w ≡ (ok config, t))
        × (t.now ≡ w.now)
  get_config-same w up = elim (Option-cases (live_commerce w)) [
    | inr (config, hit) ↦ (config, w, get_config_hit number env w config up hit, refl)
    | inl miss ↦ (resolved w, _, get_config_miss number env w up miss, refl)
  ]

  -- The mode as long as the flag lives.
  readings-Gated :
      (rs : List Reading) (value : Option Text) (expires_at : ℕ) (w : World)
      → Gated value expires_at w
      → w.now + waited rs < expires_at
      → maintenance_enabled (settings_calls number env (map call_of rs) w) ≡ parse_bool value
  unfolding settings_calls settings_call run_request
  readings-Gated [] value expires_at w g soon =
      Gated-enabled value expires_at w g (omega (arith, soon))
  readings-Gated (waits seconds ∷ rs) value expires_at w g soon =
      readings-Gated rs value expires_at (record w { now = w.now + seconds })
        record { is_up = g.is_up; flag = g.flag; mode = g.mode; row = g.row } (omega (arith, soon))
  readings-Gated (reads_config ∷ rs) value expires_at w g soon =
      let (config, t, run, same) = get_config-same w g.is_up in
      ap (λ p. maintenance_enabled (settings_calls number env (map call_of rs) (finish p).1)) run
      ∙ readings-Gated rs value expires_at t
          (rw (ap (λ p. p.1) run) at (get_config-Gated value expires_at w g)) (rw same soon)

  -- With Redis up: a change of the setting of the maintenance mode succeeds, and for the 300 seconds
  -- that follow, while the services read the configuration and no setting changes again, a request is
  -- answered 503 exactly when the stored value is an affirmative one and the path is not exempt.
  pub maintenance_gate_after :
      (payload : SystemSettingUpsertRequest) (actor_id : ℕ) (w : World) (rs : List Reading)
      (path : Text)
      → w.redis.is_up ≡ true
      → waited rs < 300
      → let (r, w') = upsert mode_key payload actor_id w in
        (row : SystemSetting) × (r ≡ ok row)
        × (maintenance_gate path (settings_calls number env (map call_of rs) w') ≡ (
            if not (is_exempt path) && parse_bool row.value then maintenance_answer else handed_on))
  unfolding text_eq
  maintenance_gate_after payload actor_id w rs path up soon =
      let row = upserted mode_key payload actor_id (get_by_key w.db.system_settings mode_key) in
      let w' = settled mode_key row actor_id w in
      let run = upsert_run mode_key payload actor_id w up known_mode in
      let g : Gated row.value (w.now + 300) w' = record {
        is_up = up;
        flag = refl;
        mode = λ c cached. ground arith;
        row = ap value_of (
            stored-found mode_key row w.db.system_settings
              (upserted-has_key mode_key payload actor_id w.db.system_settings));
      } in
      let enabled = readings-Gated rs row.value (w.now + 300) w' g (omega (arith, soon)) in
      (row, ap (λ p. p.0) run, rw run (gate_answer path _ (parse_bool row.value) enabled))
