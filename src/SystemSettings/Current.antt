-- ===== src/SystemSettings/Current.antt =====
-- What every request leaves in the cache, and what `CommerceConfigService.get` answers.
use prime_pizza_backend.Base.{
  ℕ, ◌≡◌, refl, ap, ◌∙◌, inl, inr, true, Option, none, some, List, [], ◌∷◌, arith, Option-cases,
  Bool-cases,
}
use prime_pizza_backend.Base.Exec.{Result, ok, err, bind-run, or_raise, pure, ◌>>=◌}
use prime_pizza_backend.Base.Hoare.{Safe, Safe-bind, Safe-pure}
use prime_pizza_backend.Text.{Text}
use prime_pizza_backend.Money.{Decimal}
use prime_pizza_backend.Errors.{AppException, not_found_exception, text}
use prime_pizza_backend.Commerce.{CommerceConfig}
use prime_pizza_backend.Store.{World, run_request, finish, Service}
use prime_pizza_backend.SystemSettings.Known.{EnvSettings, get_by_key, is_settings_key}
use prime_pizza_backend.SystemSettings.Commerce.{
  config_of, live_commerce, cache_commerce, get_config, on_cache, cached_or,
}
use prime_pizza_backend.SystemSettings.View.{restaurant_view}
use prime_pizza_backend.SystemSettings.Service.{
  SystemSettingUpsertRequest, ensure_defaults, list_settings, get_setting, upsert, bulk_upsert,
}
use prime_pizza_backend.SystemSettings.Calls.{
  SettingsCall, list_call, get_call, view_call, upsert_call, bulk_call, commerce_call, time_passes,
  settings_call, settings_calls, IsPlain, IsCoherent,
}
use prime_pizza_backend.SystemSettings.Coherent.{
  finish-same, ensured, ensured-IsCoherent, read_back-same, live_commerce-later,
}
use prime_pizza_backend.SystemSettings.Upserts.{Dropped, upsert_unknown, upsert-Dropped}

module _ (number : Text → Option Decimal) (env : EnvSettings) where
  Dropped-IsCoherent : (w : World) → Dropped w → IsCoherent number env w
  unfolding live_commerce
  Dropped-IsCoherent w d = record {
    is_up = d.is_up;
    is_committed = d.is_committed;
    is_current = λ config live. let gone = d.is_dropped in absurd (ground arith);
  }

  upsert-IsCoherent :
      (key : Text) (payload : SystemSettingUpsertRequest) (actor_id : ℕ) (w : World)
      → IsCoherent number env w
      → IsCoherent number env (upsert key payload actor_id w).1
  upsert-IsCoherent key payload actor_id w c = elim (Bool-cases (is_settings_key key)) [
    | inl known ↦ Dropped-IsCoherent _ (upsert-Dropped key payload actor_id w c.is_up known)
    | inr unknown ↦ rw (upsert_unknown key payload actor_id w unknown) c
  ]

  abbrev Keeps : {A : Type 0} → Service A → Type 0
  Keeps {A = A} m = Safe {E = AppException} (IsCoherent number env) {A = A} (λ _. Unit {0}) m

  bulk_upsert-Keeps :
      (items : List (Text × SystemSettingUpsertRequest)) (actor_id : ℕ)
      → Keeps (bulk_upsert items actor_id)
  unfolding bulk_upsert
  bulk_upsert-Keeps [] actor_id = Safe-pure (IsCoherent number env) (λ _. Unit {0}) [] tt
  bulk_upsert-Keeps ((key, item) ∷ items) actor_id =
      Safe-bind (IsCoherent number env) (λ _. Unit {0}) (λ _. Unit {0}) (upsert key item actor_id)
        (λ row. bulk_upsert items actor_id >>= (λ rows. pure (row ∷ rows)))
        (record { run = λ w c. (upsert-IsCoherent key item actor_id w c, λ _ _. tt) })
        λ row _.
          Safe-bind (IsCoherent number env) (λ _. Unit {0}) (λ _. Unit {0})
            (bulk_upsert items actor_id) (λ rows. pure (row ∷ rows))
            (bulk_upsert-Keeps items actor_id)
            λ rows _. Safe-pure (IsCoherent number env) (λ _. Unit {0}) (row ∷ rows) tt

  on_cache_run :
      {A : Type 0} (f : World → A × World) (w : World)
      → w.redis.is_up ≡ true
      → on_cache f w ≡ (ok (f w).0, (f w).1)
  on_cache_run f w up = rw up refl

  abbrev resolved : World → CommerceConfig
  resolved w = config_of number env w.db.system_settings

  abbrev compute : Service CommerceConfig
  compute w = on_cache (λ v. (resolved w, cache_commerce (resolved w) v)) w

  pub get_config_hit :
      (w : World) (config : CommerceConfig)
      → w.redis.is_up ≡ true
      → live_commerce w ≡ some config
      → get_config number env w ≡ (ok config, w)
  unfolding get_config
  get_config_hit w config up hit =
      bind-run (on_cache (λ v. (live_commerce v, v))) (λ cached. cached_or cached compute) w w
        (some config) (ok config, w)
        (on_cache_run (λ v. (live_commerce v, v)) w up ∙ ap (λ o. (ok o, w)) hit) refl

  pub get_config_miss :
      (w : World)
      → w.redis.is_up ≡ true
      → live_commerce w ≡ none
      → get_config number env w ≡ (ok (resolved w), cache_commerce (resolved w) w)
  unfolding get_config
  get_config_miss w up miss =
      bind-run (on_cache (λ v. (live_commerce v, v))) (λ cached. cached_or cached compute) w w none
        (ok (resolved w), cache_commerce (resolved w) w)
        (on_cache_run (λ v. (live_commerce v, v)) w up ∙ ap (λ o. (ok o, w)) miss)
        (on_cache_run (λ v. (resolved w, cache_commerce (resolved w) v)) w up)

  cached-current :
      (w : World) (c config : CommerceConfig)
      → live_commerce (cache_commerce c w) ≡ some config
      → config ≡ c
  unfolding live_commerce
  cached-current w c config e = ground (arith, read_back-same c)

  get_config-IsCoherent :
      (w : World) → IsCoherent number env w → IsCoherent number env (get_config number env w).1
  get_config-IsCoherent w c = elim (Option-cases (live_commerce w)) [
    | inr (config, hit) ↦ rw (get_config_hit w config c.is_up hit) c
    | inl miss ↦ rw (get_config_miss w c.is_up miss) record {
      is_up = c.is_up;
      is_committed = c.is_committed;
      is_current = λ config live. cached-current w (resolved w) config live;
    }
  ]

  finish-IsCoherent :
      {A : Type 0} (p : Result AppException A × World)
      → IsCoherent number env p.1
      → IsCoherent number env (finish p).1
  finish-IsCoherent p c = rw (finish-same number env p c.is_committed) c

  found-IsCoherent :
      {A : Type 0} (o : Option A) (e : AppException) (w : World)
      → IsCoherent number env w
      → IsCoherent number env (finish (or_raise o e w)).1
  found-IsCoherent {A = A} none e w c = finish-IsCoherent {A = A} (err e, w) c
  found-IsCoherent (some a) e w c = c

  settings_call-IsCoherent :
      (call : SettingsCall) (w : World)
      → IsPlain number env
      → IsCoherent number env w
      → IsCoherent number env (settings_call number env call w)
  unfolding settings_call list_settings get_setting restaurant_view run_request ensure_defaults
  settings_call-IsCoherent list_call w plain c = ensured-IsCoherent number env w plain c
  settings_call-IsCoherent (get_call key) w plain c =
      found-IsCoherent (get_by_key (ensured number env w).db.system_settings key)
        (not_found_exception (text "Setting not found")) (ensured number env w)
        (ensured-IsCoherent number env w plain c)
  settings_call-IsCoherent view_call w plain c = ensured-IsCoherent number env w plain c
  settings_call-IsCoherent (upsert_call key payload actor_id) w plain c =
      finish-IsCoherent (upsert key payload actor_id w) (upsert-IsCoherent key payload actor_id w c)
  settings_call-IsCoherent (bulk_call items actor_id) w plain c =
      finish-IsCoherent (bulk_upsert items actor_id w)
        ((bulk_upsert-Keeps items actor_id).run w c).0
  settings_call-IsCoherent commerce_call w plain c =
      finish-IsCoherent (get_config number env w) (get_config-IsCoherent w c)
  settings_call-IsCoherent (time_passes seconds) w plain c = record {
    is_up = c.is_up;
    is_committed = c.is_committed;
    is_current = λ config live. c.is_current config (live_commerce-later w seconds config live);
  }

  settings_calls-IsCoherent :
      (cs : List SettingsCall) (w : World)
      → IsPlain number env
      → IsCoherent number env w
      → IsCoherent number env (settings_calls number env cs w)
  unfolding settings_calls
  settings_calls-IsCoherent [] w plain c = c
  settings_calls-IsCoherent (x ∷ cs) w plain c =
      settings_calls-IsCoherent cs (settings_call number env x w) plain
        (settings_call-IsCoherent x w plain c)

  -- With Redis up, where the environment's numbers read back from their text and its tax has two
  -- places, and from a state in which nothing outdated is cached: after any requests to the settings,
  -- successful or refused, and at any time, the configuration that the services get is the one that
  -- the stored settings give as they stand.
  pub get_config_current :
      (cs : List SettingsCall) (w : World)
      → IsPlain number env
      → IsCoherent number env w
      → (get_config number env (settings_calls number env cs w)).0
        ≡ ok (config_of number env (settings_calls number env cs w).db.system_settings)
  get_config_current cs w plain start =
      let v = settings_calls number env cs w in
      let c = settings_calls-IsCoherent cs w plain start in
      elim (Option-cases (live_commerce v)) [
        | inr (config, hit) ↦
            rw (get_config_hit v config c.is_up hit) (ap ok (c.is_current config hit))
        | inl miss ↦ rw (get_config_miss v c.is_up miss) refl
      ]
