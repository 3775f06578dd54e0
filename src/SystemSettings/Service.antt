-- ===== src/SystemSettings/Service.antt =====
-- `SystemSettingsService` of app/services/system_settings.py. The dashboard's cached figures, which it
-- drops after a change, are left out.
use prime_pizza_backend.Base.{
  ℕ, ◌+◌, Bool, false, not, Option, none, some, List, [], ◌∷◌, ◌++◌, set_first, keep, if◌then◌else◌,
}
use prime_pizza_backend.Base.Exec.{pure, raise_if, or_raise, gets, modify, ◌>>=◌, ◌>>◌}
use prime_pizza_backend.Text.{Text, codes, text_eq, strip, lower, text_in}
use prime_pizza_backend.Errors.{validation_exception, not_found_exception, text}
use prime_pizza_backend.Enums.{update}
use prime_pizza_backend.Models.{SystemSetting, AuditLog}
use prime_pizza_backend.Store.{World, Service, commit}
use prime_pizza_backend.SystemSettings.Known.{
  EnvSettings, KnownKey, known_keys, default_for, known_key, is_settings_key, has_key, get_by_key,
}
use prime_pizza_backend.SystemSettings.Commerce.{on_cache, is_on, invalidate}

pub record SystemSettingUpsertRequest : Type 0 where
  pub value : Option Text
  pub value_json : Option Text
  pub description : Option Text
  pub is_public : Option Bool

abbrev pub save_settings : List SystemSetting → World → World
save_settings rows w = record w { db = record w.db { system_settings = rows } }

abbrev pub default_setting : EnvSettings → KnownKey → SystemSetting
default_setting env k =
    let d = default_for env k.key in
    record {
      key = k.key;
      value = d.value;
      value_json = d.value_json;
      description = some k.description;
      is_public = k.is_public;
      created_by = none;
      updated_by = none;
      deleted = false;
    }

-- The loop of `ensure_defaults`
abbrev pub with_default :
    Option SystemSetting → SystemSetting → List SystemSetting → List SystemSetting
with_default none s rows = rows ++ s ∷ []
with_default (some found) s rows = rows

unfoldable pub with_defaults : EnvSettings → List KnownKey → List SystemSetting → List SystemSetting
unfolding get_by_key default_for
with_defaults env [] rows = rows
with_defaults env (k ∷ ks) rows =
    with_defaults env ks (with_default (get_by_key rows k.key) (default_setting env k) rows)

unfoldable pub ensure_defaults : EnvSettings → Service (Unit {0})
unfolding with_defaults
ensure_defaults env = do
  modify (λ w. save_settings (with_defaults env known_keys w.db.system_settings) w)
  commit

-- A row as the service answers it, without its key of the table and its time.
unfoldable pub list_settings : EnvSettings → Service (List SystemSetting)
unfolding ensure_defaults
list_settings env = do
  ensure_defaults env
  gets (λ w. keep (λ s. not s.deleted) w.db.system_settings)

unfoldable pub get_setting : EnvSettings → Text → Service SystemSetting
unfolding ensure_defaults
get_setting env key = do
  ensure_defaults env
  λ w.
      or_raise (get_by_key w.db.system_settings key)
        (not_found_exception (text "Setting not found")) w

abbrev pub given : {A : Type 0} → Option A → A → A
given none old = old
given (some new) old = new

abbrev pub given_some : {A : Type 0} → Option A → Option A → Option A
given_some none old = old
given_some (some new) old = some new

-- `payload.description or meta.get("description")`
abbrev pub described : Option Text → Option Text → Option Text
described none meta = meta
described (some []) meta = meta
described (some (c ∷ s)) meta = some (c ∷ s)

abbrev pub known_description : Option KnownKey → Option Text
known_description none = none
known_description (some k) = some k.description

abbrev pub known_public : Option KnownKey → Bool
known_public none = false
known_public (some k) = k.is_public

-- The row after the change.
unfoldable pub upserted :
    Text → SystemSettingUpsertRequest → ℕ → Option SystemSetting → SystemSetting
upserted key payload actor_id none =
    let meta = known_key key in
    record {
      key = key;
      value = payload.value;
      value_json = payload.value_json;
      description = described payload.description (known_description meta);
      is_public = given payload.is_public (known_public meta);
      created_by = some actor_id;
      updated_by = none;
      deleted = false;
    }
upserted key payload actor_id (some row) = record row {
  value = given_some payload.value row.value;
  value_json = given_some payload.value_json row.value_json;
  description = given_some payload.description row.description;
  is_public = given payload.is_public row.is_public;
  updated_by = some actor_id;
}

unfoldable pub stored : Text → SystemSetting → List SystemSetting → List SystemSetting
unfolding get_by_key
stored key row rows = elim (get_by_key rows key) [
  | none ↦ rows ++ row ∷ []
  | some old ↦ set_first (has_key key) row rows
]

-- `AuditService.record`, with a commit
abbrev pub audited : AuditLog → Service (Unit {0})
audited log = do
  modify (λ w. record w { db = record w.db { audit_logs = w.db.audit_logs ++ log ∷ [] } })
  commit

abbrev pub settings_log : Text → ℕ → AuditLog
settings_log key actor_id = record {
  user_id = some actor_id;
  action = update;
  resource_type = codes "system_setting";
  resource_id = some key;
  message = some (codes "Settings updated");
}

abbrev pub or_empty : Option Text → Text
or_empty none = []
or_empty (some s) = s

abbrev pub flag_text : Bool → Text
flag_text b = if b then codes "true" else codes "false"

-- `cache.set("settings:maintenance", …, ttl_seconds=300)`
-- The row's flag, as the cache keeps it
unfoldable pub flag_of : Option Text → Text
unfolding strip lower text_in
flag_of value = flag_text (is_on (lower (strip (or_empty value))))

unfoldable pub set_flag : Option Text → Service (Unit {0})
unfolding flag_of
set_flag value = on_cache λ w. (
  tt,
  record w {
    redis = record w.redis {
      maintenance = some record { value = flag_of value; expires_at = w.now + 300 };
    };
  },
)

unfoldable pub set_maintenance : Text → Option Text → Service (Unit {0})
unfolding text_eq set_flag
set_maintenance key value =
    if text_eq key (codes "maintenance.mode") then set_flag value else pure tt

unfoldable pub upsert : Text → SystemSettingUpsertRequest → ℕ → Service SystemSetting
unfolding is_settings_key upserted stored invalidate set_maintenance
upsert key payload actor_id = do
  raise_if (not (is_settings_key key)) (validation_exception (text "Unknown settings key"))
  old ← gets (λ w. get_by_key w.db.system_settings key)
  modify
      (λ w. save_settings (stored key (upserted key payload actor_id old) w.db.system_settings) w)
  commit
  audited (settings_log key actor_id)
  invalidate
  set_maintenance key (upserted key payload actor_id old).value
  pure (upserted key payload actor_id old)

unfoldable pub bulk_upsert :
    List (Text × SystemSettingUpsertRequest) → ℕ → Service (List SystemSetting)
unfolding upsert
bulk_upsert [] actor_id = pure []
bulk_upsert ((key, item) ∷ items) actor_id = do
  row ← upsert key item actor_id
  rows ← bulk_upsert items actor_id
  pure (row ∷ rows)
