-- ===== src/SystemSettings/Upserts.antt =====
-- What `upsert` of app/services/system_settings.py leaves.
use prime_pizza_backend.Base.{
  ℕ, ◌+◌, ◌≡◌, refl, ◌∙◌, inl, inr, true, false, Option, none, some, [], ◌∷◌, ◌++◌, arith,
  Bool-cases, if◌then◌else◌,
}
use prime_pizza_backend.Base.Exec.{ok, err, bind-run, pure, ◌>>◌}
use prime_pizza_backend.Text.{Text, codes, text_eq}
use prime_pizza_backend.Errors.{validation_exception, text}
use prime_pizza_backend.Models.{SystemSetting}
use prime_pizza_backend.Store.{World, Service}
use prime_pizza_backend.SystemSettings.Known.{get_by_key, is_settings_key}
use prime_pizza_backend.SystemSettings.Commerce.{invalidate}
use prime_pizza_backend.SystemSettings.Service.{
  SystemSettingUpsertRequest, upsert, upserted, stored, set_flag, flag_of, set_maintenance,
  settings_log,
}

-- After a change nothing is cached.
pub record Dropped (w : World) : Type 0 where
  pub is_up : w.redis.is_up ≡ true
  pub is_committed : w.committed ≡ w.db
  pub is_dropped : w.redis.commerce ≡ none

pub upsert_unknown :
    (key : Text) (payload : SystemSettingUpsertRequest) (actor_id : ℕ) (w : World)
    → is_settings_key key ≡ false
    → upsert key payload actor_id w ≡ (err (validation_exception (text "Unknown settings key")), w)
unfolding upsert
upsert_unknown key payload actor_id w e = ground arith

-- The end of `upsert`, from the caches on.
abbrev pub closing : Text → SystemSetting → Service SystemSetting
closing key row = do invalidate; set_maintenance key row.value; pure row

abbrev pub dropped : World → World
dropped w = record w { redis = record w.redis { commerce = none; maintenance = none } }

invalidate_run : (w : World) → w.redis.is_up ≡ true → invalidate w ≡ (ok tt, dropped w)
unfolding invalidate
invalidate_run w up = ground arith

closing_run :
    (key : Text) (row : SystemSetting) (w : World)
    → w.redis.is_up ≡ true
    → closing key row w ≡ (set_maintenance key row.value >> pure row) (dropped w)
closing_run key row w up =
    bind-run invalidate (λ _. set_maintenance key row.value >> pure row) w (dropped w) tt
      ((set_maintenance key row.value >> pure row) (dropped w)) (invalidate_run w up) refl

-- The rows of a change, and its entry in the audit trail, committed.
abbrev pub changed : Text → SystemSetting → ℕ → World → World
changed key row actor_id w =
    let v = record w.db {
      system_settings = stored key row w.db.system_settings;
      audit_logs = w.db.audit_logs ++ settings_log key actor_id ∷ [];
    } in
    record w { db = v; committed = v }

pub upsert_known :
    (key : Text) (payload : SystemSettingUpsertRequest) (actor_id : ℕ) (w : World)
    → is_settings_key key ≡ true
    → let row = upserted key payload actor_id (get_by_key w.db.system_settings key) in
      upsert key payload actor_id w ≡ closing key row (changed key row actor_id w)
unfolding upsert
upsert_known key payload actor_id w e = rw e refl

-- The world with the flag set.
abbrev pub flagged : Option Text → World → World
flagged value w = record w {
  redis = record w.redis {
    maintenance = some record { value = flag_of value; expires_at = w.now + 300 };
  };
}

pub set_flag_run :
    (value : Option Text) (w : World)
    → w.redis.is_up ≡ true
    → set_flag value w ≡ (ok tt, flagged value w)
unfolding set_flag
set_flag_run value w up = ground arith

pub set_maintenance_run :
    (key : Text) (value : Option Text) (w : World)
    → w.redis.is_up ≡ true
    → set_maintenance key value w
      ≡ (ok tt, if text_eq key (codes "maintenance.mode") then flagged value w else w)
unfolding set_maintenance
set_maintenance_run key value w up = elim (Bool-cases (text_eq key (codes "maintenance.mode"))) [
  | inr other ↦ rw other refl
  | inl mode ↦ rw mode (set_flag_run value w up)
]

-- The world that a change of a known setting leaves.
abbrev pub settled : Text → SystemSetting → ℕ → World → World
settled key row actor_id w =
    let v = dropped (changed key row actor_id w) in
    if text_eq key (codes "maintenance.mode") then flagged row.value v else v

pub upsert_run :
    (key : Text) (payload : SystemSettingUpsertRequest) (actor_id : ℕ) (w : World)
    → w.redis.is_up ≡ true
    → is_settings_key key ≡ true
    → let row = upserted key payload actor_id (get_by_key w.db.system_settings key) in
      upsert key payload actor_id w ≡ (ok row, settled key row actor_id w)
upsert_run key payload actor_id w up e =
    let row = upserted key payload actor_id (get_by_key w.db.system_settings key) in
    upsert_known key payload actor_id w e
    ∙ closing_run key row (changed key row actor_id w) up
    ∙ bind-run (set_maintenance key row.value) (λ _. pure row)
        (dropped (changed key row actor_id w)) (settled key row actor_id w) tt
        (ok row, settled key row actor_id w)
        (set_maintenance_run key row.value (dropped (changed key row actor_id w)) up) refl

settled-Dropped :
    (key : Text) (row : SystemSetting) (actor_id : ℕ) (w : World)
    → w.redis.is_up ≡ true
    → Dropped (settled key row actor_id w)
settled-Dropped key row actor_id w up = elim (Bool-cases (text_eq key (codes "maintenance.mode"))) [
  | inr other ↦ rw other record { is_up = up; is_committed = refl; is_dropped = refl }
  | inl mode ↦ rw mode record { is_up = up; is_committed = refl; is_dropped = refl }
]

pub upsert-Dropped :
    (key : Text) (payload : SystemSettingUpsertRequest) (actor_id : ℕ) (w : World)
    → w.redis.is_up ≡ true
    → is_settings_key key ≡ true
    → Dropped (upsert key payload actor_id w).1
upsert-Dropped key payload actor_id w up e = rw (upsert_run key payload actor_id w up e) (
    settled-Dropped key (upserted key payload actor_id (get_by_key w.db.system_settings key))
      actor_id w up)
