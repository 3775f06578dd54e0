-- ===== src/Models/Settings.antt =====
-- `SystemSetting` of app/models/system_setting.py. A JSON value is kept as it prints.
use prime_pizza_backend.Base.{ℕ, Bool, Option}
use prime_pizza_backend.Text.{Text}

pub record SystemSetting : Type 0 where
  pub key : Text
  pub value : Option Text
  pub value_json : Option Text
  pub description : Option Text
  pub is_public : Bool
  pub created_by : Option ℕ
  pub updated_by : Option ℕ
  pub deleted : Bool
