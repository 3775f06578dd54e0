-- ===== src/SystemSettings/View.antt =====
-- `restaurant_view` of app/services/system_settings.py.
use prime_pizza_backend.Base.{Bool, Option, none, some, List, [], ◌∷◌}
use prime_pizza_backend.Base.Exec.{pure, ◌>>=◌}
use prime_pizza_backend.Text.{Text, codes, lower, text_in}
use prime_pizza_backend.Models.{SystemSetting}
use prime_pizza_backend.Store.{Service}
use prime_pizza_backend.SystemSettings.Known.{EnvSettings, get_by_key, value_of}
use prime_pizza_backend.SystemSettings.Commerce.{or_false}
use prime_pizza_backend.SystemSettings.Service.{list_settings}

pub record RestaurantSettingsResponse : Type 0 where
  pub restaurant_name : Option Text
  pub restaurant_phone : Option Text
  pub restaurant_email : Option Text
  pub restaurant_address : Option Text
  pub business_hours : Option Text
  pub delivery_fee : Option Text
  pub free_delivery_threshold : Option Text
  pub tax_percentage : Option Text
  pub currency : Option Text
  pub theme_settings : Option Text
  pub maintenance_mode : Bool
  pub payment_settings : Option Text

abbrev json_of : Option SystemSetting → Option Text
json_of none = none
json_of (some s) = s.value_json

unfoldable pub view_of : List SystemSetting → RestaurantSettingsResponse
unfolding get_by_key lower text_in
view_of rows =
    let value = λ (key : Text). value_of (get_by_key rows key) in
    let json_val = λ (key : Text). json_of (get_by_key rows key) in
    record {
      restaurant_name = value (codes "restaurant.name");
      restaurant_phone = value (codes "restaurant.phone");
      restaurant_email = value (codes "restaurant.email");
      restaurant_address = value (codes "restaurant.address");
      business_hours = json_val (codes "business.hours");
      delivery_fee = value (codes "delivery.fee");
      free_delivery_threshold = value (codes "delivery.free_threshold");
      tax_percentage = value (codes "tax.percent");
      currency = value (codes "currency");
      theme_settings = json_val (codes "theme.settings");
      maintenance_mode =
          text_in (lower (or_false (value (codes "maintenance.mode"))))
            (codes "1" ∷ codes "true" ∷ codes "yes" ∷ []);
      payment_settings = json_val (codes "payment.settings");
    }

unfoldable pub restaurant_view : EnvSettings → Service RestaurantSettingsResponse
unfolding list_settings
restaurant_view env = do rows ← list_settings env; pure (view_of rows)
