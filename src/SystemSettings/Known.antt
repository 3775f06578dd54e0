-- ===== src/SystemSettings/Known.antt =====
-- `KNOWN_KEYS` and `_defaults` of app/services/system_settings.py, and the queries of
-- app/repositories/system_setting.py.
use prime_pizza_backend.Base.{
  Bool, true, false, not, ◌&&◌, Option, none, some, List, [], ◌∷◌, any, find_first, if◌then◌else◌,
}
use prime_pizza_backend.Text.{Text, codes, text_eq, starts_with}
use prime_pizza_backend.Money.{Decimal}
use prime_pizza_backend.Models.{SystemSetting}

-- The settings that the services read: the numbers, and each as `str` prints it.
pub record EnvSettings : Type 0 where
  pub email_brand_name : Text
  pub owner_phone_number : Text
  pub owner_email : Text
  pub delivery_fee_flat : Decimal
  pub free_delivery_threshold : Decimal
  pub tax_rate_percent : Decimal
  pub delivery_fee_text : Text
  pub free_delivery_text : Text
  pub tax_rate_text : Text

-- A key with its description, and whether it is public.
pub record KnownKey : Type 0 where
  pub key : Text
  pub description : Text
  pub is_public : Bool

abbrev known : Text → Text → Bool → KnownKey
known key description is_public = record {
  key = key;
  description = description;
  is_public = is_public;
}

unfoldable pub known_keys : List KnownKey
known_keys =
    known (codes "restaurant.name") (codes "Restaurant display name") true
    ∷ known (codes "restaurant.phone") (codes "Restaurant phone") true
    ∷ known (codes "restaurant.email") (codes "Restaurant email") true
    ∷ known (codes "restaurant.address") (codes "Restaurant address") true
    ∷ known (codes "business.hours") (codes "Business hours JSON") true
    ∷ known (codes "delivery.fee") (codes "Default delivery fee") true
    ∷ known (codes "delivery.free_threshold") (codes "Free delivery threshold") true
    ∷ known (codes "tax.percent") (codes "Tax percentage") true
    ∷ known (codes "currency") (codes "Store currency") true
    ∷ known (codes "theme.settings") (codes "Theme configuration") false
    ∷ known (codes "maintenance.mode") (codes "Maintenance mode flag") true
    ∷ known (codes "payment.settings") (codes "Future payment provider settings") false
    ∷ []

-- The value of a setting and its JSON value, as text.
pub record Default : Type 0 where
  pub value : Option Text
  pub value_json : Option Text

abbrev of_value : Text → Default
of_value value = record { value = some value; value_json = none }

abbrev of_json : Text → Default
of_json value_json = record { value = none; value_json = some value_json }

-- `_defaults().get(key, (None, None))`
unfoldable pub default_for : EnvSettings → Text → Default
unfolding text_eq
default_for env key =
    if text_eq key (codes "restaurant.name")
    then of_value env.email_brand_name
    else if text_eq key (codes "restaurant.phone")
    then of_value env.owner_phone_number
    else if text_eq key (codes "restaurant.email")
    then of_value env.owner_email
    else if text_eq key (codes "business.hours")
    then of_json (codes "{\"monday\": \"11:00-23:00\"}")
    else if text_eq key (codes "delivery.fee")
    then of_value env.delivery_fee_text
    else if text_eq key (codes "delivery.free_threshold")
    then of_value env.free_delivery_text
    else if text_eq key (codes "tax.percent")
    then of_value env.tax_rate_text
    else if text_eq key (codes "currency")
    then of_value (codes "PKR")
    else if text_eq key (codes "theme.settings")
    then of_json (codes "{\"primary\": \"#C41E3A\"}")
    else if text_eq key (codes "maintenance.mode")
    then of_value (codes "false")
    else if text_eq key (codes "payment.settings")
    then of_json (codes "{\"online_enabled\": false}")
    else record { value = none; value_json = none }

-- `KNOWN_KEYS.get(key)`
unfoldable pub known_key : Text → Option KnownKey
unfolding text_eq
known_key key = find_first (λ k. text_eq k.key key) known_keys

-- The keys that `upsert` takes: the known ones and those with one of these prefixes.
unfoldable pub is_settings_key : Text → Bool
unfolding text_eq starts_with
is_settings_key key =
    if any (λ k. text_eq k.key key) known_keys
    then true
    else any (starts_with key) (
        codes "restaurant."
        ∷ codes "business."
        ∷ codes "delivery."
        ∷ codes "tax."
        ∷ codes "theme."
        ∷ codes "payment."
        ∷ codes "currency"
        ∷ codes "maintenance."
        ∷ [])

abbrev pub has_key : Text → SystemSetting → Bool
has_key key s = text_eq s.key key && not s.deleted

unfoldable pub get_by_key : List SystemSetting → Text → Option SystemSetting
unfolding text_eq
get_by_key settings key = find_first (has_key key) settings

-- `row.value if row else None`
abbrev pub value_of : Option SystemSetting → Option Text
value_of none = none
value_of (some s) = s.value
