-- ===== src/Tests/Owners.antt =====
-- The owner changes settings.
use prime_pizza_backend.Base.{
  ◌≡◌, refl, not, ◌&&◌, Option, none, some, List, [], ◌∷◌, map, arith, if◌then◌else◌,
}
use prime_pizza_backend.Base.Exec.{ok}
use prime_pizza_backend.Text.{Text, codes}
use prime_pizza_backend.Money.{Decimal, money}
use prime_pizza_backend.Models.{SystemSetting}
use prime_pizza_backend.SystemSettings.Known.{EnvSettings}
use prime_pizza_backend.SystemSettings.Commerce.{
  parse_decimal, parse_bool, config_of, live_commerce, get_config,
}
use prime_pizza_backend.SystemSettings.Service.{SystemSettingUpsertRequest, upsert}
use prime_pizza_backend.SystemSettings.Maintenance.{
  is_exempt, handed_on, maintenance_answer, maintenance_gate,
}
use prime_pizza_backend.SystemSettings.Calls.{
  SettingsCall, view_call, upsert_call, commerce_call, time_passes, settings_calls,
}
use prime_pizza_backend.SystemSettings.Current.{get_config_current}
use prime_pizza_backend.SystemSettings.Mode.{mode_key}
use prime_pizza_backend.SystemSettings.Gated.{reads_config, waits, call_of, maintenance_gate_after}
use prime_pizza_backend.Tests.Fixtures.{world}

-- A number is written as one code.
abbrev one_code : Text → Option Decimal
one_code (n ∷ []) = some record { mantissa = n; places = 0 }
one_code _ = none

abbrev cheap : EnvSettings
cheap = record {
  email_brand_name = codes "Prime Pizza";
  owner_phone_number = [];
  owner_email = codes "cook@pizza.pk";
  delivery_fee_flat = record { mantissa = 150; places = 0 };
  free_delivery_threshold = record { mantissa = 2000; places = 0 };
  tax_rate_percent = record { mantissa = 500; places = 2 };
  delivery_fee_text = 150 ∷ [];
  free_delivery_text = 2000 ∷ [];
  tax_rate_text = 5 ∷ [];
}

abbrev value_only : Text → SystemSettingUpsertRequest
value_only value = record {
  value = some value;
  value_json = none;
  description = none;
  is_public = none;
}

abbrev changes : List SettingsCall
changes =
    commerce_call
    ∷ view_call
    ∷ upsert_call (codes "delivery.fee") (value_only (90 ∷ [])) 2
    ∷ time_passes 20
    ∷ commerce_call
    ∷ []

get_config_current_example :
    (get_config one_code cheap (settings_calls one_code cheap changes world)).0
    ≡ ok (config_of one_code cheap (settings_calls one_code cheap changes world).db.system_settings)
unfolding parse_decimal live_commerce money
get_config_current_example =
    get_config_current one_code cheap changes world
      (record { fee = refl; threshold = refl; tax = refl })
      (record {
        is_up = refl;
        is_committed = refl;
        is_current = λ config live. absurd (ground arith);
      })

maintenance_gate_after_example :
    let (r, w') = upsert mode_key (value_only (codes "on")) 2 world in
    (row : SystemSetting) × (r ≡ ok row)
    × (maintenance_gate
          (codes "/menu")
          (settings_calls one_code cheap (map call_of (waits 100 ∷ reads_config ∷ [])) w')
        ≡ (if not (is_exempt (codes "/menu")) && parse_bool row.value
            then maintenance_answer
            else handed_on))
maintenance_gate_after_example =
    maintenance_gate_after one_code cheap (value_only (codes "on")) 2 world
      (waits 100 ∷ reads_config ∷ []) (codes "/menu") refl (omega arith)
