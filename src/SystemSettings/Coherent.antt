-- ===== src/SystemSettings/Coherent.antt =====
-- The cached configuration and the stored settings.
use prime_pizza_backend.Base.{
  ℕ, ◌+◌, ◌≡◌, ◌⊎◌, refl, sym, ap, ◌∙◌, inl, inr, false, Option, none, some, List, [], ◌∷◌, ◌++◌,
  arith, Option-cases, Bool-cases, if◌then◌else◌,
}
use prime_pizza_backend.Base.Exec.{Result, ok, err}
use prime_pizza_backend.Text.{Text, codes, text_eq, eq_of_text_eq}
use prime_pizza_backend.Money.{Decimal, of_cents, money}
use prime_pizza_backend.Money.Rounding.{money-of_cents}
use prime_pizza_backend.Errors.{AppException}
use prime_pizza_backend.Commerce.{CommerceConfig}
use prime_pizza_backend.Models.{SystemSetting}
use prime_pizza_backend.Store.{World, finish}
use prime_pizza_backend.SystemSettings.Known.{
  EnvSettings, KnownKey, known_keys, get_by_key, value_of, default_for, has_key,
}
use prime_pizza_backend.SystemSettings.Commerce.{
  parse_decimal, parse_bool, config_of, live_commerce, read_back,
}
use prime_pizza_backend.SystemSettings.Service.{with_defaults, default_setting, save_settings}
use prime_pizza_backend.SystemSettings.Calls.{IsPlain, IsCoherent}

-- A later time leaves nothing in the cache that was not there.
pub live_commerce-later :
    (w : World) (d : ℕ) (config : CommerceConfig)
    → live_commerce (record w { now = w.now + d }) ≡ some config
    → live_commerce w ≡ some config
unfolding live_commerce
live_commerce-later w d config e = elim (Option-cases w.redis.commerce) [
  | inl empty ↦ absurd (ground arith)
  | inr (c, cached) ↦ ground arith
]

pub get_by_key-append :
    (rows : List SystemSetting) (s : SystemSetting) (key : Text)
    → get_by_key (rows ++ s ∷ []) key ≡ elim (get_by_key rows key) [
      | some found ↦ some found
      | none ↦ if has_key key s then some s else none
    ]
unfolding get_by_key
get_by_key-append [] s key = refl
get_by_key-append (r ∷ rows) s key = ground (arith, get_by_key-append rows s key)

pub read_back-same : (c : CommerceConfig) → read_back c ≡ c
read_back-same c = rw (money-of_cents c.delivery_fee, money-of_cents c.free_delivery_threshold) refl

-- A default row is found by its own key only.
found-default :
    (rows : List SystemSetting) (s : SystemSetting) (key : Text)
    → s.deleted ≡ false
    → get_by_key rows s.key ≡ none
    → (get_by_key (rows ++ s ∷ []) key ≡ get_by_key rows key)
      ⊎ ((get_by_key rows key ≡ none) × (get_by_key (rows ++ s ∷ []) key ≡ some s) × (s.key ≡ key))
found-default rows s key d absent = elim (Bool-cases (text_eq s.key key)) [
  | inr other ↦ inl (elim (Option-cases (get_by_key rows key)) [
    | inl none_ ↦ get_by_key-append rows s key ∙ rw (none_, other) refl
    | inr (r, there) ↦ get_by_key-append rows s key ∙ rw there refl
  ])
  | inl same ↦
      let key_same = eq_of_text_eq s.key key same in
      let gone : get_by_key rows key ≡ none = rw (sym key_same) absent in
      inr (gone, get_by_key-append rows s key ∙ rw (gone, same, d) refl, key_same)
]

module _ (number : Text → Option Decimal) (env : EnvSettings) where
  no_value : (fallback : Decimal) → parse_decimal number none fallback ≡ fallback
  unfolding parse_decimal
  no_value fallback = refl

  false_mode : parse_bool (some (codes "false")) ≡ parse_bool none
  unfolding parse_bool
  false_mode = refl

  mode_default : (default_for env (codes "maintenance.mode")).value ≡ some (codes "false")
  unfolding default_for text_eq
  mode_default = refl

  -- A default row gives what its absence gave.
  default_parse :
      (k : KnownKey) (rows : List SystemSetting) (key t : Text) (fallback : Decimal)
      → get_by_key rows k.key ≡ none
      → (default_for env key).value ≡ some t
      → parse_decimal number (some t) fallback ≡ fallback
      → parse_decimal number
          (value_of (get_by_key (rows ++ default_setting env k ∷ []) key))
          fallback
        ≡ parse_decimal number (value_of (get_by_key rows key)) fallback
  default_parse k rows key t fallback absent d plain =
      elim (found-default rows (default_setting env k) key refl absent) [
        | inl same ↦ ap (λ o. parse_decimal number (value_of o) fallback) same
        | inr (gone, now, same) ↦
            let value : (default_for env k.key).value ≡ some t = rw same d in
            ap (λ o. parse_decimal number (value_of o) fallback) now
            ∙ ap (λ o. parse_decimal number o fallback) value
            ∙ plain
            ∙ sym (no_value fallback)
            ∙ sym (ap (λ o. parse_decimal number (value_of o) fallback) gone)
      ]

  default_mode :
      (k : KnownKey) (rows : List SystemSetting)
      → get_by_key rows k.key ≡ none
      → let key = codes "maintenance.mode" in
        parse_bool (value_of (get_by_key (rows ++ default_setting env k ∷ []) key))
        ≡ parse_bool (value_of (get_by_key rows key))
  default_mode k rows absent =
      let key = codes "maintenance.mode" in
      elim (found-default rows (default_setting env k) key refl absent) [
        | inl same ↦ ap (λ o. parse_bool (value_of o)) same
        | inr (gone, now, same) ↦
            let value : (default_for env k.key).value ≡ some (codes "false") =
              rw same mode_default in
            ap (λ o. parse_bool (value_of o)) now
            ∙ ap parse_bool value
            ∙ false_mode
            ∙ sym (ap (λ o. parse_bool (value_of o)) gone)
      ]

  default_config :
      (k : KnownKey) (rows : List SystemSetting)
      → IsPlain number env
      → get_by_key rows k.key ≡ none
      → config_of number env (rows ++ default_setting env k ∷ []) ≡ config_of number env rows
  unfolding config_of default_for text_eq
  default_config k rows plain absent =
      rw
        (
          default_parse k rows (codes "delivery.fee") env.delivery_fee_text
              (of_cents (money env.delivery_fee_flat)) absent refl plain.fee,
          default_parse k rows (codes "delivery.free_threshold") env.free_delivery_text
              (of_cents (money env.free_delivery_threshold)) absent refl plain.threshold,
          default_parse k rows (codes "tax.percent") env.tax_rate_text env.tax_rate_percent absent
              refl plain.tax,
          default_mode k rows absent,
        )
        refl

  with_defaults-config :
      (ks : List KnownKey) (rows : List SystemSetting)
      → IsPlain number env
      → config_of number env (with_defaults env ks rows) ≡ config_of number env rows
  unfolding with_defaults
  with_defaults-config [] rows plain = refl
  with_defaults-config (k ∷ ks) rows plain = elim (Option-cases (get_by_key rows k.key)) [
    | inr (r, there) ↦ rw there (with_defaults-config ks rows plain)
    | inl absent ↦ rw absent (
        with_defaults-config ks (rows ++ default_setting env k ∷ []) plain
        ∙ default_config k rows plain absent)
  ]

  pub finish-same :
      {A : Type 0} (p : Result AppException A × World) → p.1.committed ≡ p.1.db → (finish p).1 ≡ p.1
  finish-same (ok a, w) e = refl
  finish-same (err x, w) e = rw e refl

  abbrev pub ensured : World → World
  ensured w =
      let v = save_settings (with_defaults env known_keys w.db.system_settings) w in
      record v { committed = v.db }

  pub ensured-IsCoherent :
      (w : World) → IsPlain number env → IsCoherent number env w → IsCoherent number env (ensured w)
  unfolding live_commerce
  ensured-IsCoherent w plain c = record {
    is_up = c.is_up;
    is_committed = refl;
    is_current = λ config live.
        c.is_current config live ∙ sym (with_defaults-config known_keys w.db.system_settings plain);
  }
