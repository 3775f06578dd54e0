-- ===== src/SystemSettings/Mode.antt =====
-- The stored maintenance mode, the flag in the cache and the middleware.
use prime_pizza_backend.Base.{
  ℕ, ◌<◌, ◌≡◌, ◌⊎◌, refl, ap, ◌∙◌, inl, inr, Bool, true, false, ◌&&◌, Option, none, some, List, [],
  ◌∷◌, arith, ltb, find_first, find_first-holds, set_first, Option-cases, Bool-cases,
}
use prime_pizza_backend.Text.{Text, codes, text_eq, text_eq_refl, strip, lower, text_in}
use prime_pizza_backend.Models.{SystemSetting}
use prime_pizza_backend.Store.{World, CachedCommerce}
use prime_pizza_backend.SystemSettings.Known.{get_by_key, has_key, value_of}
use prime_pizza_backend.SystemSettings.Commerce.{parse_bool, is_on}
use prime_pizza_backend.SystemSettings.Service.{
  SystemSettingUpsertRequest, upserted, stored, flag_of, flag_text,
}
use prime_pizza_backend.SystemSettings.Maintenance.{
  maintenance_enabled, flag_on, cached_mode, cached_flag, mode_or,
}
use prime_pizza_backend.SystemSettings.Coherent.{get_by_key-append}

set_first-found :
    (p : SystemSetting → Bool) (rows : List SystemSetting) (old new : SystemSetting)
    → find_first p rows ≡ some old
    → p new ≡ true
    → find_first p (set_first p new rows) ≡ some new
set_first-found p [] old new e h = ground arith
set_first-found p (r ∷ rows) old new e h = ground (arith, set_first-found p rows old new)

pub upserted-has_key :
    (key : Text) (payload : SystemSettingUpsertRequest) (actor_id : ℕ) (rows : List SystemSetting)
    → has_key key (upserted key payload actor_id (get_by_key rows key)) ≡ true
unfolding upserted get_by_key
upserted-has_key key payload actor_id rows = elim (Option-cases (get_by_key rows key)) [
  | inl new ↦ rw new (rw (text_eq_refl key) refl)
  | inr (old, found) ↦ rw found (find_first-holds (has_key key) rows old found)
]

pub stored-found :
    (key : Text) (row : SystemSetting) (rows : List SystemSetting)
    → has_key key row ≡ true
    → get_by_key (stored key row rows) key ≡ some row
unfolding stored get_by_key
stored-found key row rows h = elim (Option-cases (get_by_key rows key)) [
  | inl new ↦ rw (stored, new) (get_by_key-append rows row key ∙ rw (new, h) refl)
  | inr (old, found) ↦ rw (stored, found) (set_first-found (has_key key) rows old row found h)
]

-- The flag in the cache says what the setting says.
flag_text-is_on : (b : Bool) → is_on (lower (flag_text b)) ≡ b
unfolding lower text_in text_eq
flag_text-is_on true = refl
flag_text-is_on false = refl

flag-mode : (value : Option Text) → is_on (lower (flag_of value)) ≡ parse_bool value
unfolding flag_of parse_bool
flag-mode none = flag_text-is_on (is_on (lower (strip [])))
flag-mode (some []) = flag_text-is_on (is_on (lower (strip [])))
flag-mode (some (c ∷ s)) = flag_text-is_on (is_on (lower (strip (c ∷ s))))

flag_on-flag_text : (b : Bool) → flag_on (some (flag_text b)) ≡ b
unfolding lower text_in text_eq
flag_on-flag_text true = refl
flag_on-flag_text false = refl

flag_on-mode : (value : Option Text) → flag_on (some (flag_of value)) ≡ parse_bool value
unfolding flag_of parse_bool
flag_on-mode none = flag_on-flag_text (is_on (lower (strip [])))
flag_on-mode (some []) = flag_on-flag_text (is_on (lower (strip [])))
flag_on-mode (some (c ∷ s)) = flag_on-flag_text (is_on (lower (strip (c ∷ s))))

abbrev pub mode_key : Text
mode_key = codes "maintenance.mode"

-- The flag is set until a time, and the row and what is cached of it agree with it.
pub record Gated (value : Option Text) (expires_at : ℕ) (w : World) : Type 0 where
  pub is_up : w.redis.is_up ≡ true
  pub flag : w.redis.maintenance ≡ some record { value = flag_of value; expires_at = expires_at }
  pub mode :
      (c : CachedCommerce)
      → w.redis.commerce ≡ some c
      → c.config.maintenance_mode ≡ parse_bool value
  pub row : value_of (get_by_key w.db.system_settings mode_key) ≡ value

Gated-flag :
    (value : Option Text) (expires_at : ℕ) (w : World)
    → Gated value expires_at w
    → w.now < expires_at
    → cached_flag w ≡ some (flag_of value)
Gated-flag value expires_at w g soon = let flag = g.flag in ground (arith, soon)

Gated-mode :
    (value : Option Text) (expires_at : ℕ) (w : World)
    → Gated value expires_at w
    → (cached_mode w ≡ none) ⊎ (cached_mode w ≡ some (parse_bool value))
Gated-mode value expires_at w g = elim (Option-cases w.redis.commerce) [
  | inl none_ ↦ inl (rw none_ refl)
  | inr (c, cached) ↦
      let same = g.mode c cached in
      elim (Bool-cases (ltb w.now c.expires_at)) [
        | inl live ↦ inr (ground arith)
        | inr old ↦ inl (ground arith)
      ]
]

pub Gated-enabled :
    (value : Option Text) (expires_at : ℕ) (w : World)
    → Gated value expires_at w
    → w.now < expires_at
    → maintenance_enabled w ≡ parse_bool value
unfolding maintenance_enabled
Gated-enabled value expires_at w g soon =
    let flag : flag_on (cached_flag w) ≡ parse_bool value =
      ap flag_on (Gated-flag value expires_at w g soon) ∙ flag_on-mode value in
    elim (Gated-mode value expires_at w g) [
      | inl none_ ↦
          ap (λ o. w.redis.is_up && mode_or o (flag_on (cached_flag w))) none_
          ∙ ap (λ b. w.redis.is_up && b) flag
          ∙ ap (λ b. b && parse_bool value) g.is_up
      | inr some_ ↦
          ap (λ o. w.redis.is_up && mode_or o (flag_on (cached_flag w))) some_
          ∙ ap (λ b. b && parse_bool value) g.is_up
    ]
