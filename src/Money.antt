-- ===== src/Money.antt =====
-- `money` of app/services/pricing.py. A `Decimal` is a mantissa over a power of ten; amounts
-- that have passed through `money`, or come from a `Numeric(12, 2)` column, are whole cents.
pub mod Rounding
use prime_pizza_backend.Base.{ℕ, ◌+◌, ◌*◌, ◌/◌, ◌^◌}

-- mantissa / 10 ^ places, not negative
pub record Decimal : Type 0 where
  pub mantissa : ℕ
  pub places : ℕ

abbrev pub Cents : Type 0
Cents = ℕ

-- A column value or an earlier result, as the `Decimal` that it is.
abbrev pub of_cents : Cents → Decimal
of_cents c = record { mantissa = c; places = 2 }

unfoldable pub round_half_up : ℕ → ℕ → ℕ
round_half_up n d = (2 * n + d) / (2 * d)

-- `Decimal(value).quantize(TWOPLACES, rounding=ROUND_HALF_UP)`
unfoldable pub money : Decimal → Cents
unfolding round_half_up
money value = round_half_up (value.mantissa * 100) (10 ^ value.places)

-- `a * b`, and `a / Decimal("100")`
abbrev pub times : Decimal → Decimal → Decimal
times a b = record { mantissa = a.mantissa * b.mantissa; places = a.places + b.places }

abbrev pub percent : Decimal → Decimal
percent a = record { mantissa = a.mantissa; places = a.places + 2 }
