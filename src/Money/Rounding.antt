-- ===== src/Money/Rounding.antt =====
-- What `money` computes.
use prime_pizza_backend.Base.{ℕ, zero, suc, ◌+◌, ◌*◌, ◌^◌, ◌≤◌, ◌<◌, ◌≡◌, arith}
use native.Mathlib.Nat.{pow-suc}
use prime_pizza_backend.Money.{Decimal, Cents, of_cents, round_half_up, money}

pub ten_pow_pos : (p : ℕ) → 0 < 10 ^ p
ten_pow_pos zero = omega arith
ten_pow_pos (suc p) = rw pow-suc (omega (arith, ten_pow_pos p))

pub round_half_up_nearest :
    (n d : ℕ)
    → 0 < d
    → (round_half_up n d * (2 * d) ≤ 2 * n + d) × (2 * n + d < round_half_up n d * (2 * d) + 2 * d)
unfolding round_half_up
round_half_up_nearest n d h = grind arith

-- `money` returns the whole number of cents nearest to the value, and a tie goes up: twice the
-- result in the value's own unit is at most twice the value plus one half-cent pair, and misses it
-- by less than one cent.
pub money_nearest :
    (v : Decimal)
    → let unit = 10 ^ v.places in
      (money v * (2 * unit) ≤ 2 * (v.mantissa * 100) + unit)
      × (2 * (v.mantissa * 100) < money v * (2 * unit) + unit)
unfolding money
money_nearest v =
    let (low, high) =
      round_half_up_nearest (v.mantissa * 100) (10 ^ v.places) (ten_pow_pos v.places) in
    (low, omega arith)

-- Whole cents are left as they are.
pub money-of_cents : (c : Cents) → money (of_cents c) ≡ c
unfolding money
money-of_cents c = omega arith
