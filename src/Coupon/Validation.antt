-- ===== src/Coupon/Validation.antt =====
-- When a code is accepted, and for which coupon.
use prime_pizza_backend.Base.{
  ℕ, ◌≤◌, ◌<◌, ◌≡◌, refl, ◌↔◌, true, Option, none, some, arith, Option-cases, inl, inr,
}
use prime_pizza_backend.Base.Exec.{ok}
use prime_pizza_backend.Text.{Text, upper, strip}
use mathlib.Core.Option.{some-injective}
use prime_pizza_backend.Errors.{AppException, not_found_exception, text}
use prime_pizza_backend.Money.{Cents}
use prime_pizza_backend.Money.Rounding.{money-of_cents}
use prime_pizza_backend.Coupon.{
  Coupon, CouponTables, CouponValidationResponse, get_by_code, get_active_by_code, count_for_user,
  coupon_issue, validation_response, validate_coupon, validate_for_user, or_raise, and_then,
}

-- Each optional bound is met.
abbrev pub Met : Option ℕ → (ℕ → Type 0) → Type 0
Met none _ = Unit
Met (some n) P = P n

-- What a coupon needs to be redeemable by a user at a time, for an order of this subtotal.
pub record IsRedeemable (db : CouponTables) (now user_id : ℕ) (subtotal : Cents) (c : Coupon)
    : Type 0 where
  pub is_active : c.is_active ≡ true
  pub has_started : Met c.starts_at (λ t. t ≤ now)
  pub not_expired : Met c.expires_at (λ t. now ≤ t)
  pub below_limit : Met c.usage_limit (λ n. c.used_count < n)
  pub below_user_limit : Met c.per_user_limit (λ n. count_for_user db c.id user_id < n)
  pub large_enough : Met c.minimum_order_amount (λ m. m ≤ subtotal)

module _ (db : CouponTables) (now user_id : ℕ) (subtotal : Cents) (c : Coupon) where
  no_issue-IsRedeemable :
      coupon_issue db now user_id subtotal c ≡ none → IsRedeemable db now user_id subtotal c
  unfolding coupon_issue
  no_issue-IsRedeemable e = grind (arith, money-of_cents)

  IsRedeemable-no_issue :
      IsRedeemable db now user_id subtotal c → coupon_issue db now user_id subtotal c ≡ none
  unfolding coupon_issue
  IsRedeemable-no_issue r = grind (arith, money-of_cents)

  validate_coupon_iff :
      (r : CouponValidationResponse)
      → (validate_coupon db now user_id subtotal c ≡ ok r)
        ↔ (IsRedeemable db now user_id subtotal c × (validation_response c subtotal ≡ r))
  unfolding validate_coupon
  validate_coupon_iff r = elim (Option-cases (coupon_issue db now user_id subtotal c)) [
    | inl e ↦ (λ h. (no_issue-IsRedeemable e, ground arith), λ h. ground arith)
    | inr (x, e) ↦ (λ h. ground arith, λ h. ground (arith, IsRedeemable-no_issue h.0))
  ]

module _ (db : CouponTables) (now user_id : ℕ) (subtotal : Cents) where
  found_iff :
      (o : Option Coupon) (e : AppException) (r : CouponValidationResponse)
      → (and_then (or_raise o e) (validate_coupon db now user_id subtotal) ≡ ok r) ↔ (
          (c : Coupon) × (o ≡ some c)
          × IsRedeemable db now user_id subtotal c
          × (validation_response c subtotal ≡ r))
  found_iff none e r = (λ h. cc, λ h. cc (h.1))
  found_iff (some c) e r = (
    λ h. let (a, b) = (validate_coupon_iff db now user_id subtotal c r).0 h in (c, refl, a, b),
    λ (d, same, a, b).
        let same' = some-injective _ _ same in
        rw same' ((validate_coupon_iff db now user_id subtotal d r).1 (a, b)),
  )

-- A code is accepted exactly when a coupon that is not deleted has it, up to case and surrounding
-- white space, and that coupon is redeemable; the answer is then that coupon's, with its discount.
pub validate_for_user_iff :
    (db : CouponTables) (now user_id : ℕ) (subtotal : Cents) (code : Text)
    (r : CouponValidationResponse)
    → (validate_for_user db now code user_id subtotal ≡ ok r) ↔ (
        (c : Coupon) × (get_by_code db (upper (strip code)) ≡ some c)
        × IsRedeemable db now user_id subtotal c
        × (validation_response c subtotal ≡ r))
unfolding validate_for_user get_active_by_code
validate_for_user_iff db now user_id subtotal code r =
    found_iff db now user_id subtotal (get_by_code db (upper (strip code)))
      (not_found_exception (text "Coupon not found")) r
