-- ===== src/AdminCoupons/Calls.antt =====
-- The requests of the owner that change coupons.
use prime_pizza_backend.Base.{ℕ, Bool, List, [], ◌∷◌}
use prime_pizza_backend.Store.{World, run_request}
use prime_pizza_backend.AdminCoupons.{
  CouponCreateRequest, CouponUpdateRequest, create_coupon, update_coupon, set_active, delete_coupon,
}

pub data CouponCall : Type 0 where
  create_call : CouponCreateRequest → ℕ → CouponCall
  update_call : ℕ → CouponUpdateRequest → ℕ → CouponCall
  active_call : ℕ → Bool → ℕ → CouponCall
  delete_call : ℕ → ℕ → CouponCall

unfoldable pub coupon_call : CouponCall → World → World
unfolding run_request
coupon_call (create_call payload actor_id) w = (run_request (create_coupon payload actor_id) w).1
coupon_call (update_call coupon_id payload actor_id) w =
    (run_request (update_coupon coupon_id payload actor_id) w).1
coupon_call (active_call coupon_id is_active actor_id) w =
    (run_request (set_active coupon_id is_active actor_id) w).1
coupon_call (delete_call coupon_id actor_id) w =
    (run_request (delete_coupon coupon_id actor_id) w).1

unfoldable pub coupon_calls : List CouponCall → World → World
unfolding coupon_call
coupon_calls [] w = w
coupon_calls (c ∷ cs) w = coupon_calls cs (coupon_call c w)
