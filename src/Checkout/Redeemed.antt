-- ===== src/Checkout/Redeemed.antt =====
-- What the use of a coupon keeps of the tables of coupons.
use prime_pizza_backend.Base.{
  ℕ, ◌+◌, ◌≤◌, ◌<◌, eqb→eq, ◌≡◌, refl, sym, ◌∙◌, inl, inr, Bool, true, false, ◌&&◌, Option, none,
  some, List, [], ◌∷◌, arith, ◌==◌, count, count-append_one, find_first, find_first-holds,
  set_first, All, All-set_first, All-find_first, Bool-cases, eqb_refl, if◌then◌else◌,
}
use mathlib.Core.Option.{some-injective}
use prime_pizza_backend.Base.Exec.{ok}
use prime_pizza_backend.Text.{text_eq, text_eq_refl, eq_of_text_eq, upper, upper_idem, strip}
use prime_pizza_backend.Catalog.{alive}
use prime_pizza_backend.Coupon.{
  is_coupon, Coupon, CouponUsage, CouponTables, CouponValidationResponse, count_for_user,
  get_by_code, validate_for_user,
}
use prime_pizza_backend.Coupon.Validation.{Met, IsRedeemable, validate_for_user_iff}
use prime_pizza_backend.Models.{Cart}
use prime_pizza_backend.Checkout.Draft.{used_once_more, with_usage}
use prime_pizza_backend.AdminCoupons.Codes.{is_taken, IsUnique, IsUnique-set_first}

-- The uses of a coupon by all users.
abbrev pub is_use : ℕ → CouponUsage → Bool
is_use coupon_id u = u.coupon_id == coupon_id && alive u.deleted

-- The counter of the coupon is the number of its uses, and no limit is exceeded.
pub record Within (t : CouponTables) (c : Coupon) : Type 0 where
  pub counted : c.used_count ≡ count (is_use c.id) t.usages
  pub within_limit : Met c.usage_limit (λ n. c.used_count ≤ n)
  pub within_user_limit :
      Met c.per_user_limit (λ n. (user_id : ℕ) → count_for_user t c.id user_id ≤ n)

-- The codes of the coupons are as the owner's requests store them, and every coupon that can be
-- found by its id is within its limits.
pub record AllWithin (t : CouponTables) : Type 0 where
  pub is_unique : IsUnique t.coupons
  pub is_normal : All (λ c. upper (strip c.code) ≡ c.code) t.coupons
  pub within :
      (coupon_id : ℕ) (c : Coupon)
      → find_first (is_coupon coupon_id) t.coupons ≡ some c
      → Within t c

found-taken :
    (p : Coupon → Bool) (l : List Coupon) (c : Coupon)
    → find_first p l ≡ some c
    → c.deleted ≡ false
    → is_taken c.code l ≡ true
found-taken p [] c e h = ground arith
found-taken p (x ∷ l) c e h = ground (arith, found-taken p l c, text_eq_refl c.code)

clash :
    (x c : Coupon) (l : List Coupon)
    → (alive x.deleted && is_taken x.code l) ≡ false
    → is_taken c.code l ≡ true
    → (text_eq x.code c.code && alive x.deleted) ≡ false
clash x c l free taken = elim (Bool-cases (text_eq x.code c.code)) [
  | inl e ↦
      let same = eq_of_text_eq x.code c.code e in
      let free' : (alive x.deleted && is_taken c.code l) ≡ false = rw same at free in ground arith
  | inr e ↦ ground arith
]

-- Where the codes are unique, the code of a coupon finds that coupon.
found-by_code :
    (p : Coupon → Bool) (l : List Coupon) (c : Coupon)
    → IsUnique l
    → find_first p l ≡ some c
    → c.deleted ≡ false
    → find_first (λ x. text_eq x.code c.code && alive x.deleted) l ≡ some c
found-by_code p [] c u e h = ground arith
found-by_code p (x ∷ l) c (free, u) e h = elim (Bool-cases (p x)) [
  | inl hit ↦ let same : x ≡ c = ground arith in rw same (ground (arith, text_eq_refl c.code))
  | inr other ↦
      let e' : find_first p l ≡ some c = ground arith in
      rw (clash x c l free (found-taken p l c e' h)) (found-by_code p l c u e' h)
]

set_first-found :
    (p : Coupon → Bool) (old new : Coupon) (l : List Coupon)
    → find_first p l ≡ some old
    → p new ≡ true
    → find_first p (set_first p new l) ≡ some new
set_first-found p old new [] e h = ground arith
set_first-found p old new (x ∷ l) e h = ground (arith, set_first-found p old new l)

set_first-other :
    (i j : ℕ) (new : Coupon) (l : List Coupon)
    → new.id ≡ j
    → (j == i) ≡ false
    → find_first (is_coupon i) (set_first (is_coupon j) new l) ≡ find_first (is_coupon i) l
set_first-other i j new [] same other = refl
set_first-other i j new (x ∷ l) same other = ground (arith, set_first-other i j new l)

Met-both :
    (o : Option ℕ) (P Q R : ℕ → Type 0) → ((n : ℕ) → P n → Q n → R n) → Met o P → Met o Q → Met o R
Met-both none P Q R h p q = tt
Met-both (some n) P Q R h p q = h n p q

-- A coupon and the row of one use more.
module _ (t : CouponTables) (cart : Cart) (user_id order_id : ℕ) (coupon : Coupon) where
  abbrev after : CouponTables
  after = with_usage coupon user_id cart order_id t

  abbrev new_use : CouponUsage
  new_use = record {
    user_id = user_id;
    coupon_id = coupon.id;
    order_id = order_id;
    discount_applied = cart.discount;
    deleted = false;
  }

  uses_after :
      (i : ℕ)
      → count (is_use i) after.usages
        ≡ count (is_use i) t.usages + (if coupon.id == i then 1 else 0)
  unfolding with_usage
  uses_after i = ground (arith, count-append_one (is_use i) new_use t.usages)

  user_uses_after :
      (i u : ℕ)
      → count_for_user after i u
        ≡ count_for_user t i u + (if coupon.id == i && user_id == u then 1 else 0)
  unfolding with_usage count_for_user
  user_uses_after i u = ground (
    arith,
    count-append_one (λ (v : CouponUsage). v.coupon_id == i && v.user_id == u && alive v.deleted)
        new_use t.usages,
  )

  used-Within :
      (now : ℕ)
      → Within t coupon
      → IsRedeemable t now user_id cart.subtotal coupon
      → Within after (used_once_more coupon)
  used-Within now w r = record {
    counted = ground (arith, w.counted, uses_after coupon.id, eqb_refl coupon.id);
    within_limit =
        Met-both coupon.usage_limit (λ n. coupon.used_count ≤ n) (λ n. coupon.used_count < n)
          (λ n. coupon.used_count + 1 ≤ n) (λ n p q. omega (arith, q)) w.within_limit r.below_limit;
    within_user_limit =
        Met-both coupon.per_user_limit (λ n. (u : ℕ) → count_for_user t coupon.id u ≤ n)
          (λ n. count_for_user t coupon.id user_id < n)
          (λ n. (u : ℕ) → count_for_user after coupon.id u ≤ n)
          (λ n p q u. ground (arith, p u, user_uses_after coupon.id u, eqb→eq user_id u))
          w.within_user_limit r.below_user_limit;
  }

  other-Within : (c : Coupon) → (coupon.id == c.id) ≡ false → Within t c → Within after c
  other-Within c other w = record {
    counted = ground (arith, w.counted, uses_after c.id);
    within_limit = w.within_limit;
    within_user_limit =
        Met-both c.per_user_limit (λ n. (u : ℕ) → count_for_user t c.id u ≤ n)
          (λ n. (u : ℕ) → count_for_user t c.id u ≤ n)
          (λ n. (u : ℕ) → count_for_user after c.id u ≤ n)
          (λ n p q u. ground (arith, p u, user_uses_after c.id u)) w.within_user_limit
          w.within_user_limit;
  }

module _ (t : CouponTables) (cart : Cart) (user_id order_id now coupon_id : ℕ) (coupon : Coupon)
    (r : CouponValidationResponse) (a : AllWithin t)
    (found : find_first (is_coupon coupon_id) t.coupons ≡ some coupon)
    (valid : validate_for_user t now coupon.code user_id cart.subtotal ≡ ok r) where
  is_alive : coupon.deleted ≡ false
  is_alive =
      let here = find_first-holds (is_coupon coupon_id) t.coupons coupon found in ground arith

  -- The code of the row stands for the row itself, so that the row is what was validated.
  is_redeemable : IsRedeemable t now user_id cart.subtotal coupon
  unfolding get_by_code
  is_redeemable =
      let (d, by_code, redeemable, _) =
        (validate_for_user_iff t now user_id cart.subtotal coupon.code r).0 valid in
      let normal =
        All-find_first (λ c. upper (strip c.code) ≡ c.code) (is_coupon coupon_id) t.coupons coupon
          a.is_normal found in
      let by_code' : find_first (λ x. text_eq x.code coupon.code && alive x.deleted) t.coupons
          ≡ some d =
        rw (upper_idem (strip coupon.code), normal) at by_code in
      let same = some-injective _ _ (
        sym by_code'
        ∙ found-by_code (is_coupon coupon_id) t.coupons coupon a.is_unique found is_alive) in
      rw (sym same) redeemable

  has_id : coupon_id ≡ coupon.id
  has_id =
      let here = find_first-holds (is_coupon coupon_id) t.coupons coupon found in
      sym (eqb→eq coupon.id coupon_id (ground arith))

  found_by_id : find_first (is_coupon coupon.id) t.coupons ≡ some coupon
  found_by_id = rw has_id at found

  used_found :
      find_first (is_coupon coupon.id) (after t cart user_id order_id coupon).coupons
      ≡ some (used_once_more coupon)
  unfolding with_usage
  used_found =
      set_first-found (is_coupon coupon.id) coupon (used_once_more coupon) t.coupons found_by_id
        (ground (arith, is_alive, eqb_refl coupon.id))

  after-Within :
      (i : ℕ) (c : Coupon)
      → find_first (is_coupon i) (after t cart user_id order_id coupon).coupons ≡ some c
      → Within (after t cart user_id order_id coupon) c
  unfolding with_usage
  after-Within i c e = elim (Bool-cases (coupon.id == i)) [
    | inl hit ↦
        let same_id : i ≡ coupon.id = sym (eqb→eq coupon.id i hit) in
        let e' : find_first (is_coupon coupon.id) (after t cart user_id order_id coupon).coupons
            ≡ some c =
          rw same_id at e in
        rw (some-injective _ _ (sym e' ∙ used_found)) (
          used-Within t cart user_id order_id coupon now (a.within coupon.id coupon found_by_id)
            is_redeemable)
    | inr other ↦
        let e' =
          sym (set_first-other i coupon.id (used_once_more coupon) t.coupons refl other) ∙ e in
        let here = find_first-holds (is_coupon i) t.coupons c e' in
        let same_id : c.id ≡ i = eqb→eq c.id i (ground arith) in
        other-Within t cart user_id order_id coupon c (rw same_id other) (a.within i c e')
  ]

  pub after-AllWithin : AllWithin (after t cart user_id order_id coupon)
  unfolding with_usage
  after-AllWithin = record {
    is_unique =
        IsUnique-set_first (is_coupon coupon.id) coupon (used_once_more coupon) t.coupons
          found_by_id refl is_alive a.is_unique;
    is_normal =
        All-set_first (λ c. upper (strip c.code) ≡ c.code) (is_coupon coupon.id)
          (used_once_more coupon) t.coupons
          (All-find_first (λ c. upper (strip c.code) ≡ c.code) (is_coupon coupon_id) t.coupons
            coupon a.is_normal found)
          a.is_normal;
    within = after-Within;
  }
