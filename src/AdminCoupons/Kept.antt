-- ===== src/AdminCoupons/Kept.antt =====
-- What the owner's changes keep of the table of coupons.
use prime_pizza_backend.Base.{
  ℕ, ◌*◌, ◌^◌, ◌≤◌, ◌<◌, ◌≡◌, refl, sym, inl, inr, true, false, Option, none, some, List, [], ◌∷◌,
  arith, find_first-holds, set_first, All, All-append, All-set_first, All-find_first, Bool-cases,
  Option-cases,
}
use prime_pizza_backend.Base.Exec.{Result, ok, err, or_raise, ◌>>=◌}
use prime_pizza_backend.Text.{upper, strip}
use prime_pizza_backend.Errors.{AppException, not_found_exception, text}
use prime_pizza_backend.Enums.{CouponType, percentage, fixed}
use prime_pizza_backend.Money.{Decimal, of_cents, money}
use prime_pizza_backend.Money.Rounding.{money_nearest, money-of_cents, ten_pow_pos}
use prime_pizza_backend.Coupon.{is_coupon, Coupon, get_by_code}
use prime_pizza_backend.Store.{World, Service, finish}
use prime_pizza_backend.AdminCoupons.{
  CouponCreateRequest, CouponUpdateRequest, over_hundred, reversed, is_rejected, new_coupon,
  create_coupon, coupon_by_id, set_or, set_value, is_empty_update, updated_coupon, update_found,
  update_coupon, only_active, set_active, delete_found, delete_coupon,
}
use prime_pizza_backend.AdminCoupons.Codes.{
  IsUnique, IsUnique-append, IsUnique-set_first, unknown-free,
}
use prime_pizza_backend.AdminCoupons.Calls.{
  CouponCall, create_call, update_call, active_call, delete_call, coupon_call, coupon_calls,
}

-- A percentage, in hundredths, is at most 100.
abbrev pub Fits : CouponType → ℕ → Type 0
Fits percentage value = value ≤ 10000
Fits fixed value = Unit

abbrev pub AllFit : List Coupon → Type 0
AllFit = All λ c. Fits c.coupon_type c.value

pub record IsSound (w : World) : Type 0 where
  pub is_committed : w.committed ≡ w.db
  pub is_unique : IsUnique w.db.coupon_tables.coupons
  pub all_fit : AllFit w.db.coupon_tables.coupons

at_most_hundred : (x u : ℕ) → 0 < u → x * (2 * u) ≤ 20001 * u → x ≤ 10000
at_most_hundred x u pos h = grind arith

-- A value that is not over a hundred is not after its rounding.
Fits-money : (t : CouponType) (v : Decimal) → over_hundred t v ≡ false → Fits t (money v)
unfolding over_hundred
Fits-money fixed v h = tt
Fits-money percentage v h =
    let (low, high) = money_nearest v in
    let bound : v.mantissa ≤ 100 * 10 ^ v.places = ground (arith, h) in
    at_most_hundred (money v) (10 ^ v.places) (ten_pow_pos v.places) (omega (arith, low, bound))

finish-IsSound :
    {A : Type 0} (p : Result AppException A × World) → IsSound p.1 → IsSound (finish p).1
finish-IsSound (ok a, w) s = s
finish-IsSound (err e, w) s = record {
  is_committed = refl;
  is_unique = rw s.is_committed s.is_unique;
  all_fit = rw s.is_committed s.all_fit;
}

ask-IsSound :
    {A B : Type 0} (e : AppException) (w : World)
    → IsSound w
    → (o : Option B) (k : B → Service A) → ((a : B) → o ≡ some a → IsSound (k a w).1)
    → IsSound ((or_raise o e >>= k) w).1
ask-IsSound e w s none k h = s
ask-IsSound e w s (some a) k h = h a refl

module _ (payload : CouponCreateRequest) (actor_id : ℕ) (w : World) (s : IsSound w) where
  add-IsSound :
      is_rejected payload ≡ false
      → get_by_code w.db.coupon_tables (upper (strip payload.code)) ≡ none
      → IsSound (create_coupon payload actor_id w).1
  unfolding create_coupon is_rejected new_coupon
  add-IsSound valid free =
      rw (valid, free)
        (record {
          is_committed = refl;
          is_unique =
              IsUnique-append w.db.coupon_tables.coupons (new_coupon w.db.next_id payload)
                s.is_unique (unknown-free w.db.coupon_tables (strip payload.code) free);
          all_fit =
              All-append (λ c. Fits c.coupon_type c.value) w.db.coupon_tables.coupons
                (new_coupon w.db.next_id payload ∷ []) s.all_fit
                (Fits-money payload.coupon_type payload.value (ground (arith, valid)), tt);
        })

  create-IsSound : IsSound (create_coupon payload actor_id w).1
  unfolding create_coupon
  create-IsSound =
      let code = upper (strip payload.code) in
      elim (Bool-cases (is_rejected payload)) [
        | inl bad ↦ rw bad s
        | inr valid ↦ elim (Option-cases (get_by_code w.db.coupon_tables code)) [
          | inl free ↦ add-IsSound valid free
          | inr (c, taken) ↦ rw (valid, taken) s
        ]
      ]

-- The value that is stored is the one that is tested, rounded.
set_value-money : (v : Option Decimal) (old : ℕ) → set_value v old ≡ money (set_or v (of_cents old))
set_value-money none old = sym (money-of_cents old)
set_value-money (some d) old = refl

-- A coupon written over the one that was found.
module _ (coupon_id : ℕ) (w : World) (s : IsSound w) (c new : Coupon)
    (found : coupon_by_id w.db.coupon_tables.coupons coupon_id ≡ some c) (same : new.code ≡ c.code)
    (fits : Fits new.coupon_type new.value) where
  is_alive : c.deleted ≡ false
  unfolding coupon_by_id
  is_alive =
      let here = find_first-holds (is_coupon coupon_id) w.db.coupon_tables.coupons c found in
      ground arith

  write-IsUnique : IsUnique (set_first (is_coupon coupon_id) new w.db.coupon_tables.coupons)
  unfolding coupon_by_id
  write-IsUnique =
      IsUnique-set_first (is_coupon coupon_id) c new w.db.coupon_tables.coupons found same is_alive
        s.is_unique

  write-AllFit : AllFit (set_first (is_coupon coupon_id) new w.db.coupon_tables.coupons)
  write-AllFit =
      All-set_first (λ c. Fits c.coupon_type c.value) (is_coupon coupon_id) new
        w.db.coupon_tables.coupons fits s.all_fit

module _ (coupon_id actor_id : ℕ) (w : World) (s : IsSound w) where
  found-Fits :
      (c : Coupon)
      → coupon_by_id w.db.coupon_tables.coupons coupon_id ≡ some c
      → Fits c.coupon_type c.value
  unfolding coupon_by_id
  found-Fits c found =
      All-find_first (λ c. Fits c.coupon_type c.value) (is_coupon coupon_id)
        w.db.coupon_tables.coupons c s.all_fit found

  update_found-IsSound :
      (payload : CouponUpdateRequest) (c : Coupon)
      → coupon_by_id w.db.coupon_tables.coupons coupon_id ≡ some c
      → IsSound (update_found coupon_id payload actor_id c w).1
  unfolding update_found updated_coupon
  update_found-IsSound payload c found =
      let new = updated_coupon payload c in
      let t = set_or payload.coupon_type c.coupon_type in
      let v = set_or payload.value (of_cents c.value) in
      let starts = set_or payload.starts_at c.starts_at in
      let ends = set_or payload.expires_at c.expires_at in
      elim (Bool-cases (is_empty_update payload)) [
        | inl bad ↦ rw bad s
        | inr full ↦ elim (Bool-cases (over_hundred t v)) [
          | inl bad ↦ rw (full, bad) s
          | inr valid ↦ elim (Bool-cases (reversed starts ends)) [
            | inl bad ↦ rw (full, valid, bad) s
            | inr ordered ↦
                let fits : Fits t (set_value payload.value c.value) =
                  rw (set_value-money payload.value c.value) (Fits-money t v valid) in
                rw (full, valid, ordered)
                  (record {
                    is_committed = refl;
                    is_unique = write-IsUnique coupon_id w s c new found refl fits;
                    all_fit = write-AllFit coupon_id w s c new found refl fits;
                  })
          ]
        ]
      ]

  abbrev missing : AppException
  missing = not_found_exception (text "Coupon not found")

  update-IsSound :
      (payload : CouponUpdateRequest) → IsSound (update_coupon coupon_id payload actor_id w).1
  unfolding update_coupon
  update-IsSound payload =
      ask-IsSound missing w s (coupon_by_id w.db.coupon_tables.coupons coupon_id)
        (update_found coupon_id payload actor_id) (update_found-IsSound payload)

  delete_found-IsSound :
      (c : Coupon)
      → coupon_by_id w.db.coupon_tables.coupons coupon_id ≡ some c
      → IsSound (delete_found coupon_id actor_id c w).1
  unfolding delete_found
  delete_found-IsSound c found =
      let new : Coupon = record c { deleted = true } in
      record {
        is_committed = refl;
        is_unique = write-IsUnique coupon_id w s c new found refl (found-Fits c found);
        all_fit = write-AllFit coupon_id w s c new found refl (found-Fits c found);
      }

  delete-IsSound : IsSound (delete_coupon coupon_id actor_id w).1
  unfolding delete_coupon
  delete-IsSound =
      ask-IsSound missing w s (coupon_by_id w.db.coupon_tables.coupons coupon_id)
        (delete_found coupon_id actor_id) delete_found-IsSound

coupon_call-IsSound : (c : CouponCall) (w : World) → IsSound w → IsSound (coupon_call c w)
unfolding coupon_call set_active
coupon_call-IsSound (create_call payload actor_id) w s =
    finish-IsSound _ (create-IsSound payload actor_id w s)
coupon_call-IsSound (update_call coupon_id payload actor_id) w s =
    finish-IsSound _ (update-IsSound coupon_id actor_id w s payload)
coupon_call-IsSound (active_call coupon_id is_active actor_id) w s =
    finish-IsSound _ (update-IsSound coupon_id actor_id w s (only_active is_active))
coupon_call-IsSound (delete_call coupon_id actor_id) w s =
    finish-IsSound _ (delete-IsSound coupon_id actor_id w s)

-- From a committed table of coupons in which no two that are not deleted have one code and no
-- percentage is over 100: this holds again after any sequence of requests to create, change,
-- activate and delete coupons, whether they succeed or fail.
pub coupon_calls-IsSound :
    (cs : List CouponCall) (w : World) → IsSound w → IsSound (coupon_calls cs w)
unfolding coupon_calls
coupon_calls-IsSound [] w s = s
coupon_calls-IsSound (c ∷ cs) w s =
    coupon_calls-IsSound cs (coupon_call c w) (coupon_call-IsSound c w s)
