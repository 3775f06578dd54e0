-- ===== src/AdminCoupons/Codes.antt =====
-- The codes of the coupons that are not deleted.
use prime_pizza_backend.Base.{
  ◌≡◌, refl, sym, ap, ◌∙◌, inl, inr, Bool, true, false, ◌&&◌, none, some, List, [], ◌∷◌, ◌++◌,
  arith, any, find_first, set_first, Bool-cases,
}
use prime_pizza_backend.Text.{Text, text_eq, upper, upper_idem}
use prime_pizza_backend.Catalog.{alive}
use prime_pizza_backend.Coupon.{Coupon, CouponTables, get_by_code}

-- A coupon that is not deleted has the code.
abbrev pub is_taken : Text → List Coupon → Bool
is_taken code = any λ c. text_eq c.code code && alive c.deleted

-- No two of them have one code.
abbrev pub IsUnique : List Coupon → Type 0
IsUnique [] = Unit
IsUnique (c ∷ l) = ((alive c.deleted && is_taken c.code l) ≡ false) × IsUnique l

pub free-append :
    (code : Text) (l : List Coupon) (new : Coupon)
    → is_taken code l ≡ false
    → text_eq new.code code ≡ false
    → is_taken code (l ++ new ∷ []) ≡ false
free-append code [] new h ne = ground arith
free-append code (c ∷ l) new h ne = ground (arith, free-append code l new)

text_eq_sym : (s t : Text) → text_eq s t ≡ text_eq t s
unfolding text_eq
text_eq_sym [] [] = refl
text_eq_sym [] (b ∷ t) = refl
text_eq_sym (a ∷ s) [] = refl
text_eq_sym (a ∷ s) (b ∷ t) = ground (arith, text_eq_sym s t)

pub IsUnique-append :
    (l : List Coupon) (new : Coupon)
    → IsUnique l
    → is_taken new.code l ≡ false
    → IsUnique (l ++ new ∷ [])
IsUnique-append [] new u h = (ground arith, tt)
IsUnique-append (c ∷ l) new (a, u) h = (
  ground (arith, free-append c.code l new, text_eq_sym new.code c.code),
  IsUnique-append l new u (ground arith),
)

and_false : (a b : Bool) → b ≡ false → (a && b) ≡ false
and_false true b e = e
and_false false b e = refl

any-none : (p : Coupon → Bool) (l : List Coupon) → find_first p l ≡ none → any p l ≡ false
any-none p [] e = refl
any-none p (c ∷ l) e = ground (arith, any-none p l)

module _ (p : Coupon → Bool) (old new : Coupon) where
  -- A row that is found and written back under its code, alive or deleted.
  free-set_first :
      (code : Text) (l : List Coupon)
      → find_first p l ≡ some old
      → new.code ≡ old.code
      → old.deleted ≡ false
      → is_taken code l ≡ false
      → is_taken code (set_first p new l) ≡ false
  free-set_first code [] e same live h = ground arith
  free-set_first code (c ∷ l) e same live h = elim (Bool-cases (p c)) [
    | inl hit ↦ ground arith
    | inr other ↦ ground (arith, free-set_first code l)
  ]

  pub IsUnique-set_first :
      (l : List Coupon)
      → find_first p l ≡ some old
      → new.code ≡ old.code
      → old.deleted ≡ false
      → IsUnique l
      → IsUnique (set_first p new l)
  IsUnique-set_first [] e same live u = tt
  IsUnique-set_first (c ∷ l) e same live (a, u) = elim (Bool-cases (p c)) [
    | inl hit ↦
        let is_old : c ≡ old = ground arith in
        let code : new.code ≡ c.code = same ∙ ap (λ x. x.code) (sym is_old) in
        let live' : c.deleted ≡ false = ap (λ x. x.deleted) is_old ∙ live in
        let free : is_taken c.code l ≡ false = rw live' at a in
        rw hit (and_false (alive new.deleted) _ (rw code free), u)
    | inr other ↦
        rw other
          (ground (arith, free-set_first c.code l), IsUnique-set_first l (ground arith) same live u)
  ]

pub unknown-free :
    (tables : CouponTables) (code : Text)
    → get_by_code tables (upper code) ≡ none
    → is_taken (upper code) tables.coupons ≡ false
unfolding get_by_code
unknown-free tables code e =
    rw (sym (upper_idem code))
      (any-none (λ c. text_eq c.code (upper (upper code)) && alive c.deleted) tables.coupons e)
