-- ===== src/Base/Counts.antt =====
-- How an assignment to one element changes a count.
use Prim.Native.Nat.{◌+◌, ◌≤◌}
use mathlib.Core.Path.{◌≡◌}
use mathlib.Core.Bool.{Bool, true, false}
use mathlib.Core.Option.{some}
use mathlib.Core.List.{List, [], ◌∷◌, ◌++◌}
use native.Mathlib.Omega.{arith}
use prime_pizza_backend.Base.Tests.{if◌then◌else◌}
use prime_pizza_backend.Base.Lists.{count, find_first, set_first, update_where}

module _ {ℓ} {A : Type ℓ} (q p : A → Bool) where
  pub count-set_first : (a : A) (xs : List A) → count q (set_first p a xs) ≤ count q xs + 1
  count-set_first a [] = omega arith
  count-set_first a (x ∷ xs) = ground (arith, count-set_first a xs)

  pub count-set_first_other :
      (a : A) (xs : List A) → q a ≡ false → count q (set_first p a xs) ≤ count q xs
  count-set_first_other a [] h = omega arith
  count-set_first_other a (x ∷ xs) h = ground (arith, count-set_first_other a xs h)

  -- The new element counts only if the old one did.
  pub count-set_first_kept :
      (old a : A) (xs : List A)
      → find_first p xs ≡ some old
      → (q a ≡ true → q old ≡ true)
      → count q (set_first p a xs) ≤ count q xs
  count-set_first_kept old a [] found h = ground arith
  count-set_first_kept old a (x ∷ xs) found h = ground (arith, h, count-set_first_kept old a xs)

  -- The old element counted, the new one does not.
  pub count-set_first_lost :
      (old a : A) (xs : List A)
      → find_first p xs ≡ some old
      → q old ≡ true
      → q a ≡ false
      → count q (set_first p a xs) + 1 ≡ count q xs
  count-set_first_lost old a [] found h k = ground arith
  count-set_first_lost old a (x ∷ xs) found h k = ground (arith, count-set_first_lost old a xs)

  pub count-update_where_le :
      (f : A → A) (xs : List A)
      → ((a : A) → q (f a) ≡ true → q a ≡ true)
      → count q (update_where p f xs) ≤ count q xs
  count-update_where_le f [] h = omega arith
  count-update_where_le f (x ∷ xs) h = ground (arith, h x, count-update_where_le f xs h)

module _ {ℓ} {A : Type ℓ} (q : A → Bool) where
  pub count-append_one :
      (a : A) (xs : List A) → count q (xs ++ a ∷ []) ≡ count q xs + (if q a then 1 else 0)
  count-append_one a [] = omega arith
  count-append_one a (x ∷ xs) = omega (arith, count-append_one a xs)
