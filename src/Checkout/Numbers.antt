-- ===== src/Checkout/Numbers.antt =====
-- The numbers of the orders, and the sequences that they are drawn from.
use prime_pizza_backend.Base.{
  ℕ, ◌+◌, ◌≤◌, ◌≡◌, refl, inl, inr, Bool, true, false, ◌&&◌, List, [], ◌∷◌, ◌++◌, arith, ◌==◌, any,
  find_first, set_first, All, All-append, Bool-cases, eqb→eq, eqb_refl, if◌then◌else◌,
}
use prime_pizza_backend.Checkout.Draft.{bump, is_year, last_value}

abbrev pub is_number : ℕ × ℕ → ℕ × ℕ → Bool
is_number (y, n) (z, m) = y == z && n == m

-- The last number that a year has given.
abbrev pub last : ℕ → List (ℕ × ℕ) → ℕ
last year rows = last_value (find_first (is_year year) rows)

abbrev pub IsDistinct : List (ℕ × ℕ) → Type 0
IsDistinct [] = Unit
IsDistinct (r ∷ l) = (any (is_number r) l ≡ false) × IsDistinct l

abbrev pub IsDrawn : List (ℕ × ℕ) → ℕ × ℕ → Type 0
IsDrawn rows (year, n) = n ≤ last year rows

-- No two numbers are the same, and all were drawn.
pub record Numbering (numbers rows : List (ℕ × ℕ)) : Type 0 where
  pub distinct : IsDistinct numbers
  pub drawn : All (IsDrawn rows) numbers

last-set_first :
    (year n y : ℕ) (rows : List (ℕ × ℕ))
    → any (is_year year) rows ≡ true
    → last y (set_first (is_year year) (year, n) rows) ≡ (if year == y then n else last y rows)
last-set_first year n y [] h = ground arith
last-set_first year n y ((z, m) ∷ rows) h = ground (arith, last-set_first year n y rows)

last-append :
    (year n y : ℕ) (rows : List (ℕ × ℕ))
    → any (is_year year) rows ≡ false
    → last y (rows ++ (year, n) ∷ []) ≡ (if year == y then n else last y rows)
last-append year n y [] h = ground arith
last-append year n y ((z, m) ∷ rows) h = ground (arith, last-append year n y rows)

last-bump :
    (year y : ℕ) (rows : List (ℕ × ℕ))
    → last y (bump year rows).1 ≡ (if year == y then last year rows + 1 else last y rows)
unfolding bump
last-bump year y rows = elim (Bool-cases (any (is_year year) rows)) [
  | inl known ↦ rw known (last-set_first year (last year rows + 1) y rows known)
  | inr new ↦ rw new (last-append year (last year rows + 1) y rows new)
]

-- The number that is drawn next is new.
fresh :
    (year : ℕ) (rows numbers : List (ℕ × ℕ))
    → All (IsDrawn rows) numbers
    → any (is_number (year, last year rows + 1)) numbers ≡ false
fresh year rows [] h = refl
fresh year rows ((y, n) ∷ numbers) (d, h) = ground (arith, fresh year rows numbers h, eqb→eq year y)

-- A number that has been drawn, and that no order has yet.
pub record Reserved (r : ℕ × ℕ) (numbers rows : List (ℕ × ℕ)) : Type 0 where
  pub numbering : Numbering numbers rows
  pub is_new : any (is_number r) numbers ≡ false
  pub is_drawn : IsDrawn rows r

bump-IsDrawn :
    (year : ℕ) (rows numbers : List (ℕ × ℕ))
    → All (IsDrawn rows) numbers
    → All (IsDrawn (bump year rows).1) numbers
bump-IsDrawn year rows [] h = tt
bump-IsDrawn year rows ((y, n) ∷ numbers) (d, h) =
    (ground (arith, last-bump year y rows, eqb→eq year y), bump-IsDrawn year rows numbers h)

pub bump-Reserved :
    (year : ℕ) (numbers rows : List (ℕ × ℕ))
    → Numbering numbers rows
    → let (n, rows') = bump year rows in Reserved (year, n) numbers rows'
unfolding bump
bump-Reserved year numbers rows h = record {
  numbering = record { distinct = h.distinct; drawn = bump-IsDrawn year rows numbers h.drawn };
  is_new = fresh year rows numbers h.drawn;
  is_drawn = ground (arith, last-bump year year rows, eqb_refl year);
}

not_last :
    (x r : ℕ × ℕ) (l : List (ℕ × ℕ))
    → any (is_number x) l ≡ false
    → is_number r x ≡ false
    → any (is_number x) (l ++ r ∷ []) ≡ false
not_last (y, n) (z, m) [] h ne = ground (arith, eqb→eq y z, eqb→eq n m)
not_last (y, n) (z, m) ((a, b) ∷ l) h ne = ground (arith, not_last (y, n) (z, m) l)

append-IsDistinct :
    (l : List (ℕ × ℕ)) (r : ℕ × ℕ)
    → IsDistinct l
    → any (is_number r) l ≡ false
    → IsDistinct (l ++ r ∷ [])
append-IsDistinct [] r h new = (refl, tt)
append-IsDistinct (x ∷ l) r (d, h) new =
    (not_last x r l d (ground arith), append-IsDistinct l r h (ground arith))

pub add-Numbering :
    (r : ℕ × ℕ) (numbers rows : List (ℕ × ℕ))
    → Reserved r numbers rows
    → Numbering (numbers ++ r ∷ []) rows
add-Numbering r numbers rows h = record {
  distinct = append-IsDistinct numbers r h.numbering.distinct h.is_new;
  drawn = All-append (IsDrawn rows) numbers (r ∷ []) h.numbering.drawn (h.is_drawn, tt);
}
