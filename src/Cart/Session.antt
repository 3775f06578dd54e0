-- ===== src/Cart/Session.antt =====
-- What the session of a request sees of a cart that it changes, and what of that it writes back.
use prime_pizza_backend.Base.{
  ℕ, ◌≡◌, ◌≤◌, refl, sym, ap, Option, none, some, List, [], ◌∷◌, ◌++◌, arith, length, take, drop,
}
use mathlib.Core.List.{append-nil}
use prime_pizza_backend.Coupon.{Coupon, CouponTables}
use prime_pizza_backend.Models.{CartItemExtra, CartItem, Cart}
use prime_pizza_backend.Cart.Recalculate.{coupon_of}

-- The session refreshes no collection that it has loaded, and new lines and extras are added by
-- their foreign keys: of the rows as edited it sees the lines, and of each line the extras, that
-- were there when the cart was loaded. New rows stand behind the old ones.
abbrev pub seen_items : List CartItem → List CartItem → List CartItem
seen_items [] items = []
seen_items (l ∷ loaded) [] = []
seen_items (l ∷ loaded) (i ∷ items) =
    record i { extras = take (length l.extras) i.extras } ∷ seen_items loaded items

abbrev pub seen : Cart → Cart → Cart
seen loaded cart = record cart { items = seen_items loaded.items cart.items }

-- The rows after the session's lines have been written back: those that it does not see stay.
abbrev pub written_items : List CartItem → List CartItem → List CartItem
written_items [] items = items
written_items (v ∷ view) [] = v ∷ view
written_items (v ∷ view) (i ∷ items) =
    record v { extras = v.extras ++ drop (length v.extras) i.extras } ∷ written_items view items

abbrev pub written_back : Cart → Cart → Cart
written_back cart view = record view { items = written_items view.items cart.items }

-- `cart.coupon` where `cart.coupon_id` is set: the object of the relationship is the one that was
-- loaded with the cart, also after another id has been assigned.
abbrev pub loaded_coupon : CouponTables → Option ℕ → Option ℕ → Option Coupon
loaded_coupon db loaded none = none
loaded_coupon db loaded (some coupon_id) = coupon_of db loaded

-- Each line of the view is the row's line at its place, with perhaps further extras there; after
-- them the row may have more lines.
abbrev pub ShowsPart : List CartItem → List CartItem → Type 0
ShowsPart [] items = Unit
ShowsPart (v ∷ view) [] = ⊥
ShowsPart (v ∷ view) (i ∷ items) =
    ((more : List CartItemExtra) × (i ≡ record v { extras = v.extras ++ more }))
    × ShowsPart view items

ShowsPart-refl : (view : List CartItem) → ShowsPart view view
ShowsPart-refl [] = tt
ShowsPart-refl (v ∷ view) = (
  ([], ap (λ extras. record v { extras = extras }) (sym (append-nil v.extras))),
  ShowsPart-refl view,
)

pub written-ShowsPart : (view items : List CartItem) → ShowsPart view (written_items view items)
written-ShowsPart [] items = tt
written-ShowsPart (v ∷ view) [] = ShowsPart-refl (v ∷ view)
written-ShowsPart (v ∷ view) (i ∷ items) =
    ((drop (length v.extras) i.extras, refl), written-ShowsPart view items)

pub length-seen :
    (loaded items : List CartItem)
    → length loaded ≤ length items
    → length (seen_items loaded items) ≡ length loaded
length-seen [] items h = refl
length-seen (l ∷ loaded) [] h = ground arith
length-seen (l ∷ loaded) (i ∷ items) h = ground (arith, length-seen loaded items)
