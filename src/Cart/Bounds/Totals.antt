-- ===== src/Cart/Bounds/Totals.antt =====
-- The limits through the recalculation.
use prime_pizza_backend.Base.{
  ℕ, ◌≡◌, ◌≤◌, refl, sym, ◌∙◌, inl, inr, Option, List, [], ◌∷◌, arith, length, All, Bool-cases,
}
use prime_pizza_backend.Base.Exec.{Result, ok, chain, chain-ok, ok-injective}
use prime_pizza_backend.Errors.{AppException}
use prime_pizza_backend.Catalog.{Catalog, alive}
use prime_pizza_backend.Commerce.{CommerceConfig}
use prime_pizza_backend.Coupon.{Coupon, CouponTables}
use prime_pizza_backend.Models.{CartItem, Cart}
use prime_pizza_backend.Cart.Lines.{Settings, Entities}
use prime_pizza_backend.Cart.Recalculate.{
  coupon_of, recalculate, recalculate_with, totalled, reprice_items, priced_item, item_entities,
  live_items,
}
use prime_pizza_backend.Cart.Session.{seen, seen_items, written_items, written_back}
use prime_pizza_backend.Cart.Bounds.{IsAllowedItem, InBounds}

module _ (settings : Settings) where
  priced_item_keeps :
      (item : CartItem) (rows : Entities)
      → ((priced_item item rows).quantity ≡ item.quantity)
        × ((priced_item item rows).deleted ≡ item.deleted)
  unfolding priced_item
  priced_item_keeps item (product, variant, extras) = (refl, refl)

  -- A view of lines agrees with the rows on which of them are deleted.
  abbrev pub SameMarks : List CartItem → List CartItem → Type 0
  SameMarks [] items = Unit
  SameMarks (v ∷ view) [] = ⊥
  SameMarks (v ∷ view) (i ∷ items) = (v.deleted ≡ i.deleted) × SameMarks view items

  seen-SameMarks : (loaded items : List CartItem) → SameMarks (seen_items loaded items) items
  seen-SameMarks [] items = tt
  seen-SameMarks (l ∷ loaded) [] = tt
  seen-SameMarks (l ∷ loaded) (i ∷ items) = (refl, seen-SameMarks loaded items)

  seen-IsAllowed :
      (loaded items : List CartItem)
      → All (IsAllowedItem settings) items
      → All (IsAllowedItem settings) (seen_items loaded items)
  seen-IsAllowed [] items h = tt
  seen-IsAllowed (l ∷ loaded) [] h = tt
  seen-IsAllowed (l ∷ loaded) (i ∷ items) (h, hs) = (h, seen-IsAllowed loaded items hs)

  written-IsAllowed :
      (view items : List CartItem)
      → All (IsAllowedItem settings) view
      → All (IsAllowedItem settings) items
      → All (IsAllowedItem settings) (written_items view items)
  written-IsAllowed [] items v h = h
  written-IsAllowed (x ∷ view) [] v h = v
  written-IsAllowed (x ∷ view) (i ∷ items) (v, vs) (h, hs) = (v, written-IsAllowed view items vs hs)

  written-length :
      (view items : List CartItem)
      → SameMarks view items
      → length (live_items (written_items view items)) ≡ length (live_items items)
  written-length [] items m = refl
  written-length (v ∷ view) [] m = absurd m
  written-length (v ∷ view) (i ∷ items) (m, ms) = ground (arith, m, written-length view items ms)

  reprice_items-bounds :
      (c : Catalog) (items priced rows : List CartItem)
      → All (IsAllowedItem settings) items
      → SameMarks items rows
      → reprice_items c items ≡ ok priced
      → All (IsAllowedItem settings) priced × SameMarks priced rows
  unfolding reprice_items
  reprice_items-bounds c [] priced rows h m e = rw (sym (ok-injective [] priced e)) (tt, tt)
  reprice_items-bounds c (item ∷ items) priced [] h m e = absurd m
  reprice_items-bounds c (item ∷ items) priced (row ∷ rows) (h, hs) (m, ms) e =
      elim (Bool-cases (alive item.deleted)) [
        | inl live ↦
            let after : Entities → List CartItem → Result AppException (List CartItem) =
              λ rows l. ok (priced_item item rows ∷ l) in
            let (entities, loaded, e1) =
              chain-ok (item_entities c item) (λ rows. chain (reprice_items c items) (after rows))
                priced (ground arith) in
            let (rest, e2, e3) = chain-ok (reprice_items c items) (after entities) priced e1 in
            let (k, n) = reprice_items-bounds c items rest rows hs ms e2 in
            let same = priced_item_keeps item entities in
            rw (sym (ok-injective (priced_item item entities ∷ rest) priced e3))
              ((λ here. ground (arith, same, h), k), (same.1 ∙ m, n))
        | inr gone ↦
            let (rest, e2, e3) =
              chain-ok (reprice_items c items) (λ l. ok (item ∷ l)) priced (ground arith) in
            let (k, n) = reprice_items-bounds c items rest rows hs ms e2 in
            rw (sym (ok-injective (item ∷ rest) priced e3)) ((h, k), (m, n))
      ]

  module _ (commerce : CommerceConfig) (c : Catalog) (db : CouponTables) (now : ℕ) where
    -- A row that is written back from a recalculated view of it.
    pub written-InBounds :
        (coupon : Option Coupon) (loaded cart priced : Cart)
        → InBounds settings cart
        → recalculate_with commerce c db now coupon (seen loaded cart) ≡ ok priced
        → InBounds settings (written_back cart priced)
    unfolding recalculate_with totalled
    written-InBounds coupon loaded cart priced b h =
        let view = seen loaded cart in
        let (items, e, done) =
          chain-ok (reprice_items c view.items)
            (λ items. ok (totalled commerce db now coupon view items)) priced h in
        let (q, m) =
          reprice_items-bounds c view.items items cart.items
            (seen-IsAllowed loaded.items cart.items b.quantities)
            (seen-SameMarks loaded.items cart.items) e in
        rw (sym (ok-injective (totalled commerce db now coupon view items) priced done)) record {
          quantities = written-IsAllowed items cart.items q b.quantities;
          few = omega (arith, written-length items cart.items m, b.few);
        }

    all_marked : (items : List CartItem) → SameMarks items items
    all_marked [] = tt
    all_marked (i ∷ items) = (refl, all_marked items)

    marked-length :
        (view items : List CartItem)
        → SameMarks view items
        → length (live_items view) ≤ length (live_items items)
    marked-length [] items m = omega arith
    marked-length (v ∷ view) [] m = absurd m
    marked-length (v ∷ view) (i ∷ items) (m, ms) = ground (arith, m, marked-length view items ms)

    pub recalculate-InBounds :
        (cart priced : Cart)
        → InBounds settings cart
        → recalculate commerce c db now cart ≡ ok priced
        → InBounds settings priced
    unfolding recalculate totalled
    recalculate-InBounds cart priced b h =
        let coupon = coupon_of db cart.coupon_id in
        let (items, e, done) =
          chain-ok (reprice_items c cart.items)
            (λ items. ok (totalled commerce db now coupon cart items)) priced h in
        let (q, m) =
          reprice_items-bounds c cart.items items cart.items b.quantities (all_marked cart.items)
            e in
        rw (sym (ok-injective (totalled commerce db now coupon cart items) priced done))
          record { quantities = q; few = omega (arith, marked-length items cart.items m, b.few) }
