-- ===== src/Checkout/SameCart.antt =====
-- What a checkout keeps of the user's cart when it prices it: its row and its lines.
use prime_pizza_backend.Base.{ℕ, ◌≡◌, refl, sym, ◌∙◌, inl, inr, List, [], ◌∷◌, arith, Bool-cases}
use prime_pizza_backend.Base.Exec.{Result, ok, chain, chain-ok, ok-injective}
use prime_pizza_backend.Errors.{AppException}
use prime_pizza_backend.Catalog.{Catalog, alive}
use prime_pizza_backend.Commerce.{CommerceConfig}
use prime_pizza_backend.Coupon.{CouponTables}
use prime_pizza_backend.Models.{CartItem, Cart}
use prime_pizza_backend.Cart.Lines.{Entities}
use prime_pizza_backend.Cart.Recalculate.{
  coupon_of, item_entities, priced_item, recalculate, recalculate_with, reprice_items, totalled,
}
use prime_pizza_backend.Cart.Edits.{SameKey, recalculate-SameKey}

-- A line for the same goods, as many of them, deleted or not.
pub record SameLine (a b : CartItem) : Type 0 where
  pub line_id : b.id ≡ a.id
  pub product : b.product_id ≡ a.product_id
  pub variant : b.variant_id ≡ a.variant_id
  pub quantity : b.quantity ≡ a.quantity
  pub deleted : b.deleted ≡ a.deleted

abbrev pub SameLines : List CartItem → List CartItem → Type 0
SameLines [] [] = Unit
SameLines [] (b ∷ bs) = ⊥
SameLines (a ∷ as_) [] = ⊥
SameLines (a ∷ as_) (b ∷ bs) = SameLine a b × SameLines as_ bs

-- The row of the cart `a`, with the same lines.
pub record SameCart (a b : Cart) : Type 0 where
  pub same_key : SameKey b a
  pub same_lines : SameLines a.items b.items

SameLines-refl : (items : List CartItem) → SameLines items items
SameLines-refl [] = tt
SameLines-refl (i ∷ items) = (
  record { line_id = refl; product = refl; variant = refl; quantity = refl; deleted = refl },
  SameLines-refl items,
)

pub SameCart-refl : (cart : Cart) → SameCart cart cart
SameCart-refl cart = record {
  same_key = record { same_id = refl; same_user = refl; same_active = refl; same_deleted = refl };
  same_lines = SameLines-refl cart.items;
}

SameLine-priced :
    (a item : CartItem) (rows : Entities) → SameLine a item → SameLine a (priced_item item rows)
unfolding priced_item
SameLine-priced a item (product, variant, extras) s = record {
  line_id = s.line_id;
  product = s.product;
  variant = s.variant;
  quantity = s.quantity;
  deleted = s.deleted;
}

reprice_items-SameLines :
    (c : Catalog) (old items priced : List CartItem)
    → SameLines old items
    → reprice_items c items ≡ ok priced
    → SameLines old priced
unfolding reprice_items
reprice_items-SameLines c [] [] priced s h = rw (sym (ok-injective [] priced h)) tt
reprice_items-SameLines c (a ∷ old) [] priced s h = absurd s
reprice_items-SameLines c [] (item ∷ items) priced s h = absurd s
reprice_items-SameLines c (a ∷ old) (item ∷ items) priced (s, ss) h =
    elim (Bool-cases (alive item.deleted)) [
      | inl live ↦
          let after : Entities → List CartItem → Result AppException (List CartItem) =
            λ rows l. ok (priced_item item rows ∷ l) in
          let (rows, loaded, h1) =
            chain-ok (item_entities c item) (λ rows. chain (reprice_items c items) (after rows))
              priced (ground arith) in
          let (rest, e, h2) = chain-ok (reprice_items c items) (after rows) priced h1 in
          rw (sym (ok-injective (priced_item item rows ∷ rest) priced h2))
            (SameLine-priced a item rows s, reprice_items-SameLines c old items rest ss e)
      | inr gone ↦
          let (rest, e, h2) =
            chain-ok (reprice_items c items) (λ l. ok (item ∷ l)) priced (ground arith) in
          rw (sym (ok-injective (item ∷ rest) priced h2))
            (s, reprice_items-SameLines c old items rest ss e)
    ]

recalculated-SameLines :
    (commerce : CommerceConfig) (c : Catalog) (db : CouponTables) (now : ℕ) (old cart priced : Cart)
    → SameLines old.items cart.items
    → recalculate commerce c db now cart ≡ ok priced
    → SameLines old.items priced.items
unfolding recalculate recalculate_with totalled
recalculated-SameLines commerce c db now old cart priced s h =
    let coupon = coupon_of db cart.coupon_id in
    let (items, e, done) =
      chain-ok (reprice_items c cart.items)
        (λ items. ok (totalled commerce db now coupon cart items)) priced h in
    rw (sym (ok-injective (totalled commerce db now coupon cart items) priced done))
      (reprice_items-SameLines c old.items cart.items items s e)

pub recalculate-SameCart :
    (commerce : CommerceConfig) (c : Catalog) (db : CouponTables) (now : ℕ) (old cart priced : Cart)
    → SameCart old cart
    → recalculate commerce c db now cart ≡ ok priced
    → SameCart old priced
recalculate-SameCart commerce c db now old cart priced s h =
    let (k, _) = recalculate-SameKey commerce c db now cart priced h in
    record {
      same_key = record {
        same_id = k.same_id ∙ s.same_key.same_id;
        same_user = k.same_user ∙ s.same_key.same_user;
        same_active = k.same_active ∙ s.same_key.same_active;
        same_deleted = k.same_deleted ∙ s.same_key.same_deleted;
      };
      same_lines = recalculated-SameLines commerce c db now old cart priced s.same_lines h;
    }
