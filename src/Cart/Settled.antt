-- ===== src/Cart/Settled.antt =====
-- How the methods that change a cart settle it.
use prime_pizza_backend.Base.{
  ℕ, ◌+◌, ◌≡◌, ◌≤◌, refl, ◌∙◌, inl, inr, some, [], ◌∷◌, ◌++◌, arith, length, Option-cases,
}
use prime_pizza_backend.Base.Exec.{Result, ok, bind-ok, Result-cases, ◌>>=◌}
use prime_pizza_backend.Errors.{AppException}
use prime_pizza_backend.Commerce.{CommerceConfig}
use prime_pizza_backend.Models.{Cart}
use prime_pizza_backend.Store.{World, Service}
use prime_pizza_backend.Cart.Lines.{Settings}
use prime_pizza_backend.Cart.Recalculate.{recalculate_with}
use prime_pizza_backend.Cart.Priced.{IsPriced, recalculate_with-IsPriced}
use prime_pizza_backend.Cart.Service.{
  get_or_create_cart, empty_cart, get_active, save_cart, require_cart, CartResponse, to_response,
  priced_view, settle, reload,
}
use prime_pizza_backend.Cart.Session.{
  ShowsPart, length-seen, loaded_coupon, seen, written-ShowsPart, written_back,
}
use prime_pizza_backend.Cart.Edits.{
  Edits, SameKey, SameKey-refl, get_active-found, get_active-replace, recalculate_with-SameKey,
}

-- The user's cart after a method that changed it, loaded by the method as `loaded`: the session's
-- view of it has the lines that were loaded, and is priced; the row is committed, with the totals of
-- the view, its lines, and perhaps more; the answer shows the view.
pub record Settled (commerce : CommerceConfig) (user_id : ℕ) (loaded : Cart) (w' : World)
    (r : CartResponse) : Type 0 where
  pub cart : Cart
  pub view : Cart
  pub is_active : get_active w'.db.carts user_id ≡ some cart
  pub is_priced : IsPriced commerce w'.db.catalog view
  pub same_lines : length view.items ≡ length loaded.items
  pub part : ShowsPart view.items cart.items
  pub same_totals : cart ≡ record view { items = cart.items }
  pub is_committed : w'.committed ≡ w'.db
  pub shown : r ≡ to_response view

pub record Leaves (commerce : CommerceConfig) (user_id : ℕ) (w w' : World) (r : CartResponse)
    : Type 0 where
  pub loaded : Cart
  pub opened : World
  pub is_loaded : get_or_create_cart user_id w ≡ (ok loaded, opened)
  pub settled : Settled commerce user_id loaded w' r

-- A computation that settles the cart `loaded`, from a world in which it is the active one.
abbrev pub Rests : CommerceConfig → ℕ → Cart → Service CartResponse → Type 0
Rests commerce user_id loaded m =
    (w w' : World) (r : CartResponse)
    → get_active w.db.carts user_id ≡ some loaded
    → m w ≡ (ok r, w')
    → Settled commerce user_id loaded w' r

pub Rests-read :
    {A : Type 0} (commerce : CommerceConfig) (user_id : ℕ) (loaded : Cart)
    (f : World → Result AppException A) (k : A → Service CartResponse)
    → ((w : World) (a : A) → f w ≡ ok a → Rests commerce user_id loaded (k a))
    → Rests commerce user_id loaded ((λ w. (f w, w)) >>= k)
Rests-read commerce user_id loaded f k h w w' r found e = elim (Result-cases (f w)) [
  | inl (a, read) ↦ h w a read w w' r found (ground arith)
  | inr (x, failed) ↦ ground arith
]

-- The cart that a method loads is the active one.
get_or_create-active :
    (user_id : ℕ) (w w1 : World) (cart : Cart)
    → get_or_create_cart user_id w ≡ (ok cart, w1)
    → get_active w1.db.carts user_id ≡ some cart
unfolding get_or_create_cart require_cart
get_or_create-active user_id w w1 cart e = elim (Option-cases (get_active w.db.carts user_id)) [
  | inl none_ ↦
      let made : World = record w {
        db = record w.db {
          next_id = w.db.next_id + 1;
          carts = w.db.carts ++ empty_cart w.db.next_id user_id w.now ∷ [];
        };
      } in
      elim (Option-cases (get_active made.db.carts user_id)) [
        | inl gone ↦ ground arith
        | inr (c, found) ↦ ground arith
      ]
  | inr (c, found) ↦ ground arith
]

pub Leaves-cart :
    (commerce : CommerceConfig) (user_id : ℕ) (k : Cart → Service CartResponse)
    → ((cart : Cart) → Rests commerce user_id cart (k cart))
    → (w w' : World) (r : CartResponse) → (get_or_create_cart user_id >>= k) w ≡ (ok r, w')
    → Leaves commerce user_id w w' r
Leaves-cart commerce user_id k h w w' r e =
    let (cart, t, opened, e') = bind-ok (get_or_create_cart user_id) k w w' r e in
    record {
      loaded = cart;
      opened = t;
      is_loaded = opened;
      settled = h cart t w' r (get_or_create-active user_id w t cart opened) e';
    }

module _ (settings : Settings) (commerce : CommerceConfig) (user_id : ℕ) (loaded : Cart) where
  -- From a row that is the active one up to its lines, coupon and amounts.
  pub settle_lem :
      (w w' : World) (old cart : Cart) (r : CartResponse)
      → get_active w.db.carts user_id ≡ some old
      → SameKey cart old
      → length loaded.items ≤ length cart.items
      → settle settings commerce loaded cart w ≡ (ok r, w')
      → Settled commerce user_id loaded w' r
  unfolding settle priced_view require_cart
  settle_lem w w' old cart r found same grows e =
      let coupon = loaded_coupon w.db.coupon_tables loaded.coupon_id cart.coupon_id in
      let view = seen loaded cart in
      elim (Result-cases
        (recalculate_with commerce w.db.catalog w.db.coupon_tables w.now coupon view)) [
          | inr (x, failed) ↦ ground arith
          | inl (priced, done) ↦
              let (own, _, _) = get_active-found w.db.carts user_id old found in
              let (k, n) =
                recalculate_with-SameKey commerce w.db.catalog w.db.coupon_tables w.now coupon view
                  priced done in
              let new = written_back cart priced in
              let found' = get_active-replace w.db.carts user_id old new found record {
                same_id = k.same_id ∙ same.same_id;
                same_user = k.same_user ∙ same.same_user;
                same_active = k.same_active ∙ same.same_active;
                same_deleted = k.same_deleted ∙ same.same_deleted;
              } in
              let own' : cart.user_id ≡ user_id = same.same_user ∙ own in
              record {
                cart = new;
                view = priced;
                is_active = ground (arith, found', done, e, own');
                is_priced =
                    let kept : w'.db.catalog ≡ w.db.catalog =
                      ground (arith, found', done, e, own') in
                    rw kept (
                      recalculate_with-IsPriced commerce w.db.catalog w.db.coupon_tables w.now
                        coupon view priced done);
                same_lines = n ∙ length-seen loaded.items cart.items grows;
                part = written-ShowsPart priced.items cart.items;
                same_totals = refl;
                is_committed = ground (arith, found', done, e, own');
                shown = ground (arith, found', done, e, own');
              }
        ]

  pub reload_lem :
      (edited : Cart)
      → Edits loaded edited
      → Rests commerce user_id loaded
          (reload settings commerce user_id edited >>= settle settings commerce loaded)
  unfolding reload require_cart
  reload_lem edited d w w' r found e =
      let there = get_active-replace w.db.carts user_id loaded edited found d.same_key in
      settle_lem (save_cart edited w) w' edited edited r there (SameKey-refl edited) d.grows
        (ground (arith, there, e))
