-- ===== src/Cart/Service.antt =====
-- The methods of `CartService`.
use prime_pizza_backend.Base.{
  ℕ, ◌+◌, true, false, not, ◌&&◌, Option, none, some, List, [], ◌∷◌, ◌++◌, map, ◌==◌, find_first,
  update_where, keep, total, if◌then◌else◌,
}
use prime_pizza_backend.Base.Exec.{pure, gets, or_raise, lift, modify, ◌>>=◌, ◌>>◌}
use prime_pizza_backend.Text.{Text}
use prime_pizza_backend.Errors.{not_found_exception, text}
use prime_pizza_backend.Enums.{active}
use prime_pizza_backend.Catalog.{alive}
use prime_pizza_backend.Commerce.{CommerceConfig}
use prime_pizza_backend.Coupon.{get_active_by_code, validate_for_user}
use prime_pizza_backend.Models.{CartItem, Cart}
use prime_pizza_backend.Store.{World, Service, commit}
use prime_pizza_backend.Cart.Lines.{
  Settings, keys, normalize_extras, load_priced_entities, validate_quantity,
}
use prime_pizza_backend.Cart.Recalculate.{recalculate, recalculate_with}
use prime_pizza_backend.Cart.Session.{seen, written_back, loaded_coupon}
use prime_pizza_backend.Cart.Edit.{
  AddCartItemRequest, UpdateCartItemRequest, add_line, change_line, drop_line, emptied,
}

-- `CartRepository.get_active_for_user`, and `get_active_for_update`, which also locks the row.
unfoldable pub get_active : List Cart → ℕ → Option Cart
get_active carts user_id =
    find_first (λ c. c.user_id == user_id && c.is_active && alive c.deleted) carts

-- The session writes the attributes of a loaded row back.
unfoldable pub replace_cart : Cart → List Cart → List Cart
replace_cart cart carts = update_where (λ c. c.id == cart.id) (λ _. cart) carts

abbrev pub save_cart : Cart → World → World
save_cart cart w = record w { db = record w.db { carts = replace_cart cart w.db.carts } }

unfoldable pub require_cart : ℕ → Service Cart
unfolding get_active
require_cart user_id w =
    or_raise (get_active w.db.carts user_id) (not_found_exception (text "Cart not found")) w

-- `Cart(…)` with the columns' defaults
abbrev pub empty_cart : ℕ → ℕ → ℕ → Cart
empty_cart cart_id user_id now = record {
  id = cart_id;
  user_id = user_id;
  is_active = true;
  status = active;
  notes = none;
  last_activity = now;
  coupon_id = none;
  subtotal = 0;
  discount = 0;
  delivery_fee = 0;
  tax = 0;
  grand_total = 0;
  items = [];
  deleted = false;
}

-- Keys are random UUIDs in the source; here they are numbered.
abbrev pub new_id : Service ℕ
new_id = do
  i ← gets (λ w. w.db.next_id)
  modify (λ w. record w { db = record w.db { next_id = i + 1 } })
  pure i

abbrev pub create_if_none : Option Cart → ℕ → Service Cart
create_if_none (some cart) user_id = pure cart
create_if_none none user_id = do
  cart_id ← new_id
  modify (λ w. record w {
    db = record w.db { carts = w.db.carts ++ empty_cart cart_id user_id w.now ∷ [] };
  })
  commit
  require_cart user_id

unfoldable pub get_or_create_cart : ℕ → Service Cart
unfolding require_cart
get_or_create_cart user_id = do
  found ← gets (λ w. get_active w.db.carts user_id)
  create_if_none found user_id

-- `CartCacheService.invalidate_user`: of its keys only the summary is ever read. While Redis is down
-- the error is logged and the entry stays.
unfoldable pub invalidate_user : ℕ → World → World
invalidate_user user_id w =
    if w.redis.is_up
    then record w {
      redis = record w.redis { summaries = keep (λ (u, _). not (u == user_id)) w.redis.summaries };
    }
    else w

-- `_to_response`: the row with the lines and extras that are not deleted, and the number of units.
pub record CartResponse : Type 0 where
  pub cart : Cart
  pub item_count : ℕ

abbrev pub visible_items : Cart → List CartItem
visible_items cart =
    map {A = CartItem} (λ i. record i { extras = keep (λ e. alive e.deleted) i.extras })
      (keep (λ i. alive i.deleted) cart.items)

unfoldable pub to_response : Cart → CartResponse
to_response cart = record {
  cart = record cart { items = visible_items cart };
  item_count = total (λ i. i.quantity) (visible_items cart);
}

unfoldable pub get_cart : ℕ → Service CartResponse
unfolding get_or_create_cart
get_cart user_id = do cart ← get_or_create_cart user_id; pure (to_response cart)

module _ (settings : Settings) (commerce : CommerceConfig) where
  unfoldable pub priced_cart : Cart → Service Cart
  priced_cart cart w = (recalculate commerce w.db.catalog w.db.coupon_tables w.now cart, w)

  -- `recalculate` of the session's cart, which was loaded as `loaded`.
  unfoldable pub priced_view : Cart → Cart → Service Cart
  priced_view loaded cart w = (
    recalculate_with commerce w.db.catalog w.db.coupon_tables w.now
        (loaded_coupon w.db.coupon_tables loaded.coupon_id cart.coupon_id) (seen loaded cart),
    w,
  )

  -- The tail that the methods share, from the row `cart` on that was loaded as `loaded`:
  -- recalculate what the session sees, commit, and answer from the row that is asked for again,
  -- which is the session's object.
  unfoldable pub settle : Cart → Cart → Service CartResponse
  unfolding priced_view invalidate_user
  settle loaded cart = do
    priced ← priced_view loaded cart
    modify (save_cart (written_back cart priced))
    commit
    modify (invalidate_user cart.user_id)
    _ ← require_cart cart.user_id
    pure (to_response priced)

  -- The flush of an edited cart, and the query for it.
  unfoldable pub reload : ℕ → Cart → Service Cart
  unfolding require_cart
  reload user_id cart = do modify (save_cart cart); require_cart user_id

  unfoldable pub add_item : ℕ → AddCartItemRequest → Service CartResponse
  unfolding settle reload get_or_create_cart
  add_item user_id payload = do
    _ ← lift (validate_quantity settings payload.quantity)
    cart ← get_or_create_cart user_id
    quantities ← pure (normalize_extras payload.extras payload.extra_option_ids)
    rows ← (λ w. (
      load_priced_entities w.db.catalog payload.product_id true payload.variant_id (keys quantities)
          quantities,
      w,
    ))
    item_id ← new_id
    edited ← lift (add_line settings item_id payload rows cart)
    edited ← reload user_id edited
    settle cart edited

  unfoldable pub update_item : ℕ → ℕ → UpdateCartItemRequest → Service CartResponse
  unfolding settle reload get_or_create_cart
  update_item user_id item_id payload = do
    cart ← get_or_create_cart user_id
    edited ← (λ w. (change_line settings w.db.catalog item_id payload cart, w))
    edited ← reload user_id edited
    settle cart edited

  unfoldable pub remove_item : ℕ → ℕ → Service CartResponse
  unfolding settle reload get_or_create_cart
  remove_item user_id item_id = do
    cart ← get_or_create_cart user_id
    edited ← lift (drop_line settings item_id cart)
    edited ← reload user_id edited
    settle cart edited

  unfoldable pub clear : ℕ → Service CartResponse
  unfolding settle reload get_or_create_cart
  clear user_id = do
    cart ← get_or_create_cart user_id
    edited ← reload user_id (emptied cart)
    settle cart edited

  unfoldable pub apply_coupon : ℕ → Text → Service CartResponse
  unfolding settle priced_cart get_or_create_cart
  apply_coupon user_id code = do
    cart ← get_or_create_cart user_id
    priced ← priced_cart cart
    validation ← (λ w. (validate_for_user w.db.coupon_tables w.now code user_id priced.subtotal, w))
    coupon ← (λ w. (get_active_by_code w.db.coupon_tables validation.code, w))
    settle cart (record priced { coupon_id = some coupon.id })

  unfoldable pub remove_coupon : ℕ → Service CartResponse
  unfolding settle get_or_create_cart
  remove_coupon user_id = do
    cart ← get_or_create_cart user_id
    settle cart (record cart { coupon_id = none })
