-- ===== src/Checkout/Issues.antt =====
-- `CheckoutValidationService.validate`.
use prime_pizza_backend.Base.{
  ℕ, Bool, true, false, not, ◌||◌, Option, none, some, List, [], ◌∷◌, ◌++◌, String, ltb, ◌==◌,
  find_first, any, length, if◌then◌else◌,
}
use prime_pizza_backend.Base.Exec.{Result, ok, err, pure, gets, or_raise, ◌>>=◌}
use prime_pizza_backend.Errors.{
  AppException, validation_exception, assertion_error, Message, message_of, text, with_number,
}
use prime_pizza_backend.Catalog.{
  Product, ProductVariant, VariantOption, Catalog, get_product, variants_for_product, get_option,
  is_allowed_option,
}
use prime_pizza_backend.Coupon.{Coupon, CouponTables, CouponValidationResponse, validate_for_user}
use prime_pizza_backend.Commerce.{CommerceConfig}
use prime_pizza_backend.Models.{User, Address, CartItemExtra, CartItem, Cart, OrderSummaryResponse}
use prime_pizza_backend.Store.{World, Service, rolled_back}
use prime_pizza_backend.Addresses.{list_for_user}
use prime_pizza_backend.Cart.Lines.{Settings, live_extras, is_out_of_stock}
use prime_pizza_backend.Cart.Recalculate.{recalculate, live_items, coupon_of}
use prime_pizza_backend.Cart.Service.{get_active, save_cart, get_or_create_cart}
use prime_pizza_backend.Cart.Summary.{build}

-- What `field` names: a part of the checkout, or a row by its id.
pub data IssueField : Type 0 where
  on_user on_cart on_coupon on_address : IssueField
  on_row : ℕ → IssueField

pub record CheckoutValidationIssue : Type 0 where
  pub code : String
  pub message : Message
  pub field : IssueField

abbrev pub Issues : Type 0
Issues = List CheckoutValidationIssue

abbrev pub issue_if : Bool → String → Message → IssueField → Issues
issue_if false code message field = []
issue_if true code message field = record { code = code; message = message; field = field } ∷ []

unfoldable pub user_issues : User → Issues
user_issues user =
    issue_if (not user.is_verified) "user_unverified" (text "Phone number must be verified") on_user
    ++ issue_if (not user.is_active) "user_inactive" (text "Account is inactive") on_user

unfoldable pub product_issues : CartItem → Option Product → Issues
product_issues item none =
    issue_if true "product_unavailable" (text "A product in your cart is unavailable")
      (on_row item.product_id)
product_issues item (some product) =
    if not product.is_available || not product.is_visible
    then issue_if true "product_unavailable" (text "A product in your cart is unavailable")
        (on_row item.product_id)
    else issue_if (is_out_of_stock product.stock_status) "product_out_of_stock"
        (text "A product in your cart is out of stock") (on_row item.product_id)

abbrev is_offered : Option ProductVariant → Bool
is_offered none = false
is_offered (some v) = v.is_available

unfoldable pub variant_issues : Catalog → CartItem → Option ℕ → Issues
variant_issues c item none = []
variant_issues c item (some variant_id) =
    issue_if
      (not (
        is_offered (find_first (λ v. v.id == variant_id) (variants_for_product c item.product_id))))
      "variant_unavailable" (text "A selected size/variant is unavailable") (on_row variant_id)

abbrev has_option : Option VariantOption → Bool
has_option none = false
has_option (some o) = o.is_available

unfoldable pub extra_issues : Catalog → ℕ → List CartItemExtra → Issues
extra_issues c product_id [] = []
extra_issues c product_id (e ∷ extras) =
    issue_if
      (not (has_option (get_option c e.option_id))
        || not (is_allowed_option c product_id e.option_id))
      "extra_unavailable" (text "A selected extra/topping is unavailable") (on_row e.option_id)
    ++ extra_issues c product_id extras

-- One pass of the loop over the items.
unfoldable pub item_issues : Settings → Catalog → CartItem → Issues
unfolding product_issues variant_issues extra_issues
item_issues settings c item =
    issue_if (ltb item.quantity settings.cart_min_item_quantity) "quantity_too_low"
      (with_number "Minimum quantity is " settings.cart_min_item_quantity "") (on_row item.id)
    ++ issue_if (ltb settings.cart_max_item_quantity item.quantity) "quantity_too_high"
        (with_number "Maximum quantity is " settings.cart_max_item_quantity "") (on_row item.id)
    ++ product_issues item (get_product c item.product_id)
    ++ variant_issues c item item.variant_id
    ++ extra_issues c item.product_id (live_extras item)

unfoldable pub items_issues : Settings → Catalog → List CartItem → Issues
unfolding item_issues
items_issues settings c [] = []
items_issues settings c (item ∷ items) =
    item_issues settings c item ++ items_issues settings c items

abbrev pub is_nil : List CartItem → Bool
is_nil [] = true
is_nil (_ ∷ _) = false

abbrev pub verdict : Result AppException CouponValidationResponse → Issues
verdict (ok _) = []
verdict (err e) = issue_if true "coupon_invalid" (message_of e) on_coupon

unfoldable pub coupon_issues : CouponTables → ℕ → ℕ → Cart → Option Coupon → Issues
coupon_issues db now user_id cart none = []
coupon_issues db now user_id cart (some coupon) =
    verdict (validate_for_user db now coupon.code user_id cart.subtotal)

abbrev pub has_default : List Address → Bool
has_default addresses = any (λ a. a.is_default) addresses

unfoldable pub address_issues : List Address → Issues
address_issues [] =
    issue_if true "address_missing" (text "Add a delivery address before checkout") on_address
address_issues (a ∷ addresses) =
    issue_if (not (has_default (a ∷ addresses))) "default_address_missing"
      (text "Set a default delivery address before checkout") on_address

pub record CheckoutValidationResponse : Type 0 where
  pub is_valid : Bool
  pub issues : Issues
  pub summary : Option OrderSummaryResponse
  pub has_default_address : Bool
  pub address_count : ℕ

abbrev none_of : Issues → Bool
none_of [] = true
none_of (_ ∷ _) = false

-- All issues, the cart repriced; `pricing` are those of the repricing.
unfoldable pub all_issues : Settings → World → User → Issues → Cart → Issues
unfolding user_issues items_issues coupon_issues address_issues coupon_of list_for_user
all_issues settings w user pricing cart =
    let items = live_items cart.items in
    user_issues user
    ++ pricing
    ++ issue_if (is_nil items) "cart_empty" (text "Cart is empty") on_cart
    ++ items_issues settings w.db.catalog items
    ++ coupon_issues w.db.coupon_tables w.now user.id cart
        (coupon_of w.db.coupon_tables cart.coupon_id)
    ++ address_issues (list_for_user w.db.addresses user.id)

-- The answer, with the summary if there is no issue. The summary is also cached, under a key that
-- nothing reads.
unfoldable pub answer : Settings → World → User → Cart → Issues → CheckoutValidationResponse
unfolding build
answer settings w user cart issues =
    let addresses = list_for_user w.db.addresses user.id in
    record {
      is_valid = none_of issues;
      issues = issues;
      summary =
          if none_of issues
          then some (build settings w.db.catalog (coupon_of w.db.coupon_tables cart.coupon_id) cart)
          else none;
      has_default_address = has_default addresses;
      address_count = length addresses;
    }

abbrev commit_if : Bool → World → World
commit_if false w = w
commit_if true w = record w { committed = w.db }

-- The `try` around `recalculate`. Only a `ValidationException` is caught, and only where the
-- service owns the transaction.
unfoldable pub reprice_step : Bool → User → Result AppException Cart → Service Issues
reprice_step owns_commit user (ok priced) w = (ok [], commit_if owns_commit (save_cart priced w))
reprice_step true user (err (validation_exception m)) w =
    (get_or_create_cart user.id >>= λ _. pure (issue_if true "pricing_error" m on_cart))
      (rolled_back w)
reprice_step false user (err (validation_exception m)) w = (err (validation_exception m), w)
reprice_step owns_commit user (err e) w = (err e, w)

unfoldable pub validate :
    Settings → CommerceConfig → User → Bool → Service CheckoutValidationResponse
unfolding reprice_step all_issues answer get_active
validate settings commerce user owns_commit = do
  cart ← get_or_create_cart user.id
  pricing ← (λ w.
      reprice_step owns_commit user
        (recalculate commerce w.db.catalog w.db.coupon_tables w.now cart) w)
  cart ← (λ w. or_raise (get_active w.db.carts user.id) assertion_error w)
  gets (λ w. answer settings w user cart (all_issues settings w user pricing cart))
