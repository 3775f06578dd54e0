-- ===== src/Cart/Calls.antt =====
-- The six methods that change a cart as one function, and how each of them ends.
use prime_pizza_backend.Base.{ℕ}
use prime_pizza_backend.Text.{Text}
use prime_pizza_backend.Commerce.{CommerceConfig}
use prime_pizza_backend.Models.{Cart}
use prime_pizza_backend.Store.{Service}
use prime_pizza_backend.Cart.Lines.{Settings}
use prime_pizza_backend.Cart.Edit.{AddCartItemRequest, UpdateCartItemRequest}
use prime_pizza_backend.Cart.Service.{
  CartResponse, add_item, update_item, remove_item, clear, apply_coupon, remove_coupon,
}

pub data CartCall : Type 0 where
  add_call : AddCartItemRequest → CartCall
  update_call : ℕ → UpdateCartItemRequest → CartCall
  remove_call : ℕ → CartCall
  clear_call : CartCall
  apply_call : Text → CartCall
  uncoupon_call : CartCall

unfoldable pub cart_call : Settings → CommerceConfig → ℕ → CartCall → Service CartResponse
cart_call settings commerce user (add_call payload) = add_item settings commerce user payload
cart_call settings commerce user (update_call item payload) =
    update_item settings commerce user item payload
cart_call settings commerce user (remove_call item) = remove_item settings commerce user item
cart_call settings commerce user clear_call = clear settings commerce user
cart_call settings commerce user (apply_call code) = apply_coupon settings commerce user code
cart_call settings commerce user uncoupon_call = remove_coupon settings commerce user
