-- ===== src/Addresses/Default/Calls.antt =====
-- Any sequence of the methods that change addresses.
use prime_pizza_backend.Base.{ℕ, ◌≡◌, refl, List, [], ◌∷◌}
use prime_pizza_backend.Base.Exec.{ok, err}
use prime_pizza_backend.Models.{User, Address}
use prime_pizza_backend.Store.{World}
use prime_pizza_backend.Addresses.{
  AddressCreateRequest, AddressUpdateRequest, Edited, store_addresses, create_address,
  update_address, delete_address, set_default,
}
use prime_pizza_backend.Addresses.Default.{
  OneDefault, create_in-OneDefault, update_in-OneDefault, set_default_in-OneDefault,
}
use prime_pizza_backend.Addresses.Default.Removal.{delete_in-OneDefault}

-- The methods that change addresses.
pub data AddressCall : Type 0 where
  create_call : AddressCreateRequest → AddressCall
  update_call : ℕ → AddressUpdateRequest → AddressCall
  delete_call : ℕ → AddressCall
  default_call : ℕ → AddressCall

unfoldable pub address_call : ℕ → User → AddressCall → World → World
address_call maximum user (create_call payload) w = (create_address maximum user payload w).1
address_call maximum user (update_call address_id payload) w =
    (update_address user address_id payload w).1
address_call maximum user (delete_call address_id) w = (delete_address user address_id w).1
address_call maximum user (default_call address_id) w = (set_default user address_id w).1

store-OneDefault :
    (r : Edited) (w : World)
    → ((a : Address) (rows : List Address) → r ≡ ok (a, rows) → OneDefault rows)
    → OneDefault w.db.addresses
    → OneDefault (store_addresses r w).1.db.addresses
store-OneDefault (ok (a, rows)) w h one = h a rows refl
store-OneDefault (err e) w h one = one

address_call-OneDefault :
    (maximum : ℕ) (user : User) (c : AddressCall) (w : World)
    → OneDefault w.db.addresses
    → OneDefault (address_call maximum user c w).db.addresses
unfolding address_call create_address update_address delete_address set_default
address_call-OneDefault maximum user (create_call payload) w one =
    store-OneDefault _ w
      (λ a l e. create_in-OneDefault maximum w.db.next_id w.now user payload _ l a e one) one
address_call-OneDefault maximum user (update_call address_id payload) w one =
    store-OneDefault _ w (λ a l e. update_in-OneDefault user address_id payload _ l a e one) one
address_call-OneDefault maximum user (delete_call address_id) w one =
    store-OneDefault _ w (λ a l e. delete_in-OneDefault user address_id _ l a e one) one
address_call-OneDefault maximum user (default_call address_id) w one =
    store-OneDefault _ w (λ a l e. set_default_in-OneDefault user address_id _ l a e one) one

unfoldable pub address_calls : ℕ → List (User × AddressCall) → World → World
unfolding address_call
address_calls maximum [] w = w
address_calls maximum ((user, c) ∷ cs) w = address_calls maximum cs (address_call maximum user c w)

-- From a state in which no user has two default addresses: whatever calls the users make on their
-- addresses, in any order, nobody ever has two.
pub address_calls-OneDefault :
    (maximum : ℕ) (cs : List (User × AddressCall)) (w : World)
    → OneDefault w.db.addresses
    → OneDefault (address_calls maximum cs w).db.addresses
unfolding address_calls
address_calls-OneDefault maximum [] w one = one
address_calls-OneDefault maximum ((user, c) ∷ cs) w one =
    address_calls-OneDefault maximum cs _ (address_call-OneDefault maximum user c w one)
