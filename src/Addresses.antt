-- ===== src/Addresses.antt =====
-- `AddressService` of app/services/address.py, with the queries of app/repositories/address.py.
pub mod Default
use prime_pizza_backend.Base.{
  ℕ, ◌+◌, Bool, true, false, not, ◌&&◌, ◌||◌, Option, none, some, List, [], ◌∷◌, ◌++◌, leb, ◌==◌,
  find_first, set_first, update_where, keep, count, is_none, or_else, if◌then◌else◌,
}
use prime_pizza_backend.Base.Exec.{Result, ok, err, chain, some_or, unless, Exec}
use prime_pizza_backend.Text.{Text, codes}
use prime_pizza_backend.Errors.{
  AppException, not_found_exception, validation_exception, text, with_number,
}
use prime_pizza_backend.Catalog.{alive}
use prime_pizza_backend.Models.{User, AddressDetails, Address}
use prime_pizza_backend.Authorization.Ownership.{ensure_owner_or_self}
use prime_pizza_backend.Store.{World, Service}

-- `ORDER BY is_default DESC, created_at DESC`
abbrev pub comes_before : Address → Address → Bool
comes_before a b =
    if a.is_default
    then not b.is_default || leb b.created_at a.created_at
    else not b.is_default && leb b.created_at a.created_at

unfoldable pub insert_address : Address → List Address → List Address
insert_address a [] = a ∷ []
insert_address a (b ∷ l) =
    let rest = insert_address a l in if comes_before a b then a ∷ b ∷ l else b ∷ rest

unfoldable pub sort_addresses : List Address → List Address
unfolding insert_address
sort_addresses [] = []
sort_addresses (a ∷ l) = insert_address a (sort_addresses l)

abbrev pub belongs : ℕ → Address → Bool
belongs user_id a = a.user_id == user_id && alive a.deleted

-- `list_for_user`, `get_for_user` and `count_for_user`
unfoldable pub list_for_user : List Address → ℕ → List Address
unfolding sort_addresses
list_for_user rows user_id = sort_addresses (keep (belongs user_id) rows)

abbrev pub is_address : ℕ → ℕ → Address → Bool
is_address address_id user_id a = a.id == address_id && belongs user_id a

unfoldable pub get_for_user : List Address → ℕ → ℕ → Option Address
get_for_user rows address_id user_id = find_first (is_address address_id user_id) rows

unfoldable pub count_for_user : List Address → ℕ → ℕ
count_for_user rows user_id = count (belongs user_id) rows

abbrev pub is_default_of : ℕ → Address → Bool
is_default_of user_id a = belongs user_id a && a.is_default

unfoldable pub clear_defaults : ℕ → List Address → List Address
clear_defaults user_id rows =
    update_where (is_default_of user_id) (λ a. record a { is_default = false }) rows

-- `_get_owned`
unfoldable pub get_owned : User → List Address → ℕ → Result AppException Address
unfolding get_for_user
get_owned user rows address_id =
    chain
      (some_or (get_for_user rows address_id user.id)
        (not_found_exception (text "Address not found")))
      (λ address.
        chain (ensure_owner_or_self user (some address.user_id) (codes "address") true)
          (λ _. ok address))

pub record AddressCreateRequest : Type 0 where
  pub details : AddressDetails
  pub is_default : Bool

-- Each field is unset or set. Null for a column that is not nullable is left out: the database
-- refuses it.
pub record AddressUpdateRequest : Type 0 where
  pub title : Option Text
  pub recipient_name : Option Text
  pub phone_number : Option Text
  pub street : Option Text
  pub area : Option (Option Text)
  pub city : Option Text
  pub province : Option Text
  pub postal_code : Option Text
  pub country : Option Text
  pub latitude : Option (Option Text)
  pub longitude : Option (Option Text)
  pub delivery_notes : Option (Option Text)
  pub is_default : Option Bool

-- `not data`
abbrev pub is_empty : AddressUpdateRequest → Bool
is_empty p =
    is_none p.title
    && is_none p.recipient_name
    && is_none p.phone_number
    && is_none p.street
    && is_none p.area
    && is_none p.city
    && is_none p.province
    && is_none p.postal_code
    && is_none p.country
    && is_none p.latitude
    && is_none p.longitude
    && is_none p.delivery_notes
    && is_none p.is_default

-- The loop with `setattr`.
unfoldable pub patched : AddressUpdateRequest → Address → Address
patched p a =
    let d = a.details in
    record a {
      details = record {
        title = or_else p.title d.title;
        recipient_name = or_else p.recipient_name d.recipient_name;
        phone_number = or_else p.phone_number d.phone_number;
        street = or_else p.street d.street;
        area = or_else p.area d.area;
        city = or_else p.city d.city;
        province = or_else p.province d.province;
        postal_code = or_else p.postal_code d.postal_code;
        country = or_else p.country d.country;
        latitude = or_else p.latitude d.latitude;
        longitude = or_else p.longitude d.longitude;
        delivery_notes = or_else p.delivery_notes d.delivery_notes;
      };
      is_default = or_else p.is_default a.is_default;
    }

-- What a method answers, and the rows after it.
abbrev pub Edited : Type 0
Edited = Result AppException (Address × List Address)

abbrev pub new_address : ℕ → ℕ → User → AddressCreateRequest → Bool → Address
new_address address_id now user payload is_default = record {
  id = address_id;
  user_id = user.id;
  details = payload.details;
  is_default = is_default;
  created_at = now;
  deleted = false;
}

unfoldable pub create_in : ℕ → ℕ → ℕ → User → AddressCreateRequest → List Address → Edited
unfolding clear_defaults count_for_user
create_in maximum address_id now user payload rows =
    let n = count_for_user rows user.id in
    let is_default = payload.is_default || n == 0 in
    let address = new_address address_id now user payload is_default in
    unless (leb maximum n)
      (validation_exception (with_number "Maximum of " maximum " addresses allowed"))
      (ok (address, (if is_default then clear_defaults user.id rows else rows) ++ address ∷ []))

abbrev pub cleared_if : Option Bool → ℕ → List Address → List Address
cleared_if (some true) user_id rows = clear_defaults user_id rows
cleared_if (some false) user_id rows = rows
cleared_if none user_id rows = rows

unfoldable pub update_in : User → ℕ → AddressUpdateRequest → List Address → Edited
unfolding get_owned clear_defaults patched
update_in user address_id payload rows = chain (get_owned user rows address_id) (λ address.
    unless (is_empty payload) (validation_exception (text "No address fields provided")) (
      let new = patched payload address in
      ok (
        new,
        set_first (is_address address_id user.id) new (cleared_if payload.is_default user.id rows),
      )))

-- `remaining[0].is_default = True`
abbrev pub promote_first : List Address → List Address → List Address
promote_first [] rows = rows
promote_first (a ∷ _) rows =
    set_first (is_address a.id a.user_id) (record a { is_default = true }) rows

unfoldable pub delete_in : User → ℕ → List Address → Edited
unfolding get_owned list_for_user
delete_in user address_id rows = chain (get_owned user rows address_id) (λ address.
    let gone = record address { deleted = true } in
    let rest = set_first (is_address address_id user.id) gone rows in
    ok (gone, if address.is_default then promote_first (list_for_user rest user.id) rest else rest))

unfoldable pub set_default_in : User → ℕ → List Address → Edited
unfolding get_owned clear_defaults
set_default_in user address_id rows = chain (get_owned user rows address_id) (λ address.
    let new = record address { is_default = true } in
    ok (new, set_first (is_address address_id user.id) new (clear_defaults user.id rows)))

-- The rows are written and committed, or the exception passes.
abbrev pub store_addresses : Edited → Service Address
store_addresses (ok (a, rows)) w =
    let db = record w.db { addresses = rows; next_id = w.db.next_id + 1 } in
    (ok a, record w { db = db; committed = db })
store_addresses (err e) w = (err e, w)

unfoldable pub list_addresses : User → Service (List Address)
list_addresses user w = (ok (list_for_user w.db.addresses user.id), w)

unfoldable pub create_address : ℕ → User → AddressCreateRequest → Service Address
create_address maximum user payload w =
    store_addresses (create_in maximum w.db.next_id w.now user payload w.db.addresses) w

unfoldable pub update_address : User → ℕ → AddressUpdateRequest → Service Address
update_address user address_id payload w =
    store_addresses (update_in user address_id payload w.db.addresses) w

unfoldable pub delete_address : User → ℕ → Service Address
delete_address user address_id w = store_addresses (delete_in user address_id w.db.addresses) w

unfoldable pub set_default : User → ℕ → Service Address
set_default user address_id w = store_addresses (set_default_in user address_id w.db.addresses) w
