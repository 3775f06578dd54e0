-- ===== src/Addresses/Default.antt =====
-- A user's default address through the methods that set one.
pub mod Removal
pub mod Calls
use prime_pizza_backend.Base.{
  All, All-keep, ap, eqb→eq, ℕ, ◌+◌, ◌≤◌, ◌≡◌, ◌⊎◌, refl, ◌∙◌, sym, inl, inr, Bool, true, false,
  not, ◌&&◌, ◌||◌, Option, none, some, List, [], ◌∷◌, ◌++◌, arith, leb, ◌==◌, find_first, set_first,
  update_where, count, count-append, find_first-holds, count-set_first, count-set_first_other,
  count-set_first_kept, count-set_first_lost, count-update_where_le, is_none, or_else,
  if◌then◌else◌, Bool-cases, Option-cases,
}
use prime_pizza_backend.Base.Exec.{
  unless, Result, ok, err, chain, chain-ok, unless-ok, ok-injective, Result-cases,
}
use prime_pizza_backend.Text.{Text, codes}
use prime_pizza_backend.Errors.{validation_exception, text, AppException}
use prime_pizza_backend.Catalog.{alive}
use prime_pizza_backend.Models.{User, AddressDetails, Address}
use prime_pizza_backend.Authorization.Ownership.{ensure_owner_or_self}
use prime_pizza_backend.Store.{World, Service}
use prime_pizza_backend.Addresses.{
  insert_address, sort_addresses, comes_before, belongs, list_for_user, is_address, get_for_user,
  count_for_user, is_default_of, clear_defaults, get_owned, AddressCreateRequest,
  AddressUpdateRequest, is_empty, patched, Edited, new_address, create_in, cleared_if, update_in,
  promote_first, delete_in, set_default_in, store_addresses, create_address, update_address,
  delete_address, set_default,
}

abbrev pub default_count : ℕ → List Address → ℕ
default_count user_id rows = count (is_default_of user_id) rows

-- Nobody has two default addresses.
abbrev pub OneDefault : List Address → Type 0
OneDefault rows = (user_id : ℕ) → default_count user_id rows ≤ 1

pub get_owned-found :
    (user : User) (rows : List Address) (address_id : ℕ) (address : Address)
    → get_owned user rows address_id ≡ ok address
    → find_first (is_address address_id user.id) rows ≡ some address
unfolding get_owned get_for_user
get_owned-found user rows address_id address h =
    elim (Option-cases (find_first (is_address address_id user.id) rows)) [
      | inl gone ↦ ground arith
      | inr (a, found) ↦
          let checked = ensure_owner_or_self user (some a.user_id) (codes "address") true in
          let after : Unit {0} → Result AppException Address = λ _. ok a in
          let (u, _, e) = chain-ok checked after address (ground arith) in
          rw (sym (ok-injective a address e)) found
    ]

clear_none :
    (user_id : ℕ) (rows : List Address) → default_count user_id (clear_defaults user_id rows) ≡ 0
unfolding clear_defaults
clear_none user_id [] = refl
clear_none user_id (a ∷ rows) = ground (arith, clear_none user_id rows)

clear_le :
    (user_id other : ℕ) (rows : List Address)
    → default_count other (clear_defaults user_id rows) ≤ default_count other rows
unfolding clear_defaults
clear_le user_id other rows =
    count-update_where_le (is_default_of other) (is_default_of user_id)
      (λ a. record a { is_default = false }) rows (λ a h. ground arith)

not_other :
    (user_id other : ℕ) (a : Address)
    → a.user_id ≡ user_id
    → (user_id == other) ≡ false
    → is_default_of other a ≡ false
not_other user_id other a own ne = ground arith

-- The user's defaults are cleared, and one row of the user is written or added.
clear_then_set :
    (user_id : ℕ) (p : Address → Bool) (a : Address) (rows : List Address)
    → a.user_id ≡ user_id
    → OneDefault rows
    → OneDefault (set_first p a (clear_defaults user_id rows))
clear_then_set user_id p a rows own one other = elim (Bool-cases (user_id == other)) [
  | inl same ↦
      let e : user_id ≡ other = eqb→eq user_id other same in
      rw (sym e) (
        omega (
          arith,
          count-set_first (is_default_of user_id) p a (clear_defaults user_id rows),
          clear_none user_id rows,
        ))
  | inr ne ↦ omega (
    arith,
    count-set_first_other (is_default_of other) p a (clear_defaults user_id rows)
        (not_other user_id other a own ne),
    clear_le user_id other rows,
    one other,
  )
]

pub create_in-OneDefault :
    (maximum address_id now : ℕ) (user : User) (payload : AddressCreateRequest)
    (rows rows' : List Address) (a : Address)
    → create_in maximum address_id now user payload rows ≡ ok (a, rows')
    → OneDefault rows
    → OneDefault rows'
unfolding create_in
create_in-OneDefault maximum address_id now user payload rows rows' a h one other =
    let is_default = payload.is_default || count_for_user rows user.id == 0 in
    let address = new_address address_id now user payload is_default in
    let before = if is_default then clear_defaults user.id rows else rows in
    let made = unless-ok _ _ (ok (address, before ++ address ∷ [])) (a, rows') h in
    let e : before ++ address ∷ [] ≡ rows' =
      ap (λ r. r.1) (ok-injective (address, before ++ address ∷ []) (a, rows') made) in
    rw (sym e) (
      ground (
        arith,
        count-append (is_default_of other) before (address ∷ []),
        clear_none user.id rows,
        clear_le user.id other rows,
        one other,
        eqb→eq user.id other,
      ))

patched_lem :
    (payload : AddressUpdateRequest) (a : Address)
    → let new = patched payload a in
      (new.user_id ≡ a.user_id)
      × (new.deleted ≡ a.deleted)
      × (new.is_default ≡ or_else payload.is_default a.is_default)
unfolding patched
patched_lem payload a = (refl, refl, refl)

flag-OneDefault :
    (user_id address_id : ℕ) (flag : Option Bool) (old new : Address) (rows : List Address)
    → find_first (is_address address_id user_id) rows ≡ some old
    → new.user_id ≡ old.user_id
    → new.deleted ≡ old.deleted
    → new.is_default ≡ or_else flag old.is_default
    → OneDefault rows
    → OneDefault (set_first (is_address address_id user_id) new (cleared_if flag user_id rows))
flag-OneDefault user_id address_id none old new rows found own here value one other = omega (
  arith,
  count-set_first_kept (is_default_of other) (is_address address_id user_id) old new rows found
      (λ q. ground arith),
  one other,
)
flag-OneDefault user_id address_id (some true) old new rows found own here value one other =
    let held = find_first-holds (is_address address_id user_id) rows old found in
    clear_then_set user_id (is_address address_id user_id) new rows (ground arith) one other
flag-OneDefault user_id address_id (some false) old new rows found own here value one other =
    omega (
      arith,
      count-set_first_other (is_default_of other) (is_address address_id user_id) new rows
          (ground arith),
      one other,
    )

pub update_in-OneDefault :
    (user : User) (address_id : ℕ) (payload : AddressUpdateRequest) (rows rows' : List Address)
    (a : Address)
    → update_in user address_id payload rows ≡ ok (a, rows')
    → OneDefault rows
    → OneDefault rows'
unfolding update_in
update_in-OneDefault user address_id payload rows rows' a h one =
    let p = is_address address_id user.id in
    let result : Address → Address × List Address = λ address. (
      patched payload address,
      set_first p (patched payload address) (cleared_if payload.is_default user.id rows),
    ) in
    let after : Address → Edited = λ address.
      unless (is_empty payload) (validation_exception (text "No address fields provided"))
        (ok (result address)) in
    let (old, owned, h1) = chain-ok (get_owned user rows address_id) after (a, rows') h in
    let found = get_owned-found user rows address_id old owned in
    let made = unless-ok _ _ (ok (result old)) (a, rows') h1 in
    let e : (result old).1 ≡ rows' = ap (λ r. r.1) (ok-injective (result old) (a, rows') made) in
    let (own, here, value) = patched_lem payload old in
    rw (sym e) (
      flag-OneDefault user.id address_id payload.is_default old (patched payload old) rows found own
        here value one)

pub set_default_in-OneDefault :
    (user : User) (address_id : ℕ) (rows rows' : List Address) (a : Address)
    → set_default_in user address_id rows ≡ ok (a, rows')
    → OneDefault rows
    → OneDefault rows'
unfolding set_default_in
set_default_in-OneDefault user address_id rows rows' a h one =
    let p = is_address address_id user.id in
    let result : Address → Address × List Address = λ address.
      let new = record address { is_default = true } in
      (new, set_first p new (clear_defaults user.id rows)) in
    let (old, owned, made) =
      chain-ok (get_owned user rows address_id) (λ address. ok (result address)) (a, rows') h in
    let found = find_first-holds p rows old (get_owned-found user rows address_id old owned) in
    let e : (result old).1 ≡ rows' = ap (λ r. r.1) (ok-injective (result old) (a, rows') made) in
    rw (sym e) (clear_then_set user.id p (record old { is_default = true }) rows (ground arith) one)
