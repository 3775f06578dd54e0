-- ===== src/Addresses/Default/Removal.antt =====
-- Deleting an address: if it was the default, another one takes its place.
use prime_pizza_backend.Base.{
  All, All-keep, ap, ℕ, ◌+◌, ◌≤◌, ◌≡◌, refl, sym, inl, inr, Bool, true, false, some, List, [], ◌∷◌,
  arith, ◌==◌, find_first, set_first, find_first-holds, count-set_first, count-set_first_other,
  count-set_first_lost, if◌then◌else◌, Bool-cases,
}
use prime_pizza_backend.Base.Exec.{ok, chain-ok, ok-injective}
use prime_pizza_backend.Models.{User, Address}
use prime_pizza_backend.Addresses.{
  insert_address, sort_addresses, comes_before, belongs, list_for_user, is_address, is_default_of,
  get_owned, promote_first, delete_in,
}
use prime_pizza_backend.Addresses.Default.{default_count, OneDefault, get_owned-found}

All-insert :
    (P : Address → Type 0) (a : Address) (l : List Address)
    → P a
    → All P l
    → All P (insert_address a l)
unfolding insert_address
All-insert P a [] h hs = (h, tt)
All-insert P a (b ∷ l) h (k, ks) = elim (Bool-cases (comes_before a b)) [
  | inl first ↦ rw first (h, (k, ks))
  | inr later ↦ rw later (k, All-insert P a l h ks)
]

All-sort : (P : Address → Type 0) (l : List Address) → All P l → All P (sort_addresses l)
unfolding sort_addresses
All-sort P [] hs = tt
All-sort P (a ∷ l) (h, hs) = All-insert P a (sort_addresses l) h (All-sort P l hs)

listed-belongs :
    (rows : List Address) (user_id : ℕ)
    → All (λ a. belongs user_id a ≡ true) (list_for_user rows user_id)
unfolding list_for_user
listed-belongs rows user_id =
    All-sort (λ a. belongs user_id a ≡ true) _ (All-keep (belongs user_id) rows)

promote_le :
    (l rows : List Address) (user_id other : ℕ)
    → All (λ a. belongs user_id a ≡ true) l
    → default_count other (promote_first l rows)
      ≤ default_count other rows + (if user_id == other then 1 else 0)
promote_le [] rows user_id other h = ground arith
promote_le (a ∷ l) rows user_id other (h, hs) =
    let p = is_address a.id a.user_id in
    let new = record a { is_default = true } in
    elim (Bool-cases (user_id == other)) [
      | inl same ↦ ground (arith, count-set_first (is_default_of other) p new rows)
      | inr ne ↦
          ground (arith, count-set_first_other (is_default_of other) p new rows (ground arith))
    ]

-- A row is deleted, and if it was the default another is promoted.
remove-OneDefault :
    (user_id address_id : ℕ) (flag : Bool) (old : Address) (rows : List Address)
    → find_first (is_address address_id user_id) rows ≡ some old
    → old.is_default ≡ flag
    → OneDefault rows
    → let rest = set_first (is_address address_id user_id) (record old { deleted = true }) rows in
      OneDefault (if flag then promote_first (list_for_user rest user_id) rest else rest)
remove-OneDefault user_id address_id false old rows found is one other = omega (
  arith,
  count-set_first_other (is_default_of other) (is_address address_id user_id)
      (record old { deleted = true }) rows (ground arith),
  one other,
)
remove-OneDefault user_id address_id true old rows found is one other =
    let p = is_address address_id user_id in
    let gone : Address = record old { deleted = true } in
    let rest = set_first p gone rows in
    let held = find_first-holds p rows old found in
    let more =
      promote_le (list_for_user rest user_id) rest user_id other (listed-belongs rest user_id) in
    elim (Bool-cases (user_id == other)) [
      | inr ne ↦
          let fewer = count-set_first_other (is_default_of other) p gone rows (ground arith) in
          ground (arith, more, fewer, one other)
      | inl same ↦
          let fewer =
            count-set_first_lost (is_default_of other) p old gone rows found (ground arith)
              (ground arith) in
          ground (arith, more, fewer, one other)
    ]

pub delete_in-OneDefault :
    (user : User) (address_id : ℕ) (rows rows' : List Address) (a : Address)
    → delete_in user address_id rows ≡ ok (a, rows')
    → OneDefault rows
    → OneDefault rows'
unfolding delete_in
delete_in-OneDefault user address_id rows rows' a h one other =
    let p = is_address address_id user.id in
    let gone : Address → Address = λ address. record address { deleted = true } in
    let rest : Address → List Address = λ address. set_first p (gone address) rows in
    let result : Address → Address × List Address = λ address. (
      gone address,
      if address.is_default
          then promote_first (list_for_user (rest address) user.id) (rest address)
          else rest address,
    ) in
    let (old, owned, made) =
      chain-ok (get_owned user rows address_id) (λ address. ok (result address)) (a, rows') h in
    let found = get_owned-found user rows address_id old owned in
    let e : (result old).1 ≡ rows' = ap (λ r. r.1) (ok-injective (result old) (a, rows') made) in
    rw (sym e) (remove-OneDefault user.id address_id old.is_default old rows found refl one other)
