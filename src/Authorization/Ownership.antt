-- ===== src/Authorization/Ownership.antt =====
-- `OwnershipService` of app/authorization/ownership.py.
use prime_pizza_backend.Base.{
  ℕ, ◌≡◌, ◌⊎◌, ◌↔◌, Bool, false, Option, none, some, arith, ◌==◌, if◌then◌else◌,
}
use prime_pizza_backend.Base.Exec.{Result, ok, err}
use prime_pizza_backend.Text.{Text}
use prime_pizza_backend.Errors.{
  AppException, not_found_exception, forbidden_exception, with_text, status_code,
}
use prime_pizza_backend.Enums.{chef}
use prime_pizza_backend.Models.{User}
use prime_pizza_backend.Authorization.Roles.{is_chef}

-- `resource_owner_id is None or actor.id != resource_owner_id`, negated
abbrev pub owns : User → Option ℕ → Bool
owns actor none = false
owns actor (some owner) = actor.id == owner

unfoldable pub ensure_owner_or_self : User → Option ℕ → Text → Bool → Result AppException (Unit {0})
unfolding is_chef
ensure_owner_or_self actor resource_owner_id resource_name hide_existence =
    if is_chef actor.role
    then ok tt
    else if owns actor resource_owner_id
    then ok tt
    else if hide_existence
    then err (not_found_exception (with_text "" resource_name " not found"))
    else err (forbidden_exception (with_text "You do not have access to this " resource_name ""))

unfoldable pub is_self : User → ℕ → Bool
is_self actor resource_owner_id = actor.id == resource_owner_id

-- Access is given exactly to a chef and to the owner of the resource, whether existence is hidden or
-- not. Every other caller is refused, whoever owns the resource and also if nobody does: with 404
-- where existence is hidden, and with 403 where it is not.
pub ensure_owner_or_self_iff :
    (actor : User) (owner : Option ℕ) (name : Text) (hide_existence : Bool)
    → ((ensure_owner_or_self actor owner name hide_existence ≡ ok tt)
        ↔ ((actor.role ≡ chef) ⊎ (owner ≡ some actor.id)))
      × ((e : AppException)
          → ensure_owner_or_self actor owner name hide_existence ≡ err e
          → status_code e ≡ (if hide_existence then 404 else 403))
unfolding ensure_owner_or_self status_code
ensure_owner_or_self_iff actor owner name hide_existence =
    ((λ h. ground arith, λ h. ground arith), λ e h. ground arith)
