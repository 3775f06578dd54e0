-- ===== src/Authorization/Roles.antt =====
-- app/authorization/roles.py.
use prime_pizza_backend.Base.{Bool, Option, none, some, ◌||◌, if◌then◌else◌}
use prime_pizza_backend.Text.{Text, codes, text_eq, strip, lower}
use prime_pizza_backend.Enums.{UserRole, customer, chef, same_role}

-- `str(role.value)`
abbrev pub role_value : UserRole → Text
role_value customer = codes "customer"
role_value chef = codes "chef"

-- `RoleService.normalize` at a text, as old rows and tokens carry it; `none` is the `ValueError`.
unfoldable pub normalize : Text → Option UserRole
unfolding text_eq
normalize role =
    if text_eq role (codes "owner")
    then some chef
    else if text_eq role (codes "customer")
    then some customer
    else if text_eq role (codes "chef")
    then some chef
    else none

unfoldable pub is_chef : UserRole → Bool
is_chef role = same_role role chef

unfoldable pub is_customer : UserRole → Bool
is_customer role = same_role role customer

-- `RoleService.is_staff_like`
unfoldable pub is_staff_like : UserRole → Bool
unfolding text_eq
is_staff_like role =
    text_eq (role_value role) (codes "chef") || text_eq (role_value role) (codes "owner")

-- `RoleAssignmentService`, with the settings' chef email
unfoldable pub is_chef_email : Text → Text → Bool
is_chef_email chef_email email = text_eq (lower (strip email)) (lower (strip chef_email))

unfoldable pub resolve_role : Text → Text → UserRole
unfolding is_chef_email
resolve_role chef_email email =
    if text_eq (lower (strip email)) (lower (strip chef_email)) then chef else customer
