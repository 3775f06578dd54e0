-- ===== src/Models/Users.antt =====
-- `User` and `Address` of app/models/user.py.
use prime_pizza_backend.Base.{ℕ, Bool, Option}
use prime_pizza_backend.Text.{Text}
use prime_pizza_backend.Enums.{UserRole}

pub record User : Type 0 where
  pub id : ℕ
  pub email : Text
  pub full_name : Text
  pub phone_number : Option Text
  pub role : UserRole
  pub is_active : Bool
  pub is_verified : Bool

-- The columns of an address that its owner writes. Coordinates are kept as they print.
pub record AddressDetails : Type 0 where
  pub title : Text
  pub recipient_name : Text
  pub phone_number : Text
  pub street : Text
  pub area : Option Text
  pub city : Text
  pub province : Text
  pub postal_code : Text
  pub country : Text
  pub latitude : Option Text
  pub longitude : Option Text
  pub delivery_notes : Option Text

pub record Address : Type 0 where
  pub id : ℕ
  pub user_id : ℕ
  pub details : AddressDetails
  pub is_default : Bool
  pub created_at : ℕ
  pub deleted : Bool
