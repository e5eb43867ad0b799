-- ===== src/Users/UserRepository.antt =====
-- class UserRepository of app/users/repository.py, over the table `users`.
use super_wallet.Base.{
  ℕ, String, str_eq, ◌==◌, Bool, true, false, not, ◌&&◌, Option, none, some, List, [], ◌∷◌, ◌++◌,
  if◌then◌else◌,
}
use super_wallet.Base.Table.{find_row, has_row, update_rows}
use super_wallet.Base.Text.{fits_varchar}
use super_wallet.Errors.{data_error, type_error, unique_violation}
use super_wallet.Db.{
  UserRow, Uuid, Timestamp, Action, pure, raise, gets, modify, raise_if, ◌>>=◌, ◌>>◌,
}

-- `class UserRecord`
pub record UserRecord : Type 0 where
  pub id : Uuid
  pub username : String
  pub email : String
  pub hashed_password : String
  pub failed_login_count : ℕ
  pub locked_until : Option Timestamp
  pub totp_enabled : Bool
  pub totp_secret_encrypted : Option String
  pub email_verified : Bool
  pub is_active : Bool

-- What Python passes where a handler says `user_id: UUID = Depends(get_current_user)`: the
-- dependency returns a `UserRecord`.
pub data UserArgument : Type 0 where
  of_id : Uuid → UserArgument
  of_record : UserRecord → UserArgument

-- `==` with a UUID, which an object of another class is never equal to.
abbrev pub is_id : Uuid → UserArgument → Bool
is_id user_id (of_id other) = user_id == other
is_id user_id (of_record _) = false

-- asyncpg encodes an argument for a parameter of type uuid, and refuses what is none.
abbrev pub encode_uuid : UserArgument → Action Uuid
encode_uuid (of_id user_id) = pure user_id
encode_uuid (of_record _) = raise data_error

-- The fields of the data class, none with a default.
abbrev pub user_fields : List String
user_fields =
    "id" ∷ "username" ∷ "email" ∷ "hashed_password" ∷ "failed_login_count" ∷ "locked_until"
    ∷ "totp_enabled" ∷ "totp_secret_encrypted" ∷ "email_verified" ∷ "is_active" ∷ []

-- The columns that the three `SELECT` statements name.
abbrev pub selected_columns : List String
selected_columns =
    "id" ∷ "username" ∷ "email" ∷ "hashed_password" ∷ "failed_login_count" ∷ "locked_until"
    ∷ "totp_enabled" ∷ "totp_secret_encrypted" ∷ "email_verified" ∷ []

abbrev pub names : List String → String → Bool
names [] field = false
names (x ∷ xs) field = if str_eq x field then true else names xs field

abbrev pub all_named : List String → List String → Bool
all_named columns [] = true
all_named columns (field ∷ fields) = names columns field && all_named columns fields

abbrev pub from_row : UserRow → UserRecord
from_row r = record {
  id = r.id;
  username = r.username;
  email = r.email;
  hashed_password = r.hashed_password;
  failed_login_count = r.failed_login_count;
  locked_until = r.locked_until;
  totp_enabled = r.totp_enabled;
  totp_secret_encrypted = r.totp_secret_encrypted;
  email_verified = r.email_verified;
  is_active = r.is_active;
}

-- `UserRecord(**dict(row))` of a row with the selected columns: a `TypeError` unless they are the
-- fields.
unfoldable pub to_record : UserRow → Action UserRecord
to_record row =
    if all_named selected_columns user_fields && all_named user_fields selected_columns
    then pure (from_row row)
    else raise type_error

abbrev pub to_record_or_none : Option UserRow → Action (Option UserRecord)
to_record_or_none none = pure none
to_record_or_none (some row) = to_record row >>= λ user. pure (some user)

unfoldable pub get_by_id : Uuid → Action (Option UserRecord)
get_by_id user_id = do
  row ← gets (λ db. find_row (λ u. u.id == user_id && u.is_active) db.users)
  to_record_or_none row

unfoldable pub get_by_email : String → Action (Option UserRecord)
get_by_email email = do
  row ← gets (λ db. find_row (λ u. str_eq u.email email && u.is_active) db.users)
  to_record_or_none row

unfoldable pub get_by_username : String → Action (Option UserRecord)
get_by_username username = do
  row ← gets (λ db. find_row (λ u. str_eq u.username username && u.is_active) db.users)
  to_record_or_none row

abbrev pub has_id : Uuid → UserRow → Bool
has_id user_id u = u.id == user_id

abbrev pub new_user : Timestamp → Uuid → String → String → String → UserRow
new_user now id username email hashed_password = record {
  id = id;
  username = username;
  email = email;
  hashed_password = hashed_password;
  failed_login_count = 0;
  locked_until = none;
  totp_enabled = false;
  totp_secret_encrypted = none;
  email_verified = false;
  is_active = true;
  deleted_at = none;
  created_at = now;
}

-- VARCHAR(50), VARCHAR(100) and VARCHAR(255).
abbrev pub texts_fit : String → String → String → Bool
texts_fit username email hashed_password =
    fits_varchar 50 username && fits_varchar 100 email && fits_varchar 255 hashed_password

unfoldable pub create : Timestamp → Uuid → String → String → String → Action Uuid
create now id username email hashed_password = do
  raise_if (not (texts_fit username email hashed_password)) data_error
  λ db. raise_if (has_row (has_id id) db.users) (unique_violation "users_pkey") db
  λ db.
      raise_if (has_row (λ u. str_eq u.username username) db.users)
        (unique_violation "users_username_key") db
  λ db.
      raise_if (has_row (λ u. str_eq u.email email) db.users) (unique_violation "users_email_key")
        db
  modify
      (λ db. record db { users = db.users ++ new_user now id username email hashed_password ∷ [] })
  pure id

abbrev pub update_user : Uuid → (UserRow → UserRow) → Action Unit
update_user user_id f = modify (λ db. record db { users = update_rows (has_id user_id) f db.users })

abbrev pub or_old : Option String → String → String
or_old none old = old
or_old (some new) old = new

-- Another user has the value that this one is given.
abbrev pub taken : Uuid → (UserRow → String) → Option String → List UserRow → Bool
taken user_id field none users = false
taken user_id field (some value) users =
    has_row (has_id user_id) users
    && has_row (λ u. not (has_id user_id u) && str_eq (field u) value) users

abbrev pub with_profile : Option String → Option String → UserRow → UserRow
with_profile username email u = record u {
  username = or_old username u.username;
  email = or_old email u.email;
}

abbrev pub fits_given : ℕ → Option String → Bool
fits_given n none = true
fits_given n (some value) = fits_varchar n value

-- With no field given the statement is not run; the model's update then changes nothing.
unfoldable pub update_profile : Uuid → Option String → Option String → Action Unit
update_profile user_id username email = do
  raise_if (not (fits_given 50 username && fits_given 100 email)) data_error
  λ db.
      raise_if (taken user_id (λ u. u.username) username db.users)
        (unique_violation "users_username_key") db
  λ db.
      raise_if (taken user_id (λ u. u.email) email db.users) (unique_violation "users_email_key") db
  update_user user_id (with_profile username email)

unfoldable pub deactivate : Timestamp → Uuid → Action Unit
deactivate now user_id =
    update_user user_id (λ u. record u { is_active = false; deleted_at = some now })

unfoldable pub update_password_hash : Uuid → String → Action Unit
update_password_hash user_id new_hash = do
  raise_if (not (fits_varchar 255 new_hash)) data_error
  update_user user_id (λ u. record u { hashed_password = new_hash })

unfoldable pub increment_failed_login : Uuid → ℕ → Option Timestamp → Action Unit
increment_failed_login user_id new_count lockout_until =
    update_user user_id
      (λ u. record u { failed_login_count = new_count; locked_until = lockout_until })

unfoldable pub reset_failed_login_count : Uuid → Action Unit
reset_failed_login_count user_id =
    update_user user_id (λ u. record u { failed_login_count = 0; locked_until = none })

unfoldable pub set_totp_secret : Uuid → String → Bool → Action Unit
set_totp_secret user_id encrypted_secret enabled =
    update_user user_id
      (λ u. record u { totp_secret_encrypted = some encrypted_secret; totp_enabled = enabled })

unfoldable pub set_email_verified : Uuid → Action Unit
set_email_verified user_id = update_user user_id (λ u. record u { email_verified = true })
