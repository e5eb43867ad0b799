-- ===== src/Users/Lookups.antt =====
-- What the lookups of a user do with the columns that their statements select.
use super_wallet.Base.{◌≡◌, ap, String, str_eq, Bool, ◌==◌, Option, some, ◌&&◌}
use super_wallet.Base.Table.{find_row}
use super_wallet.Errors.{type_error}
use super_wallet.Db.{Db, Uuid, UserRow, Result, err, continue, settle}
use super_wallet.Security.{Platform}
use super_wallet.Users.UserRepository
use super_wallet.Users.UserRepository.{
  UserRecord, selected_columns, user_fields, from_row, to_record, to_record_or_none, get_by_email,
}
use super_wallet.Users.SessionRepository
use super_wallet.Users.AuthService.{Client, LoginResult, login, login_body, login_found}

abbrev pub is_active_id : Uuid → UserRow → Bool
is_active_id user_id u = u.id == user_id && u.is_active

abbrev pub has_email : String → UserRow → Bool
has_email email u = str_eq u.email email && u.is_active

-- The columns that the statements select are not the fields of `UserRecord`: the lookups of an
-- active user, by id and by email, raise a `TypeError`.
pub get_by_id_lem :
    (user_id : Uuid) (db : Db) (row : UserRow)
    → find_row (is_active_id user_id) db.users ≡ some row
    → UserRepository.get_by_id user_id db ≡ (err type_error, db)
unfolding UserRepository.get_by_id to_record
get_by_id_lem user_id db row h = ap (λ r. to_record_or_none r db) h

pub get_by_email_lem :
    (email : String) (db : Db) (row : UserRow)
    → find_row (has_email email) db.users ≡ some row
    → get_by_email email db ≡ (err type_error, db)
unfolding get_by_email to_record
get_by_email_lem email db row h = ap (λ r. to_record_or_none r db) h

abbrev logged_in :
    Platform
    → Client
    → String
    → String
    → Option String
    → Db
    → Result (Option UserRecord) × Db
    → Result LoginResult × Db
logged_in p client email password totp_code db found =
    let (r, db') =
      continue found.0 (λ user. login_found p client user email password totp_code) found.1 in
    settle db r db'

-- As the lookup selects its columns, no active user logs in: with any password and any code the
-- login raises a `TypeError`, and no table changes.
pub login-selected_columns :
    (p : Platform) (client : Client) (email password : String) (totp_code : Option String) (db : Db)
    (row : UserRow)
    → find_row (has_email email) db.users ≡ some row
    → login p client email password totp_code db ≡ (err type_error, db)
unfolding login login_body
login-selected_columns p client email password totp_code db row h =
    ap (logged_in p client email password totp_code db) (get_by_email_lem email db row h)
