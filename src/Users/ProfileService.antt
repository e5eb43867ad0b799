-- ===== src/Users/ProfileService.antt =====
-- class ProfileService of app/users/services/profile.py.
use super_wallet.Base.{
  String, str_eq, not, Bool, true, false, Option, none, some, List, [], ◌∷◌, ◌++◌, if◌then◌else◌,
}
use super_wallet.Errors.{Error, app, AppError, unique_violation, assertion_error}
use super_wallet.Db.{
  Json, Value, uuid, texts, Uuid, Result, ok, err, Db, Action, pure, raise, raise_if, transaction,
  ◌>>=◌, ◌>>◌,
}
use super_wallet.Audit.{log_audit_event}
use super_wallet.Outbox.{enqueue}
use super_wallet.Security.{Platform}
use super_wallet.Security.Users.{hash_password, verify_password}
use super_wallet.Users.UserRepository
use super_wallet.Users.UserRepository.{UserRecord, update_password_hash}

pub record ProfileUpdateFields : Type 0 where
  pub username : Option String
  pub email : Option String

pub record RequestContext : Type 0 where
  pub ip_address : Option String
  pub user_agent : Option String

abbrev pub user_not_found : Error
user_not_found = app AppError.user_not_found

abbrev pub record_event : Platform → RequestContext → Uuid → String → Option Json → Action Unit
record_event p ctx user_id event_type metadata =
    log_audit_event p.server (some user_id) event_type ctx.ip_address ctx.user_agent metadata

abbrev pub publish : Platform → String → Json → Action Unit
publish p event_type payload = do
  _ ← enqueue p.server.now (p.server.gen_random_uuid 0) event_type payload
  pure tt

abbrev pub found : Option UserRecord → Action UserRecord
found none = raise user_not_found
found (some user) = pure user

unfoldable pub get_profile : Uuid → Action UserRecord
get_profile user_id = do user ← UserRepository.get_by_id user_id; found user

abbrev pub given : String → Option String → List String
given key none = []
given key (some _) = key ∷ []

-- `list(update_data.keys())`
abbrev pub changed_fields : ProfileUpdateFields → List String
changed_fields fields = given "username" fields.username ++ given "email" fields.email

abbrev pub asserted : (String → AppError) → Option String → Error
asserted e none = assertion_error
asserted e (some value) = app (e value)

-- `except asyncpg.UniqueViolationError`
abbrev pub as_duplicate : ProfileUpdateFields → Error → Error
as_duplicate fields (unique_violation constraint) =
    if str_eq constraint "users_email_key"
    then asserted AppError.email_already_exists fields.email
    else (if str_eq constraint "users_username_key"
        then asserted AppError.username_already_exists fields.username
        else unique_violation constraint)
as_duplicate fields e = e

abbrev pub relabel : ProfileUpdateFields → Result Unit × Db → Result Unit × Db
relabel fields (ok u, db) = (ok u, db)
relabel fields (err e, db) = (err (as_duplicate fields e), db)

unfoldable pub update_profile_body :
    Platform → RequestContext → Uuid → ProfileUpdateFields → Action Unit
update_profile_body p ctx user_id fields = do
  λ db. relabel fields (UserRepository.update_profile user_id fields.username fields.email db)
  record_event p ctx user_id "profile_updated"
      (some (("fields", texts (changed_fields fields)) ∷ []))
  publish p "user.profile_updated"
      (("user_id", uuid user_id) ∷ ("fields", texts (changed_fields fields)) ∷ [])

abbrev pub is_empty : List String → Bool
is_empty [] = true
is_empty (_ ∷ _) = false

unfoldable pub update_profile : Platform → RequestContext → Uuid → ProfileUpdateFields → Action Unit
update_profile p ctx user_id fields =
    if is_empty (changed_fields fields)
    then pure tt
    else transaction (update_profile_body p ctx user_id fields)

abbrev pub check_current : Platform → RequestContext → Uuid → Bool → Action Unit
check_current p ctx user_id true = pure tt
check_current p ctx user_id false =
    record_event p ctx user_id "password_change_failed"
      (some (("reason", Value.text "incorrect_current_password") ∷ []))
    >> raise (app AppError.incorrect_current_password)

-- The block under `async with conn.transaction():`.
unfoldable pub change_password_body : Platform → RequestContext → Uuid → String → Action Unit
change_password_body p ctx user_id new_password = do
  update_password_hash user_id (hash_password p new_password)
  record_event p ctx user_id "password_changed" none
  publish p "user.password_changed" (("user_id", uuid user_id) ∷ [])

unfoldable pub change_password : Platform → RequestContext → Uuid → String → String → Action Unit
change_password p ctx user_id current_password new_password = do
  row ← UserRepository.get_by_id user_id
  user ← found row
  is_current ← verify_password p current_password user.hashed_password
  check_current p ctx user_id is_current
  is_same ← verify_password p new_password user.hashed_password
  raise_if is_same (app AppError.same_password)
  transaction (change_password_body p ctx user_id new_password)

unfoldable pub deactivate_account : Platform → RequestContext → Uuid → Action Unit
deactivate_account p ctx user_id = do
  row ← UserRepository.get_by_id user_id
  user ← found row
  raise_if (not user.is_active) (app AppError.user_already_deactivated)
  transaction (do
    UserRepository.deactivate p.server.now user_id
    record_event p ctx user_id "account_deactivated" none
    publish p "user.account_deactivated" (("user_id", uuid user_id) ∷ []))
