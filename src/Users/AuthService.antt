-- ===== src/Users/AuthService.antt =====
-- app/users/services/auth.py: registration, login, refresh and logout.
use super_wallet.Base.{
  String, str_eq, ◌+◌, ltb, not, Bool, true, false, Option, none, some, [], ◌∷◌, if◌then◌else◌,
}
use super_wallet.Base.Int.{pos}
use super_wallet.Errors.{Error, app, AppError}
use super_wallet.Db.{
  Json, text, num, Uuid, Timestamp, Action, pure, raise, raise_if, transaction, ◌>>=◌, ◌>>◌,
}
use super_wallet.Audit.{log_audit_event}
use super_wallet.Outbox.{enqueue}
use super_wallet.Security.{Platform}
use super_wallet.Security.Users.{
  hash_password, verify_password, needs_rehash, create_access_token,
  create_email_verification_token, generate_refresh_token, refresh_token_expiry, hash_opaque_token,
  decrypt_totp_secret, verify_totp_code, compute_lockout,
}
use super_wallet.Users.UserRepository
use super_wallet.Users.UserRepository.{
  UserRecord, update_password_hash, increment_failed_login, reset_failed_login_count, get_by_email,
  get_by_username,
}
use super_wallet.Users.SessionRepository
use super_wallet.Users.SessionRepository.{
  SessionRecord, is_null, get_by_token_hash, get_by_used_token_hash, revoke, revoke_all_for_user,
  rotate,
}

-- What a request tells of the client.
pub record Client : Type 0 where
  pub ip_address : String
  pub user_agent : Option String

pub record RegisterResult : Type 0 where
  pub user_id : Uuid
  pub email : String
  pub email_verification_token : String

pub record LoginResult : Type 0 where
  pub access_token : String
  pub refresh_token : String

abbrev pub audit : Platform → Client → Option Uuid → String → Option Json → Action Unit
audit p client user_id event_type metadata =
    log_audit_event p.server user_id event_type (some client.ip_address) client.user_agent metadata

abbrev pub reason : String → Option Json
reason why = some (("reason", text why) ∷ [])

abbrev pub refuse_duplicate :
    Platform → Client → Option UserRecord → String → AppError → Action Unit
refuse_duplicate p client none why e = pure tt
refuse_duplicate p client (some _) why e =
    audit p client none "register_failed" (reason why) >> raise (app e)

unfoldable pub ensure_email_and_username_free : Platform → Client → String → String → Action Unit
ensure_email_and_username_free p client email username = do
  existing_email ← get_by_email email
  refuse_duplicate p client existing_email "duplicate_email"
      (AppError.email_already_exists "registration_failed")
  existing_username ← get_by_username username
  refuse_duplicate p client existing_username "duplicate_username"
      (AppError.username_already_exists "registration_failed")

abbrev pub verification_email : String → String → Json
verification_email email token =
    ("template", text "email_verification") ∷ ("to", text email) ∷ ("token", text token) ∷ []

-- The block under `async with conn.transaction():`.
unfoldable pub register_body : Platform → Client → String → String → String → Action RegisterResult
register_body p client email username password = do
  ensure_email_and_username_free p client email username
  user_id ←
      UserRepository.create p.server.now (p.server.gen_random_uuid 0) username email
        (hash_password p password)
  let verification_token = create_email_verification_token p user_id
  audit p client (some user_id) "user_registered"
      (some (("email", text email) ∷ ("username", text username) ∷ []))
  _ ←
      enqueue p.server.now (p.server.gen_random_uuid 1) "email"
        (verification_email email verification_token)
  pure (record { user_id = user_id; email = email; email_verification_token = verification_token })

unfoldable pub register : Platform → Client → String → String → String → Action RegisterResult
register p client email username password =
    transaction (register_body p client email username password)

-- `user.locked_until and user.locked_until > now`
abbrev pub is_locked : Timestamp → Option Timestamp → Bool
is_locked now none = false
is_locked now (some until) = ltb now until

unfoldable pub ensure_not_locked : Platform → UserRecord → Action Unit
ensure_not_locked p user =
    raise_if (is_locked p.utc_now user.locked_until)
      (app (AppError.account_locked user.locked_until (some 5)))

unfoldable pub register_failed_attempt : Platform → Client → UserRecord → Action Unit
register_failed_attempt p client user = do
  let new_count = user.failed_login_count + 1
  increment_failed_login user.id new_count (compute_lockout p new_count)
  audit p client (some user.id) "login_failed"
      (some (("reason", text "wrong_password") ∷ ("attempt", num (pos new_count)) ∷ []))

abbrev pub valid_code : Platform → Option String → String → Bool
valid_code p none code = false
valid_code p (some raw_secret) code = verify_totp_code p raw_secret code

abbrev pub decrypted : Platform → Option String → Action (Option String)
decrypted p none = raise Error.attribute_error
decrypted p (some encrypted) = pure (decrypt_totp_secret p encrypted)

-- `if not totp_code`, which an empty code is too; `None` is no secret that `decrypt_value` encodes.
unfoldable pub ensure_totp_valid : Platform → UserRecord → Option String → Action Unit
ensure_totp_valid p user none = raise (app (AppError.totp_required (some user.id)))
ensure_totp_valid p user (some totp_code) = do
  raise_if (str_eq totp_code "") (app (AppError.totp_required (some user.id)))
  raw_secret ← decrypted p user.totp_secret_encrypted
  raise_if (not (valid_code p raw_secret totp_code)) (app (AppError.totp_required (some user.id)))

unfoldable pub issue_tokens : Platform → Client → UserRecord → Action LoginResult
issue_tokens p client user = do
  let refresh_token = generate_refresh_token p
  _ ←
      SessionRepository.create p.server (p.server.gen_random_uuid 0) user.id
        (hash_opaque_token p refresh_token) client.user_agent client.ip_address
        (refresh_token_expiry p)
  pure (record { access_token = create_access_token p user.id; refresh_token = refresh_token })

abbrev pub rehash : Platform → UserRecord → String → Action Unit
rehash p user password =
    if needs_rehash p user.hashed_password
    then update_password_hash user.id (hash_password p password)
    else pure tt

abbrev pub check_totp : Platform → UserRecord → Option String → Action Unit
check_totp p user totp_code =
    if user.totp_enabled then ensure_totp_valid p user totp_code else pure tt

-- After the password has been checked.
abbrev pub login_checked :
    Platform → Client → UserRecord → String → String → Option String → Bool → Action LoginResult
login_checked p client user email password totp_code false =
    register_failed_attempt p client user >> raise (app (AppError.login_error (some email)))
login_checked p client user email password totp_code true = do
  rehash p user password
  check_totp p user totp_code
  reset_failed_login_count user.id
  audit p client (some user.id) "login_success" none
  issue_tokens p client user

abbrev pub login_found :
    Platform → Client → Option UserRecord → String → String → Option String → Action LoginResult
login_found p client none email password totp_code =
    audit p client none "login_failed" (reason "no_such_user")
    >> raise (app (AppError.login_error (some email)))
login_found p client (some user) email password totp_code = do
  ensure_not_locked p user
  is_right ← verify_password p password user.hashed_password
  login_checked p client user email password totp_code is_right

unfoldable pub login_body : Platform → Client → String → String → Option String → Action LoginResult
login_body p client email password totp_code = do
  user ← get_by_email email
  login_found p client user email password totp_code

unfoldable pub login : Platform → Client → String → String → Option String → Action LoginResult
login p client email password totp_code = transaction (login_body p client email password totp_code)
