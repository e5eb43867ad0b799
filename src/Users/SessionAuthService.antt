-- ===== src/Users/SessionAuthService.antt =====
-- app/users/services/session_auth.py: email verification, password reset and the sessions.
use super_wallet.Base.{String, Option, none, some, List, [], ◌∷◌, map, if◌then◌else◌}
use super_wallet.Errors.{Error, app, AppError}
use super_wallet.Db.{Json, text, Uuid, Timestamp, Action, pure, raise, transaction, ◌>>=◌, ◌>>◌}
use super_wallet.Outbox.{enqueue}
use super_wallet.Security.{Platform}
use super_wallet.Security.Users.{
  hash_password, create_email_verification_token, password_reset_token_expiry, hash_opaque_token,
  decode_purpose_token,
}
use super_wallet.Users.UserRepository
use super_wallet.Users.UserRepository.{
  UserArgument, UserRecord, get_by_email, update_password_hash, set_email_verified,
}
use super_wallet.Users.SessionRepository
use super_wallet.Users.SessionRepository.{SessionRecord, revoke_all_for_user, list_active_for_user}
use super_wallet.Users.VerificationTokenRepository
use super_wallet.Users.VerificationTokenRepository.{
  VerificationTokenRecord, get_valid_by_hash, mark_used, invalidate_all_for_user,
}
use super_wallet.Users.AuthService.{Client, audit, verification_email}
use super_wallet.Users.RefreshService.{revoke_own}

-- `InvalidVerificationTokenError()` and `PasswordResetTokenInvalidError()` with their defaults.
abbrev pub invalid_token : Error
invalid_token = app (AppError.invalid_verification_token "invalid_token")

abbrev pub invalid_reset_token : Error
invalid_reset_token = app (AppError.password_reset_token_invalid "invalid_or_used")

abbrev pub verify_user : Platform → Client → Option UserRecord → Action Unit
verify_user p client none = raise invalid_token
verify_user p client (some user) =
    if user.email_verified
    then pure tt
    else (set_email_verified user.id >> audit p client (some user.id) "email_verified" none)

abbrev pub verify_subject : Platform → Client → Option Uuid → Action Unit
verify_subject p client none = raise invalid_token
verify_subject p client (some user_id) =
    transaction (do user ← UserRepository.get_by_id user_id; verify_user p client user)

unfoldable pub verify_email : Platform → Client → String → Action Unit
verify_email p client token = do
  user_id ← decode_purpose_token p token "verify_email"
  verify_subject p client user_id

abbrev pub resend_to : Platform → Client → Option UserRecord → Action Unit
resend_to p client none = audit p client none "resend_verification_noop" none
resend_to p client (some user) =
    if user.email_verified
    then audit p client (some user.id) "resend_verification_noop" none
    else (enqueue p.server.now (p.server.gen_random_uuid 0) "email"
          (verification_email user.email (create_email_verification_token p user.id))
        >> audit p client (some user.id) "verification_resent" none)

unfoldable pub resend_verification : Platform → Client → String → Action Unit
resend_verification p client email =
    transaction (do user ← get_by_email email; resend_to p client user)

abbrev pub reset_email : String → String → Json
reset_email email token =
    ("template", text "password_reset") ∷ ("to", text email) ∷ ("token", text token) ∷ []

abbrev pub request_reset : Platform → Client → Option UserRecord → Action Unit
request_reset p client none = audit p client none "forgot_password_noop" none
request_reset p client (some user) = do
  invalidate_all_for_user p.server.now user.id "password_reset"
  let raw_token = p.token_urlsafe
  _ ←
      VerificationTokenRepository.create p.server.now (p.server.gen_random_uuid 0) user.id
        (hash_opaque_token p raw_token) "password_reset" (password_reset_token_expiry p)
        (some client.ip_address)
  _ ← enqueue p.server.now (p.server.gen_random_uuid 1) "email" (reset_email user.email raw_token)
  audit p client (some user.id) "password_reset_requested" none

unfoldable pub forgot_password : Platform → Client → String → Action Unit
forgot_password p client email =
    transaction (do user ← get_by_email email; request_reset p client user)

abbrev pub reset_to : Platform → Client → String → Option VerificationTokenRecord → Action Unit
reset_to p client new_password none = raise invalid_reset_token
reset_to p client new_password (some token) = do
  update_password_hash token.user_id (hash_password p new_password)
  mark_used p.server.now token.id
  revoke_all_for_user p.server.now token.user_id "password_reset"
  audit p client (some token.user_id) "password_reset_completed" none

unfoldable pub reset_body : Platform → Client → String → String → Action Unit
reset_body p client token_hash new_password = do
  token ← get_valid_by_hash p.server.now token_hash "password_reset"
  reset_to p client new_password token

unfoldable pub reset_password : Platform → Client → String → String → Action Unit
reset_password p client raw_token new_password =
    transaction (reset_body p client (hash_opaque_token p raw_token) new_password)

pub record SessionSummary : Type 0 where
  pub id : Uuid
  pub device_info : Option String
  pub ip_address : Option String
  pub created_at : Timestamp
  pub expires_at : Timestamp

abbrev pub summary : SessionRecord → SessionSummary
summary r = record {
  id = r.id;
  device_info = r.device_info;
  ip_address = r.ip_address;
  created_at = r.created_at;
  expires_at = r.expires_at;
}

unfoldable pub list_sessions : Platform → Uuid → Action (List SessionSummary)
list_sessions p user_id = do
  records ← list_active_for_user p.server.now user_id
  pure (map summary records)

unfoldable pub revoke_body : Platform → Client → UserArgument → Uuid → Action Unit
revoke_body p client argument session_id = do
  session ← SessionRepository.get_by_id session_id
  revoke_own p client argument "user_revoked" "session_revoked" session

unfoldable pub revoke_session : Platform → Client → UserArgument → Uuid → Action Unit
revoke_session p client argument session_id = transaction (revoke_body p client argument session_id)
