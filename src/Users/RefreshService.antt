-- ===== src/Users/RefreshService.antt =====
-- RefreshService and LogoutService of app/users/services/auth.py.
use super_wallet.Base.{String, ltb, not, ◌||◌, Option, none, some, [], ◌∷◌}
use super_wallet.Errors.{Error, app, AppError, RefreshTokenInvalidReason}
use super_wallet.Db.{uuid, Uuid, Action, pure, raise, raise_if, transaction, ◌>>=◌, ◌>>◌}
use super_wallet.Security.{Platform}
use super_wallet.Security.Users.{
  create_access_token, generate_refresh_token, refresh_token_expiry, hash_opaque_token,
}
use super_wallet.Users.UserRepository
use super_wallet.Users.UserRepository.{UserRecord, UserArgument, of_id, is_id, encode_uuid}
use super_wallet.Users.SessionRepository.{
  SessionRecord, is_null, get_by_token_hash, get_by_used_token_hash, revoke, revoke_all_for_user,
  rotate,
}
use super_wallet.Users.AuthService.{Client, audit, is_locked}

pub record RefreshResult : Type 0 where
  pub access_token : String
  pub refresh_token : String

abbrev pub revoke_family : Platform → Client → Option SessionRecord → Action Unit
revoke_family p client none = pure tt
revoke_family p client (some reused_session) = do
  revoke_all_for_user p.server.now reused_session.user_id "security_action"
  audit p client (some reused_session.user_id) "refresh_token_reuse_detected"
      (some (("session_id", uuid reused_session.id) ∷ []))

unfoldable pub handle_possible_reuse : Platform → Client → String → Action Unit
handle_possible_reuse p client token_hash = do
  reused_session ← get_by_used_token_hash token_hash
  revoke_family p client reused_session

abbrev pub session_expired : SessionRecord → Error
session_expired session = app (AppError.session_expired session.id (some session.expires_at))

unfoldable pub rotate_session :
    Platform → Client → SessionRecord → UserRecord → Action RefreshResult
rotate_session p client session user = do
  let new_refresh_token = generate_refresh_token p
  _ ←
      rotate p.server (p.server.gen_random_uuid 0) session.id user.id
        (hash_opaque_token p new_refresh_token) client.user_agent client.ip_address
        (refresh_token_expiry p)
  audit p client (some user.id) "token_refreshed" (some (("old_session_id", uuid session.id) ∷ []))
  pure (record { access_token = create_access_token p user.id; refresh_token = new_refresh_token })

abbrev pub refresh_user :
    Platform → Client → SessionRecord → Option UserRecord → Action RefreshResult
refresh_user p client session none = raise (session_expired session)
refresh_user p client session (some user) = do
  raise_if (is_locked p.utc_now user.locked_until)
      (app (AppError.account_locked user.locked_until (some 5)))
  rotate_session p client session user

unfoldable pub refresh_session :
    Platform → Client → String → Option SessionRecord → Action RefreshResult
refresh_session p client token_hash none =
    handle_possible_reuse p client token_hash
    >> raise (app (AppError.invalid_refresh_token RefreshTokenInvalidReason.revoked none none))
refresh_session p client token_hash (some session) = do
  raise_if (not (is_null session.revoked_at) || ltb session.expires_at p.utc_now)
      (session_expired session)
  user ← UserRepository.get_by_id session.user_id
  refresh_user p client session user

unfoldable pub refresh_body : Platform → Client → String → Action RefreshResult
refresh_body p client token_hash = do
  session ← get_by_token_hash token_hash
  refresh_session p client token_hash session

-- `RefreshService.execute`
unfoldable pub refresh : Platform → Client → String → Action RefreshResult
refresh p client refresh_token =
    transaction (refresh_body p client (hash_opaque_token p refresh_token))

abbrev pub not_found : Error
not_found = app (AppError.session_not_found "session_not_found")

abbrev pub revoke_own :
    Platform → Client → UserArgument → String → String → Option SessionRecord → Action Unit
revoke_own p client argument why event_type none = raise not_found
revoke_own p client argument why event_type (some session) = do
  raise_if (not (is_id session.user_id argument)) not_found
  revoke p.server.now session.id why
  user_id ← encode_uuid argument
  audit p client (some user_id) event_type (some (("session_id", uuid session.id) ∷ []))

-- `LogoutService.execute`
unfoldable pub logout : Platform → Client → Uuid → String → Action Unit
logout p client user_id refresh_token = transaction (do
  session ← get_by_token_hash (hash_opaque_token p refresh_token)
  revoke_own p client (of_id user_id) "logout" "logout" session)
