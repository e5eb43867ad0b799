-- ===== src/Users/Failures.antt =====
-- What the requests of app/users write before they raise, and what is left of it: login and refresh
-- run in one transaction each.
use super_wallet.Base.{◌≡◌, refl, String, str_eq, true, ◌==◌, ◌&&◌, Option, none, some, [], ◌∷◌}
use super_wallet.Base.Table.{find_row, has_row, update_rows}
use super_wallet.Errors.{app, AppError, RefreshTokenInvalidReason}
use super_wallet.Db.{Db, SessionRow, uuid, err}
use super_wallet.Audit.{audit_row, add_audit, log_audit_event}
use super_wallet.Security.{Platform}
use super_wallet.Security.Users.{hash_opaque_token}
use super_wallet.Users.UserRepository.{get_by_email}
use super_wallet.Users.SessionRepository.{
  is_null, is_rotated, is_live_of, revoked, revoke_all_for_user, get_by_token_hash,
  get_by_used_token_hash, to_record,
}
use super_wallet.Users.Lookups.{has_email}
use super_wallet.Users.AuthService.{Client, login, login_body, reason}
use super_wallet.Users.RefreshService.{
  refresh, refresh_body, refresh_session, handle_possible_reuse,
}

-- The tables where a reuse of the session's token has revoked the live sessions of its user, and
-- stands in the audit log.
abbrev pub after_reuse : Platform → Client → SessionRow → Db → Db
after_reuse p client s db =
    add_audit
      (audit_row p.server.now (some s.user_id) "refresh_token_reuse_detected"
        (some client.ip_address) client.user_agent (some (("session_id", uuid s.id) ∷ [])))
      (record db {
        sessions =
            update_rows (is_live_of s.user_id) (revoked p.server.now "security_action") db.sessions;
      })

-- A refresh with the token of a session that was rotated is refused, and what it does about the reuse
-- is undone. The block revokes every live session of the user and logs the reuse; then it raises,
-- and the transaction restores the tables. The address of the client is one that the column takes,
-- and the user's row is there.
pub refresh_reuse :
    (p : Platform) (client : Client) (token : String) (s : SessionRow) (db : Db)
    → find_row
        (λ r. str_eq r.refresh_token_hash (hash_opaque_token p token) && is_null r.revoked_at)
        db.sessions
      ≡ none
    → find_row
        (λ r.
          str_eq r.refresh_token_hash (hash_opaque_token p token) && is_rotated r.revoked_reason)
        db.sessions
      ≡ some s
    → p.server.reads_inet client.ip_address ≡ true
    → has_row (λ u. u.id == s.user_id) db.users ≡ true
    → let e = app (AppError.invalid_refresh_token RefreshTokenInvalidReason.revoked none none) in
      (refresh_body p client (hash_opaque_token p token) db ≡ (err e, after_reuse p client s db))
      × (refresh p client token db ≡ (err e, db))
unfolding refresh refresh_body get_by_token_hash refresh_session handle_possible_reuse
    get_by_used_token_hash revoke_all_for_user log_audit_event to_record
refresh_reuse p client token s db stale used readable user =
    (rw (stale, used, readable, user) refl, rw (stale, used, readable, user) refl)

-- A login with an address that no active user has is refused, and leaves no trace. The block logs the
-- attempt; then it raises, and the transaction takes the row of the audit log back. The address of
-- the client is one that the column takes.
pub login_unknown :
    (p : Platform) (client : Client) (email password : String) (totp_code : Option String) (db : Db)
    → find_row (has_email email) db.users ≡ none
    → p.server.reads_inet client.ip_address ≡ true
    → let e = app (AppError.login_error (some email)) in
      (login_body p client email password totp_code db ≡ (
        err e,
        add_audit
            (audit_row p.server.now none "login_failed"
              (some client.ip_address)
              client.user_agent
              (reason "no_such_user"))
            db,
      ))
      × (login p client email password totp_code db ≡ (err e, db))
unfolding login login_body get_by_email log_audit_event
login_unknown p client email password totp_code db nobody readable =
    (rw (nobody, readable) refl, rw (nobody, readable) refl)
