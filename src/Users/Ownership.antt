-- ===== src/Users/Ownership.antt =====
-- Who can revoke a session by its id.
use super_wallet.Base.{
  [], ◌∷◌, arith, ◌≡◌, refl, sym, subst, not, Option, none, some, ◌==◌, map_option,
}
use super_wallet.Base.Table.{find_row, update_rows}
use super_wallet.Db.{◌>>◌, Db, Uuid, SessionRow, ok, uuid}
use super_wallet.Db.Post.{Post, Post-transaction, Post-result, Post-weaken, Post-raise_if}
use super_wallet.Audit.{log_audit_event-Post, log_audit_event}
use super_wallet.Security.{Platform}
use super_wallet.Users.UserRepository.{of_id}
use super_wallet.Users.SessionRepository
use super_wallet.Users.SessionRepository.{SessionRecord, revoked, revoke, has_id, to_record}
use super_wallet.Users.AuthService.{Client, audit}
use super_wallet.Users.RefreshService.{revoke_own, not_found}
use super_wallet.Users.SessionAuthService.{revoke_session, revoke_body}

module _ (p : Platform) (client : Client) (user_id session_id : Uuid) (db : Db) where
  -- The session was there, was the caller's, and is the one that is revoked.
  abbrev pub IsOwnRevoked : Unit {0} → Db → Type 0
  IsOwnRevoked _ db' =
      (row : SessionRow) × (find_row (has_id session_id) db.sessions ≡ some row)
      × (row.user_id ≡ user_id)
      × (db'.sessions
          ≡ update_rows (has_id row.id) (revoked p.server.now "user_revoked") db.sessions)
      × (db'.users ≡ db.users)

  revoke_own-Post :
      (found : Option SessionRow)
      → find_row (has_id session_id) db.sessions ≡ found
      → Post IsOwnRevoked (
          revoke_own p client
            (of_id user_id)
            "user_revoked"
            "session_revoked"
            (map_option to_record found)
            db)
  unfolding revoke to_record log_audit_event
  revoke_own-Post none e = tt
  revoke_own-Post (some row) e =
      Post-raise_if IsOwnRevoked (not (row.user_id == user_id)) not_found
        (revoke p.server.now row.id "user_revoked"
          >> audit p client (some user_id) "session_revoked"
              (some (("session_id", uuid row.id) ∷ [])))
        db
        λ own.
          let after = record db {
            sessions =
                update_rows (has_id row.id) (revoked p.server.now "user_revoked") db.sessions;
          } in
          Post-weaken _ IsOwnRevoked _
            (log_audit_event-Post p.server (some user_id) "session_revoked" (some client.ip_address)
              client.user_agent (some (("session_id", uuid row.id) ∷ [])) after)
            (λ _ db' same. subst (IsOwnRevoked tt) (sym same) (row, e, ground arith, refl, refl))

  -- Revoking a session by its id, when it returns, was asked for by the user whose session it is.
  -- It revokes that session and changes no user.
  pub revoke_session_lem :
      (db' : Db)
      → revoke_session p client (of_id user_id) session_id db ≡ (ok tt, db')
      → (row : SessionRow) × (find_row (has_id session_id) db.sessions ≡ some row)
        × (row.user_id ≡ user_id)
        × (db'.sessions
            ≡ update_rows (has_id row.id) (revoked p.server.now "user_revoked") db.sessions)
        × (db'.users ≡ db.users)
  unfolding revoke_session revoke_body to_record SessionRepository.get_by_id
  revoke_session_lem db' h = Post-result IsOwnRevoked _ h (
      Post-transaction IsOwnRevoked (revoke_body p client (of_id user_id) session_id) db
        (revoke_own-Post (find_row (has_id session_id) db.sessions) refl))
