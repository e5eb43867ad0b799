-- ===== src/Users/Reset.antt =====
-- What a completed password reset establishes.
use super_wallet.Base.{
  inl, inr, Bool-cases, map_option, arith, ◌≡◌, refl, sym, subst, String, false, Option, none, some,
  List, [], ◌∷◌, All, ◌==◌,
}
use super_wallet.Base.Text.{fits_varchar}
use super_wallet.Base.Table.{find_row, update_rows}
use super_wallet.Db.{Timestamp, Db, Uuid, SessionRow, UserRow, VerificationTokenRow, ok}
use super_wallet.Db.Post.{Post-weaken, Post, Post-transaction, Post-result}
use super_wallet.Audit.{log_audit_event, log_audit_event-Post}
use super_wallet.Security.{Platform}
use super_wallet.Security.Users.{hash_password, hash_opaque_token}
use super_wallet.Users.UserRepository
use super_wallet.Users.UserRepository.{update_password_hash}
use super_wallet.Users.SessionRepository.{is_live_of, revoked, revoke_all_for_user}
use super_wallet.Users.VerificationTokenRepository
use super_wallet.Users.VerificationTokenRepository.{
  to_record, used, VerificationTokenRecord, is_valid, get_valid_by_hash, mark_used,
}
use super_wallet.Users.AuthService.{Client}
use super_wallet.Users.SessionAuthService.{reset_body, reset_password, reset_to}

-- After the sessions of a user are revoked, none is live.
pub none_live :
    (now : Timestamp) (user_id : Uuid) (reason : String) (rows : List SessionRow)
    → All
        (λ s. is_live_of user_id s ≡ false)
        (update_rows (is_live_of user_id) (revoked now reason) rows)
none_live now user_id reason [] = tt
none_live now user_id reason (s ∷ rows) = (ground arith, none_live now user_id reason rows)

rehashed :
    (user_id : Uuid) (new_hash : String) (rows : List UserRow)
    → All
        (λ u. u.id ≡ user_id → u.hashed_password ≡ new_hash)
        (update_rows (λ u. u.id == user_id) (λ u. record u { hashed_password = new_hash }) rows)
rehashed user_id new_hash [] = tt
rehashed user_id new_hash (u ∷ rows) = (λ e. ground arith, rehashed user_id new_hash rows)

-- What the reset with this token leaves.
abbrev pub IsReset : Platform → String → VerificationTokenRow → Db → Db → Type 0
IsReset p new_password row db db' =
    All (λ s. is_live_of row.user_id s ≡ false) db'.sessions
    × All (λ u. u.id ≡ row.user_id → u.hashed_password ≡ hash_password p new_password) db'.users
    × (db'.verification_tokens
        ≡ update_rows (VerificationTokenRepository.has_id row.id) (used p.server.now)
            db.verification_tokens)

abbrev pub find_valid : Platform → String → Db → Option VerificationTokenRow
find_valid p raw_token db =
    find_row (is_valid p.server.now (hash_opaque_token p raw_token) "password_reset")
      db.verification_tokens

module _ (p : Platform) (client : Client) (raw_token new_password : String) (db : Db) where
  abbrev Outcome : Unit {0} → Db → Type 0
  Outcome _ db' =
      (row : VerificationTokenRow) × (find_valid p raw_token db ≡ some row)
      × IsReset p new_password row db db'

  reset_to-Post :
      (found : Option VerificationTokenRow)
      → find_valid p raw_token db ≡ found
      → Post Outcome (reset_to p client new_password (map_option to_record found) db)
  unfolding hash_password update_password_hash mark_used revoke_all_for_user to_record
      log_audit_event
  reset_to-Post none e = tt
  reset_to-Post (some row) e =
      let after = record db {
        users =
            update_rows (UserRepository.has_id row.user_id)
              (λ u. record u { hashed_password = hash_password p new_password }) db.users;
        verification_tokens =
            update_rows (VerificationTokenRepository.has_id row.id) (used p.server.now)
              db.verification_tokens;
        sessions =
            update_rows (is_live_of row.user_id) (revoked p.server.now "password_reset")
              db.sessions;
      } in
      elim (Bool-cases (fits_varchar 255 (hash_password p new_password))) [
        | inr long ↦ rw long tt
        | inl fits ↦ rw fits (
            Post-weaken _ Outcome _
              (log_audit_event-Post p.server (some row.user_id) "password_reset_completed"
                (some client.ip_address) client.user_agent none after)
              (λ _ db' same. subst (Outcome tt) (sym same) (
                row,
                e,
                (
                  none_live p.server.now row.user_id "password_reset" db.sessions,
                  rehashed row.user_id (hash_password p new_password) db.users,
                  refl,
                ),
              )))
      ]

  -- A password reset that returns found a valid token for it. After it that token is used, its
  -- user has the hash of the new password, and none of the user's sessions is live.
  pub reset_password_lem :
      (db' : Db)
      → reset_password p client raw_token new_password db ≡ (ok tt, db')
      → (row : VerificationTokenRow) × (find_valid p raw_token db ≡ some row)
        × IsReset p new_password row db db'
  unfolding reset_password reset_body get_valid_by_hash hash_opaque_token
  reset_password_lem db' h =
      let body = reset_body p client (hash_opaque_token p raw_token) new_password in
      Post-result Outcome _ h
        (Post-transaction Outcome body db (reset_to-Post (find_valid p raw_token db) refl))
