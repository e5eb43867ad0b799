-- ===== src/Users/SessionRepository.antt =====
-- class SessionRepository of app/users/repository.py, over the table `sessions`.
use super_wallet.Base.{
  map_option, map, String, str_eq, ◌==◌, Bool, true, false, not, ltb, ◌&&◌, Option, none, some,
  List, [], ◌∷◌, ◌++◌,
}
use super_wallet.Base.Table.{find_row, has_row, select_rows, update_rows, order_by_desc}
use super_wallet.Errors.{data_error, unique_violation, foreign_key_violation}
use super_wallet.Db.{
  Server, SessionRow, Uuid, Timestamp, Action, pure, gets, modify, raise_if, ◌>>=◌, ◌>>◌,
}

-- `class SessionRecord`
pub record SessionRecord : Type 0 where
  pub id : Uuid
  pub user_id : Uuid
  pub refresh_token_hash : String
  pub device_info : Option String
  pub ip_address : Option String
  pub created_at : Timestamp
  pub revoked_at : Option Timestamp
  pub expires_at : Timestamp

unfoldable pub to_record : SessionRow → SessionRecord
to_record r = record {
  id = r.id;
  user_id = r.user_id;
  refresh_token_hash = r.refresh_token_hash;
  device_info = r.device_info;
  ip_address = r.ip_address;
  created_at = r.created_at;
  revoked_at = r.revoked_at;
  expires_at = r.expires_at;
}

abbrev pub has_id : Uuid → SessionRow → Bool
has_id session_id s = s.id == session_id

abbrev pub is_null : Option Timestamp → Bool
is_null none = true
is_null (some _) = false

-- `revoked_reason = 'rotated'`, which NULL is not.
abbrev pub is_rotated : Option String → Bool
is_rotated none = false
is_rotated (some reason) = str_eq reason "rotated"

abbrev pub find_session : (SessionRow → Bool) → Action (Option SessionRecord)
find_session p = gets (λ db. map_option to_record (find_row p db.sessions))

unfoldable pub get_by_id : Uuid → Action (Option SessionRecord)
get_by_id session_id = find_session (has_id session_id)

abbrev pub new_session :
    Timestamp → Uuid → Uuid → String → Option String → String → Timestamp → SessionRow
new_session now id user_id refresh_token_hash device_info ip_address expires_at = record {
  id = id;
  user_id = user_id;
  refresh_token_hash = refresh_token_hash;
  device_info = device_info;
  ip_address = some ip_address;
  created_at = now;
  expires_at = expires_at;
  revoked_at = none;
  revoked_reason = none;
  replaced_by_session_id = none;
}

unfoldable pub create :
    Server → Uuid → Uuid → String → Option String → String → Timestamp → Action Uuid
create server id user_id refresh_token_hash device_info ip_address expires_at = do
  raise_if (not (server.reads_inet ip_address)) data_error
  λ db. raise_if (has_row (has_id id) db.sessions) (unique_violation "sessions_pkey") db
  λ db.
      raise_if (has_row (λ s. str_eq s.refresh_token_hash refresh_token_hash) db.sessions)
        (unique_violation "ix_sessions_refresh_token_hash") db
  λ db.
      raise_if (not (has_row (λ u. u.id == user_id) db.users))
        (foreign_key_violation "sessions_user_id_fkey") db
  modify (λ db. record db {
    sessions =
        db.sessions
        ++ new_session server.now id user_id refresh_token_hash device_info ip_address expires_at
          ∷ [];
  })
  pure id

unfoldable pub get_by_token_hash : String → Action (Option SessionRecord)
get_by_token_hash token_hash =
    find_session (λ s. str_eq s.refresh_token_hash token_hash && is_null s.revoked_at)

unfoldable pub get_by_used_token_hash : String → Action (Option SessionRecord)
get_by_used_token_hash token_hash =
    find_session (λ s. str_eq s.refresh_token_hash token_hash && is_rotated s.revoked_reason)

abbrev pub update_sessions : (SessionRow → Bool) → (SessionRow → SessionRow) → Action Unit
update_sessions p f = modify (λ db. record db { sessions = update_rows p f db.sessions })

abbrev pub revoked : Timestamp → String → SessionRow → SessionRow
revoked now reason s = record s { revoked_at = some now; revoked_reason = some reason }

unfoldable pub revoke : Timestamp → Uuid → String → Action Unit
revoke now session_id reason = update_sessions (has_id session_id) (revoked now reason)

abbrev pub is_live_of : Uuid → SessionRow → Bool
is_live_of user_id s = s.user_id == user_id && is_null s.revoked_at

unfoldable pub revoke_all_for_user : Timestamp → Uuid → String → Action Unit
revoke_all_for_user now user_id reason = update_sessions (is_live_of user_id) (revoked now reason)

unfoldable pub rotate :
    Server → Uuid → Uuid → Uuid → String → Option String → String → Timestamp → Action Uuid
rotate server id old_session_id user_id new_token_hash device_info ip_address expires_at = do
  new_id ← create server id user_id new_token_hash device_info ip_address expires_at
  update_sessions (has_id old_session_id) (λ s. record s {
    revoked_at = some server.now;
    revoked_reason = some "rotated";
    replaced_by_session_id = some new_id;
  })
  pure new_id

unfoldable pub list_active_for_user : Timestamp → Uuid → Action (List SessionRecord)
list_active_for_user now user_id = gets (λ db. map to_record (
    order_by_desc (λ s. s.created_at)
      (select_rows (λ s. is_live_of user_id s && ltb now s.expires_at) db.sessions)))
