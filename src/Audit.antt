-- ===== src/Audit.antt =====
-- app/core/audit.py: one row of `audit_logs`, written on the caller's connection.
use super_wallet.Base.{
  ◌≡◌, arith, String, Option, none, some, not, ◌==◌, List, [], ◌∷◌, ◌++◌, Bool, false,
}
use super_wallet.Base.Table.{has_row}
use super_wallet.Errors.{data_error, foreign_key_violation}
use super_wallet.Db.Post.{Post}
use super_wallet.Db.{
  Server, AuditLog, Db, UserRow, Uuid, Timestamp, Json, Action, modify, raise_if, ◌>>◌,
}

-- A reference to a user that is not there.
abbrev pub dangles : Option Uuid → List UserRow → Bool
dangles none users = false
dangles (some user_id) users = not (has_row (λ u. u.id == user_id) users)

abbrev pub audit_row :
    Timestamp → Option Uuid → String → Option String → Option String → Option Json → AuditLog
audit_row now user_id event_type ip_address user_agent metadata = record {
  user_id = user_id;
  event_type = event_type;
  ip_address = ip_address;
  user_agent = user_agent;
  metadata = metadata;
  created_at = now;
}

abbrev pub add_audit : AuditLog → Db → Db
add_audit row db = record db { audit_logs = db.audit_logs ++ row ∷ [] }

-- `ip_address` is a column of type `inet`.
abbrev pub refused_inet : Server → Option String → Bool
refused_inet server none = false
refused_inet server (some address) = not (server.reads_inet address)

unfoldable pub log_audit_event :
    Server → Option Uuid → String → Option String → Option String → Option Json → Action Unit
log_audit_event server user_id event_type ip_address user_agent metadata = do
  raise_if (refused_inet server ip_address) data_error
  λ db. raise_if (dangles user_id db.users) (foreign_key_violation "audit_logs_user_id_fkey") db
  modify (add_audit (audit_row server.now user_id event_type ip_address user_agent metadata))

pub log_audit_event-Post :
    (server : Server) (user_id : Option Uuid) (event_type : String) (ip ua : Option String)
    (m : Option Json) (db : Db)
    → Post
        (λ _ db'. db' ≡ add_audit (audit_row server.now user_id event_type ip ua m) db)
        (log_audit_event server user_id event_type ip ua m db)
unfolding log_audit_event
log_audit_event-Post server user_id event_type ip ua m db = ground arith
