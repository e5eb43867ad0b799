-- ===== src/Users/Router/Answers.antt =====
-- What the answer to a forgotten password tells of an account.
use super_wallet.Base.{◌≡◌, true, refl, String, none, some}
use super_wallet.Base.Table.{find_row}
use super_wallet.Errors.{type_error}
use super_wallet.Db.{Db, UserRow, ok, err}
use super_wallet.Audit.{audit_row, add_audit, log_audit_event}
use super_wallet.Security.{Platform}
use super_wallet.Http.{Request}
use super_wallet.Users.UserRepository.{get_by_email, to_record}
use super_wallet.Users.Lookups.{has_email}
use super_wallet.Users.SessionAuthService
use super_wallet.Users.Router.SessionAuth.{client_meta, forgot_password, says}

-- The answer to a forgotten password gives away whether an account exists: the address of an active
-- user ends in a `TypeError`, since the lookup does not select `is_active`, and an unknown one in the
-- message that an email was sent, with one row in the audit log. The address of the client is one
-- that the column of the audit log takes.
pub forgot_password-selected_columns :
    (p : Platform) (request : Request) (known unknown : String) (db : Db) (row : UserRow)
    → p.server.reads_inet (client_meta request).ip_address ≡ true
    → find_row (has_email known) db.users ≡ some row
    → find_row (has_email unknown) db.users ≡ none
    → (forgot_password p request known db ≡ (err type_error, db))
      × (forgot_password p request unknown db ≡ (
        ok (says "Eger bu email registered bolsa, parol täzelemek üçin link iberildi."),
        add_audit
            (audit_row p.server.now none "forgot_password_noop"
              (some (client_meta request).ip_address)
              (client_meta request).user_agent
              none)
            db,
      ))
unfolding forgot_password SessionAuthService.forgot_password get_by_email to_record log_audit_event
forgot_password-selected_columns p request known unknown db row readable there nobody =
    (rw there refl, rw (nobody, readable) refl)
