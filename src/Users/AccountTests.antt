-- ===== src/Users/AccountTests.antt =====
-- The theorems on registration, refresh tokens, passwords and bearer tokens, at concrete inputs.
use super_wallet.Security.Users.{
  hash_password, verify_backup_code, hash_backup_codes, generate_backup_codes,
  create_email_verification_token, create_access_token, access_token_ttl_seconds, hash_opaque_token,
}
use mathlib.Core.Bool.{false≢true}
use super_wallet.Security.BackupCodes.{verify_backup_code-hash_backup_codes}
use super_wallet.Users.AuthService
use super_wallet.Outbox.{enqueue}
use super_wallet.Audit.{log_audit_event}
use super_wallet.Users.UserRepository
use super_wallet.Base.{arith, ℕ, zero, suc, ◌<◌, ◌≢◌, eq_iff, ◌≡◌, refl, ◌∷◌, [], some, none}
use super_wallet.Errors.{type_error, app, AppError, RefreshTokenInvalidReason}
use super_wallet.Db.{Db, ok, err, SessionRow}
use super_wallet.Security.{Platform}
use super_wallet.Security.Roundtrip.{at_time, signed_body, body_part, signature_part}
use super_wallet.Users.UserRepository.{user_fields, selected_columns, from_row}
use super_wallet.Users.AuthService.{register, RegisterResult, login}
use super_wallet.Users.Registered.{Registered, register_lem}
use super_wallet.Users.Router.SessionAuth.{forgot_password}
use super_wallet.Users.Router.Answers.{forgot_password-selected_columns}
use super_wallet.Http.{Request}
use super_wallet.Http.Dependencies.{get_current_user}
use super_wallet.Http.Bearer.{access_claims, get_current_user-create_access_token}
use super_wallet.Users.Failures.{refresh_reuse, login_unknown}
use super_wallet.Users.Rotation.{rotate_lem}
use super_wallet.Users.RefreshService.{refresh}
use super_wallet.Users.ProfileService.{RequestContext}
use super_wallet.Users.SessionRepository.{rotate, create, has_id}
use super_wallet.Base.Table.{find_row}
use super_wallet.Users.Fixture.{session, platform, client, alice, tables}

abbrev after_register : Db
unfolding register
after_register = (register platform client "bob@example.org" "bob" "open sesame" tables).1

abbrev bob : RegisterResult
bob = record {
  user_id = 1000;
  email = "bob@example.org";
  email_verification_token = create_email_verification_token platform 1000;
}

register_lem_example :
    Registered platform client "bob@example.org" "bob" "open sesame" bob tables after_register
unfolding register AuthService.register_body AuthService.ensure_email_and_username_free
    UserRepository.get_by_email UserRepository.get_by_username UserRepository.create log_audit_event
    enqueue hash_password
register_lem_example =
    register_lem platform client "bob@example.org" "bob" "open sesame" bob tables after_register
      refl

abbrev visit : Request
visit = record {
  forwarded_for = none;
  user_agent = none;
  client_host = some "10.0.0.1";
  refresh_token = none;
}

forgot_password-selected_columns_example :
    forgot_password platform visit "alice@example.org" tables ≡ (err type_error, tables)
forgot_password-selected_columns_example =
    (forgot_password-selected_columns platform visit "alice@example.org" "nobody@example.org" tables
      alice refl refl refl).0

abbrev signing : Platform
signing = record platform {
  json_loads = λ _. some (signed_body platform (access_claims 7) access_token_ttl_seconds);
}

split_access :
    signing.split_dots (create_access_token signing 7)
    ≡ body_part signing (access_claims 7) access_token_ttl_seconds
      ∷ signature_part signing (access_claims 7) access_token_ttl_seconds
      ∷ []
split_access = refl

get_current_user-create_access_token_example :
    get_current_user (at_time signing 60000000) (some (create_access_token signing 7)) tables
    ≡ (err type_error, tables)
get_current_user-create_access_token_example =
    get_current_user-create_access_token signing 7 60000000 tables (λ _. refl) refl split_access
      refl

draws_apart : (j : ℕ) → j < 2 → platform.token_hex j ≢ platform.token_hex 2
draws_apart zero below e = false≢true ((eq_iff "a1" "c3").1 e)
draws_apart (suc zero) below e = false≢true ((eq_iff "b2" "c3").1 e)
draws_apart (suc (suc j)) below e = absurd (omega (arith, below))

verify_backup_code-hash_backup_codes_example :
    verify_backup_code platform "c3" 0
      (hash_backup_codes platform (generate_backup_codes platform 3))
      tables
    ≡ (ok (some 2), tables)
verify_backup_code-hash_backup_codes_example =
    verify_backup_code-hash_backup_codes platform (λ _ _. refl) 3 2 tables (omega arith) draws_apart

abbrev context : RequestContext
context = record { ip_address = none; user_agent = none }

abbrev rotated_session : SessionRow
rotated_session = record session {
  id = 51;
  refresh_token_hash = "old";
  revoked_at = some 40;
  revoked_reason = some "rotated";
  replaced_by_session_id = some 50;
}

abbrev with_rotated : Db
with_rotated = record tables { sessions = session ∷ rotated_session ∷ [] }

refresh_reuse_example : refresh platform client "old" with_rotated ≡ (
  err (app (AppError.invalid_refresh_token RefreshTokenInvalidReason.revoked none none)),
  with_rotated,
)
unfolding hash_opaque_token
refresh_reuse_example =
    (refresh_reuse platform client "old" rotated_session with_rotated refl refl refl refl).1

login_unknown_example :
    login platform client "nobody@example.org" "secret" none tables
    ≡ (err (app (AppError.login_error (some "nobody@example.org"))), tables)
login_unknown_example =
    (login_unknown platform client "nobody@example.org" "secret" none tables refl refl).1

abbrev after_rotation : Db
unfolding rotate
after_rotation = (rotate platform.server 52 50 7 "fresh" none "10.0.0.1" 9000000 with_rotated).1

-- The session 51 is as it was.
rotate_lem_example : find_row (has_id 51) after_rotation.sessions ≡ some rotated_session
unfolding rotate create
rotate_lem_example =
    (rotate_lem platform.server 52 50 7 "fresh" none "10.0.0.1" 9000000 session 51 52 with_rotated
      after_rotation refl (λ e. omega (arith, e)) (λ e. omega (arith, e)) refl).3
