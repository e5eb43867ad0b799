-- ===== src/Users/Tests.antt =====
-- Runs of the user services and of the worker, and the theorems at inputs that meet their hypotheses.
use super_wallet.Base.{All, ◌≡◌, refl, none, some, List, [], ◌∷◌, arith}
use super_wallet.Db.{Db, SessionRow, VerificationTokenRow, OutboxEventRow, ok, err}
use super_wallet.Errors.{type_error}
use super_wallet.Security.{Platform}
use super_wallet.Users.UserRepository.{update_password_hash, of_id}
use super_wallet.Users.SessionRepository
use super_wallet.Users.VerificationTokenRepository
use super_wallet.Users.SessionRepository.{
  get_by_used_token_hash, get_by_token_hash, revoked, revoke_all_for_user,
}
use super_wallet.Users.AuthService.{login}
use super_wallet.Users.Lookups.{login-selected_columns}
use super_wallet.Users.Reset.{reset_password_lem, IsReset, find_valid}
use super_wallet.Users.Ownership.{revoke_session_lem}
use super_wallet.Security.Lockout.{compute_lockout_lem}
use super_wallet.Security.Roundtrip.{
  signature_part, at_time, body_part, verify_token-sign_token, signed_body,
}
use super_wallet.Worker.{process_one, process_all, poll, run_worker}
use super_wallet.Worker.Attempts.{run_worker_bounds, IsBounded}
use super_wallet.Security.Users.{
  email_verification_ttl_seconds, decode_access_token, create_email_verification_token,
  hash_password, hash_opaque_token, compute_lockout,
}
use super_wallet.Audit.{log_audit_event}
use super_wallet.Users.SessionAuthService.{
  invalid_reset_token, revoke_body, reset_body, reset_password, revoke_session,
}
use super_wallet.Security.Tokens.{sign_token, put, verify_token}
use super_wallet.Base.Table.{update_rows, find_row}
use super_wallet.Users.VerificationTokenRepository.{mark_used, get_valid_by_hash}
use super_wallet.Outbox.{failed_row, mark_failed, fetch_pending}
use super_wallet.Users.ResetOnce.{reset_password_once, at_server_time}
use super_wallet.Security.Purposes.{
  decode_access_token-create_email_verification_token, verification_claims,
}
use super_wallet.Users.Fixture.{payload, platform, client, alice, password_changed, tables, pass}

login-selected_columns_example :
    login platform client "alice@example.org" "secret" none tables ≡ (err type_error, tables)
login-selected_columns_example =
    login-selected_columns platform client "alice@example.org" "secret" none tables alice refl

abbrev after_reset : Db
unfolding reset_password
after_reset = (reset_password platform client "reset" "changed" tables).1

reset_returns : reset_password platform client "reset" "changed" tables ≡ (ok tt, after_reset)
unfolding reset_password reset_body hash_opaque_token get_valid_by_hash hash_password
    update_password_hash mark_used revoke_all_for_user log_audit_event
    VerificationTokenRepository.to_record
reset_returns = refl

reset_password_lem_example :
    (row : VerificationTokenRow) × (find_valid platform "reset" tables ≡ some row)
    × IsReset platform "changed" row tables after_reset
reset_password_lem_example =
    reset_password_lem platform client "reset" "changed" tables after_reset reset_returns

reset_password_once_example :
    reset_password (at_server_time platform 101) client "reset" "again" after_reset
    ≡ (err invalid_reset_token, after_reset)
reset_password_once_example =
    reset_password_once platform client client "reset" "changed" "again" tables after_reset 101
      ((λ _ _. refl, tt), tt) reset_returns

abbrev after_revoke : Db
unfolding revoke_session
after_revoke = (revoke_session platform client (of_id 7) 50 tables).1

revoke_returns : revoke_session platform client (of_id 7) 50 tables ≡ (ok tt, after_revoke)
unfolding revoke_session revoke_body SessionRepository.get_by_id SessionRepository.to_record
    SessionRepository.revoke log_audit_event
revoke_returns = refl

revoke_session_lem_example :
    (row : SessionRow) × (find_row (SessionRepository.has_id 50) tables.sessions ≡ some row)
    × (row.user_id ≡ 7)
    × (after_revoke.sessions
        ≡ update_rows
            (SessionRepository.has_id row.id)
            (revoked 100 "user_revoked")
            tables.sessions)
    × (after_revoke.users ≡ tables.users)
revoke_session_lem_example =
    revoke_session_lem platform client 7 50 tables after_revoke revoke_returns

compute_lockout_lem_example : compute_lockout platform 6 ≡ some 901000000
compute_lockout_lem_example = compute_lockout_lem platform 6

split_signed :
    platform.split_dots (sign_token platform payload 60)
    ≡ body_part platform payload 60 ∷ signature_part platform payload 60 ∷ []
split_signed = refl

loads_signed :
    platform.json_loads (platform.json_dumps (signed_body platform payload 60))
    ≡ some (signed_body platform payload 60)
unfolding put
loads_signed = refl

verify_token-sign_token_example :
    verify_token (at_time platform 60000000) (sign_token platform payload 60) tables
    ≡ (ok (some (signed_body platform payload 60)), tables)
verify_token-sign_token_example =
    verify_token-sign_token platform payload 60 60000000 tables (λ _. refl) loads_signed
      split_signed

abbrev verifying : Platform
verifying = record platform {
  json_loads =
      λ _. some (signed_body platform (verification_claims 7) email_verification_ttl_seconds);
}

split_verification :
    verifying.split_dots (create_email_verification_token verifying 7)
    ≡ body_part verifying (verification_claims 7) email_verification_ttl_seconds
      ∷ signature_part verifying (verification_claims 7) email_verification_ttl_seconds
      ∷ []
split_verification = refl

decode_access_token-create_email_verification_token_example :
    decode_access_token
      (at_time verifying 60000000)
      (create_email_verification_token verifying 7)
      tables
    ≡ (ok none, tables)
decode_access_token-create_email_verification_token_example =
    decode_access_token-create_email_verification_token verifying 7 60000000 tables (λ _. refl) refl
      split_verification

-- The event of a changed password has no handler, and fails at once.
password_changed_fails :
    (run_worker (pass ∷ []) tables).1
    ≡ record tables { outbox_events = failed_row "no_handler" 1 password_changed ∷ [] }
unfolding run_worker poll process_all process_one fetch_pending mark_failed
password_changed_fails = refl

run_worker_bounds_example :
    (rows : List OutboxEventRow) × (run_worker (pass ∷ []) tables
      ≡ (ok tt, record tables { outbox_events = rows }))
    × All IsBounded rows
run_worker_bounds_example =
    run_worker_bounds (pass ∷ []) tables ((omega arith, λ _. omega arith), tt)
