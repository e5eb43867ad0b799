-- ===== src/Users/RouterTests.antt =====
-- The theorems on the request models, the handlers and the worker, at concrete inputs.

use super_wallet.Users.Schemas.Auth.{
  validate_code, is_common, validate_password_strength, validate_password, matches_username,
  validate_username, normalized_email, LoginRequest, login_request, register_request,
}
use mathlib.Core.Bool.{false≢true}
use super_wallet.Base.{All, ◌≡◌, ◌≢◌, refl, ◌∷◌, [], String, List, some, none, arith, eq_iff, false}
use super_wallet.Base.Text.{lower, strip, trim_left, trim_right, is_space}
use super_wallet.Db.{OutboxEventRow, ok}
use super_wallet.Http.{Validators}
use super_wallet.Users.Schemas.Registration.{IsRegistrable, register_request-IsRegistrable}
use super_wallet.Users.Schemas.SessionAuth.{reset_password_request}
use super_wallet.Users.Schemas.Profile.{profile_update}
use super_wallet.Users.Schemas.Passwords.{
  reset_password_request-login_request, profile_update-login_request,
}
use super_wallet.Worker.{run_worker}
use super_wallet.Outbox.{is_pending}
use super_wallet.Worker.Queue.{run_worker_drains}
use super_wallet.Users.Fixture.{tables, pass}

-- Every address is valid.
abbrev validators : Validators
validators = record { validate_email = some; is_decimal = λ _. false }

register_request-IsRegistrable_example :
    IsRegistrable
      (record { email = "ann@example.org"; username = "ann_1"; password = "correct horse" })
unfolding register_request normalized_email validate_username strip trim_right trim_left is_space
    matches_username validate_password validate_password_strength is_common lower
register_request-IsRegistrable_example =
    register_request-IsRegistrable validators " Ann@Example.org" "ann_1 " "correct horse" _ refl

abbrev long_password : String
long_password =
    "aaaaaaaaaaaaaaaaaaaaaaaaaaaaaaaaaaaaaaaaaaaaaaaaaaaaaaaaaaaaaaaaaaaaaaaaaaaaaaaaaaaaaaaaaaaaaaaaaaaaaaaaaaaaaaaaaaaaaaaaaaaaaaaaaa"

reset_password_request-login_request_example :
    (reset_password_request "t" long_password
      ≡ some (record { token = "t"; new_password = long_password }))
    × (login_request validators "ann@example.org" long_password none ≡ none)
unfolding strip trim_right trim_left is_space
reset_password_request-login_request_example =
    reset_password_request-login_request validators "t" long_password "ann@example.org" none
      (omega arith)

mixed_case : lower "Ann@example.org" ≢ "Ann@example.org"
unfolding lower
mixed_case e = false≢true ((eq_iff (lower "Ann@example.org") "Ann@example.org").1 e)

abbrev ann_login : LoginRequest
ann_login = record { email = "ann@example.org"; password = "correct horse"; totp_code = none }

profile_update-login_request_example :
    (profile_update validators none (some "Ann@example.org")
      ≡ some (record { username = none; email = some "Ann@example.org" }))
    × (ann_login.email ≢ "Ann@example.org")
unfolding login_request strip trim_right trim_left is_space normalized_email validate_code lower
profile_update-login_request_example =
    profile_update-login_request validators "Ann@example.org" "Ann@example.org" "Ann@example.org"
      "correct horse" none ann_login refl mixed_case refl

run_worker_drains_example :
    (rows : List OutboxEventRow) × (run_worker (pass ∷ pass ∷ pass ∷ pass ∷ pass ∷ []) tables
      ≡ (ok tt, record tables { outbox_events = rows }))
    × All (λ r. is_pending r ≡ false) rows
run_worker_drains_example =
    run_worker_drains (pass ∷ pass ∷ pass ∷ pass ∷ pass ∷ []) tables (refl, tt)
      ((omega arith, λ _. omega arith), tt) (omega arith) (omega arith)
