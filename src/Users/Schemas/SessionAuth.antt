-- ===== src/Users/Schemas/SessionAuth.antt =====
-- app/users/schemas/session_auth.py.
use super_wallet.Base.{String, leb, Option, some, List}
use super_wallet.Db.{Uuid, Timestamp}
use super_wallet.Http.{Validators, check, count, ◌>>=◌}

-- `ResendVerificationRequest(email=…)` and `ForgotPasswordRequest(email=…)`: not normalised.
unfoldable pub email_request : Validators → String → Option String
email_request v email = v.validate_email email

pub record ResetPasswordRequest : Type 0 where
  pub token : String
  pub new_password : String

unfoldable pub reset_password_request : String → String → Option ResetPasswordRequest
reset_password_request token raw = do
  new_password ← check (leb 8 (count raw)) raw
  some (record { token = token; new_password = new_password })

pub record SessionOut : Type 0 where
  pub id : Uuid
  pub device_info : Option String
  pub ip_address : Option String
  pub created_at : Timestamp
  pub expires_at : Timestamp

pub record SessionListResponse : Type 0 where
  pub sessions : List SessionOut

pub record MessageResponse : Type 0 where
  pub message : String
