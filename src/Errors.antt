-- ===== src/Errors.antt =====
-- The exceptions: the classes of app/users/exception.py and the fiat classes of
-- app/fiat/service.py, with the Python and asyncpg errors that the code can also raise.
pub mod Codes
use super_wallet.Base.{ℕ, String, Option}
use super_wallet.Base.Int.{ℤ}

-- `class RefreshTokenInvalidReason(str, enum.Enum)`
pub data RefreshTokenInvalidReason : Type 0 where
  expired revoked reused malformed missing : RefreshTokenInvalidReason

-- The subclasses of `FiatError`, in app/fiat/service.py.
pub data FiatError : Type 0 where
  wallet_not_found : FiatError
  wallet_already_exists : String → FiatError
  insufficient_funds : ℤ → ℤ → FiatError
  currency_mismatch : String → String → FiatError
  same_wallet_transfer : FiatError

-- The concrete subclasses of `AppError`, each with the arguments of its constructor.
pub data AppError : Type 0 where
  fiat_error : FiatError → AppError
  email_already_exists : String → AppError
  username_already_exists : String → AppError
  login_error : Option String → AppError
  account_locked : Option ℕ → Option ℕ → AppError
  totp_required : Option ℕ → AppError
  invalid_totp : Option ℕ → AppError
  invalid_refresh_token : RefreshTokenInvalidReason → Option String → Option String → AppError
  session_expired : ℕ → Option ℕ → AppError
  session_not_found : String → AppError
  invalid_verification_token : String → AppError
  password_reset_token_invalid : String → AppError
  user_not_found : AppError
  same_password : AppError
  user_already_deactivated : AppError
  incorrect_current_password : AppError

-- What a call can raise: an `AppError`, or an error of Python or of the database driver. A
-- violated constraint is named.
pub data Error : Type 0 where
  app : AppError → Error
  type_error attribute_error key_error value_error assertion_error data_error : Error
  http_unauthorized : Error
  unique_violation check_violation foreign_key_violation : String → Error

abbrev pub fiat : FiatError → Error
fiat e = app (AppError.fiat_error e)
