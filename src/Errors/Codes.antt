-- ===== src/Errors/Codes.antt =====
-- The class attributes of the exceptions, the registry of app/users/exception.py and the handler of
-- app/main.py.
use super_wallet.Base.{
  str_eq, if◌then◌else◌, false, true, ◌++◌, Bool, ℕ, String, Option, none, some, List, [], ◌∷◌,
}
use super_wallet.Base.Int.{ℤ, pos}
use super_wallet.Errors.{FiatError, AppError, RefreshTokenInvalidReason}

unfoldable pub fiat_error_code : FiatError → String
fiat_error_code FiatError.wallet_not_found = "wallet_not_found"
fiat_error_code (FiatError.wallet_already_exists _) = "wallet_already_exists"
fiat_error_code (FiatError.insufficient_funds _ _) = "insufficient_funds"
fiat_error_code (FiatError.currency_mismatch _ _) = "currency_mismatch"
fiat_error_code FiatError.same_wallet_transfer = "same_wallet_transfer"

unfoldable pub error_code : AppError → String
error_code (AppError.fiat_error e) = fiat_error_code e
error_code (AppError.email_already_exists _) = "email_already_exists"
error_code (AppError.username_already_exists _) = "username_already_exists"
error_code (AppError.login_error _) = "invalid_credentials"
error_code (AppError.account_locked _ _) = "account_locked"
error_code (AppError.totp_required _) = "totp_required"
error_code (AppError.invalid_totp _) = "invalid_totp"
error_code (AppError.invalid_refresh_token _ _ _) = "invalid_refresh_token"
error_code (AppError.session_expired _ _) = "session_expired"
error_code (AppError.session_not_found _) = "session_not_found"
error_code (AppError.invalid_verification_token _) = "invalid_verification_token"
error_code (AppError.password_reset_token_invalid _) = "invalid_password_reset_token"
error_code AppError.user_not_found = "user_not_found"
error_code AppError.same_password = "same_password"
error_code AppError.user_already_deactivated = "user_already_deactivated"
error_code AppError.incorrect_current_password = "incorrect_current_password"

unfoldable pub fiat_http_status : FiatError → ℕ
fiat_http_status FiatError.wallet_not_found = 404
fiat_http_status (FiatError.wallet_already_exists _) = 409
fiat_http_status (FiatError.insufficient_funds _ _) = 422
fiat_http_status (FiatError.currency_mismatch _ _) = 422
fiat_http_status FiatError.same_wallet_transfer = 422

unfoldable pub http_status : AppError → ℕ
http_status (AppError.fiat_error e) = fiat_http_status e
http_status (AppError.email_already_exists _) = 409
http_status (AppError.username_already_exists _) = 409
http_status (AppError.login_error _) = 401
http_status (AppError.account_locked _ _) = 423
http_status (AppError.totp_required _) = 401
http_status (AppError.invalid_totp _) = 401
http_status (AppError.invalid_refresh_token _ _ _) = 401
http_status (AppError.session_expired _ _) = 401
http_status (AppError.session_not_found _) = 404
http_status (AppError.invalid_verification_token _) = 400
http_status (AppError.password_reset_token_invalid _) = 400
http_status AppError.user_not_found = 404
http_status AppError.same_password = 400
http_status AppError.user_already_deactivated = 409
http_status AppError.incorrect_current_password = 401

-- `RefreshTokenInvalidReason.….value`
unfoldable pub reason_value : RefreshTokenInvalidReason → String
reason_value RefreshTokenInvalidReason.expired = "expired"
reason_value RefreshTokenInvalidReason.revoked = "revoked"
reason_value RefreshTokenInvalidReason.reused = "reused"
reason_value RefreshTokenInvalidReason.malformed = "malformed"
reason_value RefreshTokenInvalidReason.missing = "missing"

-- `InvalidRefreshTokenError.is_reuse_attack`
unfoldable pub is_reuse_attack : RefreshTokenInvalidReason → Bool
is_reuse_attack RefreshTokenInvalidReason.reused = true
is_reuse_attack _ = false

-- A value of a `details` dictionary; `isoformat` is that of a point in time.
pub data Detail : Type 0 where
  text : String → Detail
  num : ℤ → Detail
  uuid isoformat : ℕ → Detail

abbrev pub when : {A : Type 0} → String → (A → Detail) → Option A → List (String × Detail)
when name f none = []
when name f (some a) = (name, f a) ∷ []

-- `if value:` of an optional text.
abbrev pub when_truthy : String → Option String → List (String × Detail)
when_truthy name none = []
when_truthy name (some value) = if str_eq value "" then [] else (name, text value) ∷ []

unfoldable pub fiat_details : FiatError → List (String × Detail)
fiat_details (FiatError.wallet_already_exists currency) = ("currency", text currency) ∷ []
fiat_details (FiatError.insufficient_funds available requested) =
    ("available_minor", num available) ∷ ("requested_minor", num requested) ∷ []
fiat_details (FiatError.currency_mismatch from to) =
    ("from_currency", text from) ∷ ("to_currency", text to) ∷ []
fiat_details _ = []

-- The `details` that a constructor passes to `AppError.__init__`.
unfoldable pub details : AppError → List (String × Detail)
details (AppError.fiat_error e) = fiat_details e
details (AppError.email_already_exists email) = ("email", text email) ∷ []
details (AppError.username_already_exists username) = ("username", text username) ∷ []
details (AppError.login_error email) = when_truthy "email" email
details (AppError.account_locked until attempts) =
    when "locked_until" isoformat until ++ when "failed_attempts" (λ n. num (pos n)) attempts
details (AppError.totp_required user_id) = when "user_id" uuid user_id
details (AppError.invalid_totp left) = when "attempts_remaining" (λ n. num (pos n)) left
details (AppError.invalid_refresh_token reason user_id token_family_id) =
    ("reason", text (reason_value reason))
    ∷ (when_truthy "user_id" user_id ++ when_truthy "token_family_id" token_family_id)
details (AppError.session_expired id at) = ("session_id", uuid id) ∷ when "expired_at" isoformat at
details (AppError.session_not_found id) = ("session_id", text id) ∷ []
details (AppError.invalid_verification_token reason) = ("reason", text reason) ∷ []
details (AppError.password_reset_token_invalid reason) = ("reason", text reason) ∷ []
details _ = []

-- `EXCEPTION_REGISTRY`: the codes of the classes that it is built from, in order.
abbrev pub registry : List String
registry =
    "email_already_exists" ∷ "username_already_exists" ∷ "invalid_credentials" ∷ "account_locked"
    ∷ "totp_required" ∷ "invalid_totp" ∷ "invalid_refresh_token" ∷ "session_expired"
    ∷ "session_not_found" ∷ "invalid_verification_token" ∷ "invalid_password_reset_token"
    ∷ "user_not_found" ∷ "same_password" ∷ "user_already_deactivated" ∷ "incorrect_current_password"
    ∷ []

-- What the global handler answers: the status, and the content of the JSON body.
pub record ErrorResponse : Type 0 where
  pub status_code : ℕ
  pub error : String
  pub details : List (String × Detail)

unfoldable pub app_error_handler : AppError → ErrorResponse
app_error_handler exc = record {
  status_code = http_status exc;
  error = error_code exc;
  details = details exc;
}
