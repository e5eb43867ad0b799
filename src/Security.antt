-- ===== src/Security.antt =====
-- app/core/security.py and app/users/security.py over the packages that they call.
pub mod Tokens
pub mod Users
pub mod Lockout
pub mod Roundtrip
pub mod Purposes
pub mod Encryption
pub mod BackupCodes
use super_wallet.Base.{ℕ, String, Bool, Option, List}
use super_wallet.Db.{Server, Timestamp, Uuid, Json, Value}

-- How `PasswordHasher.verify` ends: it returns, or raises `VerifyMismatchError`, or, at what is no
-- hash, a `ValueError`.
pub data Verification : Type 0 where
  matches mismatch invalid_hash : Verification

-- The packages, as one call meets them. Bytes are texts. A point in time counts microseconds, and
-- `utc_now` is the clock of the process, where `Server.now` is that of the database.
pub record Platform : Type 0 where
  pub server : Server
  pub utc_now : Timestamp
  pub argon2_hash : String → String
  pub argon2_verify : String → String → Verification
  pub argon2_check_needs_rehash : String → Bool
  pub split_dots : String → List String
  pub json_dumps : Json → String
  pub json_loads : String → Option Json
  pub urlsafe_b64encode : String → String
  pub urlsafe_b64decode : String → Option String
  pub hmac_sha256 : String → String → String
  pub sha256_hexdigest : String → String
  pub token_urlsafe : String
  pub token_hex : ℕ → String
  pub random_base32 : String
  pub fernet_encrypt : String → String
  pub fernet_decrypt : String → Option String
  pub totp_verify : String → String → Bool
  pub provisioning_uri : String → String → String → String
  pub uuid_of : Value → Option Uuid
  pub signing_key : String
