-- ===== src/Db/Rows.antt =====
-- The rows of the tables, with the columns that the migrations create. A UUID and a point in time
-- are numbers: the code only compares them.
use super_wallet.Base.{ℕ, String, Bool, Option, List}
use super_wallet.Base.Int.{ℤ}

abbrev pub Uuid : Type 0
Uuid = ℕ

abbrev pub Timestamp : Type 0
Timestamp = ℕ

-- A JSON value of a `metadata` or `payload` column. `uuid` is `str(…)` of an id.
pub data Value : Type 0 where
  text : String → Value
  num : ℤ → Value
  uuid : Uuid → Value
  texts : List String → Value

abbrev pub Json : Type 0
Json = List (String × Value)

pub record WalletRecord : Type 0 where
  pub id : Uuid
  pub user_id : Uuid
  pub currency : String
  pub balance_minor : ℤ
  pub status : String
  pub created_at : Timestamp
  pub updated_at : Timestamp

pub record TransactionRecord : Type 0 where
  pub id : Uuid
  pub idempotency_key : String
  pub type : String
  pub status : String
  pub amount_minor : ℤ
  pub currency : String
  pub metadata : Option Json
  pub created_at : Timestamp

pub record LedgerEntryRecord : Type 0 where
  pub id : Uuid
  pub transaction_id : Uuid
  pub wallet_id : Uuid
  pub amount_minor : ℤ
  pub direction : String
  pub balance_after : ℤ
  pub created_at : Timestamp

pub record AuditLog : Type 0 where
  pub user_id : Option Uuid
  pub event_type : String
  pub ip_address : Option String
  pub user_agent : Option String
  pub metadata : Option Json
  pub created_at : Timestamp

-- A row of `users`: every column, where `UserRecord` has those that the repository selects.
pub record UserRow : Type 0 where
  pub id : Uuid
  pub username : String
  pub email : String
  pub hashed_password : String
  pub failed_login_count : ℕ
  pub locked_until : Option Timestamp
  pub totp_enabled : Bool
  pub totp_secret_encrypted : Option String
  pub email_verified : Bool
  pub is_active : Bool
  pub deleted_at : Option Timestamp
  pub created_at : Timestamp

pub record SessionRow : Type 0 where
  pub id : Uuid
  pub user_id : Uuid
  pub refresh_token_hash : String
  pub device_info : Option String
  pub ip_address : Option String
  pub created_at : Timestamp
  pub expires_at : Timestamp
  pub revoked_at : Option Timestamp
  pub revoked_reason : Option String
  pub replaced_by_session_id : Option Uuid

pub record VerificationTokenRow : Type 0 where
  pub id : Uuid
  pub user_id : Uuid
  pub token_hash : String
  pub type : String
  pub ip_address : Option String
  pub expires_at : Timestamp
  pub used_at : Option Timestamp
  pub created_at : Timestamp

pub record OutboxEventRow : Type 0 where
  pub id : Uuid
  pub event_type : String
  pub payload : Json
  pub status : String
  pub attempts : ℕ
  pub last_error : Option String
  pub created_at : Timestamp
  pub processed_at : Option Timestamp
