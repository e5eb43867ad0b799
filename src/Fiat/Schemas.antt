-- ===== src/Fiat/Schemas.antt =====
-- app/fiat/schemas.py.
use super_wallet.Base.{ℕ, String, leb, ◌&&◌, Option, none, some, List}
use super_wallet.Base.Int.{ℤ, pos, ltb_ℤ}
use super_wallet.Db.{Uuid, Timestamp, Json}
use super_wallet.Http.{check, count, ◌>>=◌}

-- `CreateWalletRequest(currency=…)`, `"USD"` where the field is not sent.
unfoldable pub create_wallet_request : Option String → Option String
create_wallet_request none = some "USD"
create_wallet_request (some currency) =
    check (leb 3 (count currency) && leb (count currency) 3) currency

pub record MovementRequest : Type 0 where
  pub amount_minor : ℤ
  pub idempotency_key : String

-- `DepositRequest(…)` and `WithdrawRequest(…)`, which have the same fields.
unfoldable pub movement_request : ℤ → String → Option MovementRequest
movement_request amount_minor idempotency_key = do
  positive ← check (ltb_ℤ (pos 0) amount_minor) amount_minor
  key ← check (leb (count idempotency_key) 255) idempotency_key
  some (record { amount_minor = positive; idempotency_key = key })

pub record TransferRequest : Type 0 where
  pub from_wallet_id : Uuid
  pub to_wallet_id : Uuid
  pub amount_minor : ℤ
  pub idempotency_key : String

unfoldable pub transfer_request : Uuid → Uuid → ℤ → String → Option TransferRequest
transfer_request from_wallet_id to_wallet_id amount_minor idempotency_key = do
  positive ← check (ltb_ℤ (pos 0) amount_minor) amount_minor
  key ← check (leb (count idempotency_key) 255) idempotency_key
  some (record {
    from_wallet_id = from_wallet_id;
    to_wallet_id = to_wallet_id;
    amount_minor = positive;
    idempotency_key = key;
  })

pub record WalletResponse : Type 0 where
  pub id : Uuid
  pub user_id : Uuid
  pub currency : String
  pub balance_minor : ℤ
  pub status : String
  pub created_at : Timestamp
  pub updated_at : Timestamp

pub record TransactionResponse : Type 0 where
  pub id : Uuid
  pub idempotency_key : String
  pub type : String
  pub status : String
  pub amount_minor : ℤ
  pub currency : String
  pub metadata : Option Json
  pub created_at : Timestamp

pub record TransactionListResponse : Type 0 where
  pub items : List TransactionResponse
  pub total : ℕ
  pub limit : ℕ
  pub offset : ℕ

-- `Query(default=50, ge=1, le=200)` and `Query(default=0, ge=0)`; an offset is no negative number.
unfoldable pub page_limit : Option ℕ → Option ℕ
page_limit none = some 50
page_limit (some limit) = check (leb 1 limit && leb limit 200) limit

unfoldable pub page_offset : Option ℕ → ℕ
page_offset none = 0
page_offset (some offset) = offset
