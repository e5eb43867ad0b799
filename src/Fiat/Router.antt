-- ===== src/Fiat/Router.antt =====
-- The handlers of app/fiat/router.py, for the user that the token names. A body has passed its
-- request model.
pub mod Requests
use super_wallet.Base.{ℕ, String, Option, none, some, List, map}
use super_wallet.Errors.{Error}
use super_wallet.Db.{
  Server, Uuid, WalletRecord, TransactionRecord, Action, pure, raise, ◌>>=◌, ◌>>◌,
}
use super_wallet.Users.UserRepository.{UserRecord}
use super_wallet.Fiat.WalletService
use super_wallet.Fiat.DepositService
use super_wallet.Fiat.WithdrawalService
use super_wallet.Fiat.TransferService
use super_wallet.Fiat.TransactionRepository
use super_wallet.Fiat.Schemas.{
  MovementRequest, TransferRequest, WalletResponse, TransactionResponse, TransactionListResponse,
}

-- `_wallet_to_response`
unfoldable pub wallet_to_response : WalletRecord → WalletResponse
wallet_to_response w = record {
  id = w.id;
  user_id = w.user_id;
  currency = w.currency;
  balance_minor = w.balance_minor;
  status = w.status;
  created_at = w.created_at;
  updated_at = w.updated_at;
}

-- `_tx_to_response`
unfoldable pub tx_to_response : TransactionRecord → TransactionResponse
tx_to_response t = record {
  id = t.id;
  idempotency_key = t.idempotency_key;
  type = t.type;
  status = t.status;
  amount_minor = t.amount_minor;
  currency = t.currency;
  metadata = t.metadata;
  created_at = t.created_at;
}

-- A service may return `None`, whose attributes cannot be read.
abbrev pub answered : Option TransactionRecord → Action TransactionResponse
answered none = raise Error.attribute_error
answered (some t) = pure (tx_to_response t)

unfoldable pub create_wallet : Server → UserRecord → String → Action WalletResponse
create_wallet server current_user currency = do
  wallet ← WalletService.create_wallet server current_user.id currency
  pure (wallet_to_response wallet)

unfoldable pub list_wallets : UserRecord → Action (List WalletResponse)
list_wallets current_user = do
  wallets ← WalletService.list_wallets current_user.id
  pure (map wallet_to_response wallets)

unfoldable pub get_wallet : UserRecord → Uuid → Action WalletResponse
get_wallet current_user wallet_id = do
  wallet ← WalletService.get_wallet wallet_id current_user.id
  pure (wallet_to_response wallet)

unfoldable pub deposit : Server → UserRecord → Uuid → MovementRequest → Action TransactionResponse
deposit server current_user wallet_id body = do
  tx ←
      DepositService.deposit server wallet_id current_user.id body.amount_minor body.idempotency_key
  answered tx

unfoldable pub withdraw : Server → UserRecord → Uuid → MovementRequest → Action TransactionResponse
withdraw server current_user wallet_id body = do
  tx ←
      WithdrawalService.withdraw server wallet_id current_user.id body.amount_minor
        body.idempotency_key
  answered tx

unfoldable pub transfer : Server → UserRecord → TransferRequest → Action TransactionResponse
transfer server current_user body = do
  tx ←
      TransferService.transfer server body.from_wallet_id body.to_wallet_id current_user.id
        body.amount_minor body.idempotency_key
  answered tx

unfoldable pub list_transactions :
    (List TransactionRecord → List TransactionRecord)
    → UserRecord
    → Uuid
    → ℕ
    → ℕ
    → Action TransactionListResponse
list_transactions scan current_user wallet_id limit offset = do
  _ ← WalletService.get_wallet wallet_id current_user.id
  items ← TransactionRepository.list_for_wallet scan wallet_id limit offset
  total ← TransactionRepository.count_for_wallet wallet_id
  pure (record { items = map tx_to_response items; total = total; limit = limit; offset = offset })
