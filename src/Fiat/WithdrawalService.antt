-- ===== src/Fiat/WithdrawalService.antt =====
-- class WithdrawalService of app/fiat/service.py.
pub mod Outcome
pub mod Effect
use super_wallet.Base.{String, Option, none, some}
use super_wallet.Base.Int.{ℤ, pos, ◌-ℤ◌, ltb_ℤ}
use super_wallet.Errors.{fiat, app, insufficient_funds}
use super_wallet.Db.{
  Server, TransactionRecord, Uuid, Action, pure, raise_if, transaction, ◌>>=◌, ◌>>◌,
}
use super_wallet.Audit.{log_audit_event}
use super_wallet.Fiat.WalletRepository
use super_wallet.Fiat.TransactionRepository
use super_wallet.Fiat.LedgerEntryRepository
use super_wallet.Fiat.Service.{owned_by, unless_existing, unless_conflict, metadata_of}

unfoldable pub withdraw_body : Server → Uuid → Uuid → ℤ → String → Action (Option TransactionRecord)
withdraw_body server wallet_id user_id amount_minor key = do
  locked ← WalletRepository.get_and_lock wallet_id
  wallet ← owned_by user_id locked
  raise_if (ltb_ℤ wallet.balance_minor amount_minor)
      (fiat (insufficient_funds wallet.balance_minor amount_minor))
  let new_balance = wallet.balance_minor -ℤ amount_minor
  created ←
      TransactionRepository.create server.now (server.gen_random_uuid 0) key "withdrawal"
        amount_minor wallet.currency none
  unless_conflict key created λ tx. do
    WalletRepository.update_balance server.now wallet_id new_balance
    LedgerEntryRepository.create server.now (server.gen_random_uuid 1) tx.id wallet_id
        (pos 0 -ℤ amount_minor) "debit" new_balance
    log_audit_event server (some user_id) "wallet_withdrawal" none none
        (some (metadata_of wallet_id amount_minor wallet.currency key))
    pure (some tx)

unfoldable pub withdraw : Server → Uuid → Uuid → ℤ → String → Action (Option TransactionRecord)
withdraw server wallet_id user_id amount_minor key = do
  existing ← TransactionRepository.get_by_idempotency_key key
  unless_existing existing (transaction (withdraw_body server wallet_id user_id amount_minor key))
