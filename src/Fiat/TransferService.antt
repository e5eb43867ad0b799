-- ===== src/Fiat/TransferService.antt =====
-- class TransferService of app/fiat/service.py.
pub mod Outcome
pub mod Effect
use super_wallet.Base.{String, str_eq, ◌==◌, not, Option, none, some, List, [], ◌∷◌, if◌then◌else◌}
use super_wallet.Base.Int.{ℤ, pos, ◌+ℤ◌, ◌-ℤ◌, ltb_ℤ}
use super_wallet.Errors.{
  fiat, app, wallet_not_found, insufficient_funds, currency_mismatch, same_wallet_transfer,
}
use super_wallet.Db.{
  Server, WalletRecord, TransactionRecord, Uuid, text, num, uuid, Action, pure, raise, raise_if,
  transaction, ◌>>=◌, ◌>>◌,
}
use super_wallet.Audit.{log_audit_event}
use super_wallet.Fiat.WalletRepository
use super_wallet.Fiat.TransactionRepository
use super_wallet.Fiat.LedgerEntryRepository
use super_wallet.Fiat.Service.{wallet_map, unless_existing, unless_conflict}

abbrev pub known : Option WalletRecord → Action WalletRecord
known none = raise (fiat wallet_not_found)
known (some wallet) = pure wallet

-- The writes, for the locked `sender` and `receiver` that have passed every test.
unfoldable pub transfer_posting :
    Server
    → Uuid
    → Uuid
    → Uuid
    → ℤ
    → String
    → WalletRecord
    → WalletRecord
    → Action (Option TransactionRecord)
transfer_posting server from_wallet_id to_wallet_id user_id amount_minor key sender receiver = do
  let sender_new_balance = sender.balance_minor -ℤ amount_minor
  let receiver_new_balance = receiver.balance_minor +ℤ amount_minor
  created ←
      TransactionRepository.create server.now (server.gen_random_uuid 0) key "transfer" amount_minor
        sender.currency
        (some (("from_wallet_id", uuid from_wallet_id) ∷ ("to_wallet_id", uuid to_wallet_id) ∷ []))
  unless_conflict key created λ tx. do
    WalletRepository.update_balance server.now from_wallet_id sender_new_balance
    LedgerEntryRepository.create server.now (server.gen_random_uuid 1) tx.id from_wallet_id
        (pos 0 -ℤ amount_minor) "debit" sender_new_balance
    WalletRepository.update_balance server.now to_wallet_id receiver_new_balance
    LedgerEntryRepository.create server.now (server.gen_random_uuid 2) tx.id to_wallet_id
        amount_minor "credit" receiver_new_balance
    log_audit_event server (some user_id) "wallet_transfer" none none (
        some (
          ("from_wallet_id", uuid from_wallet_id)
          ∷ ("to_wallet_id", uuid to_wallet_id)
          ∷ ("amount_minor", num amount_minor)
          ∷ ("currency", text sender.currency)
          ∷ ("idempotency_key", text key)
          ∷ []))
    pure (some tx)

unfoldable pub transfer_body :
    Server → Uuid → Uuid → Uuid → ℤ → String → Action (Option TransactionRecord)
transfer_body server from_wallet_id to_wallet_id user_id amount_minor key = do
  wallets ← WalletRepository.get_and_lock_multiple (from_wallet_id ∷ to_wallet_id ∷ [])
  sender ← known (wallet_map wallets from_wallet_id)
  receiver ← known (wallet_map wallets to_wallet_id)
  raise_if (not (sender.user_id == user_id)) (fiat wallet_not_found)
  raise_if (not (str_eq sender.currency receiver.currency))
      (fiat (currency_mismatch sender.currency receiver.currency))
  raise_if (ltb_ℤ sender.balance_minor amount_minor)
      (fiat (insufficient_funds sender.balance_minor amount_minor))
  transfer_posting server from_wallet_id to_wallet_id user_id amount_minor key sender receiver

unfoldable pub transfer :
    Server → Uuid → Uuid → Uuid → ℤ → String → Action (Option TransactionRecord)
transfer server from_wallet_id to_wallet_id user_id amount_minor key = do
  raise_if (from_wallet_id == to_wallet_id) (fiat same_wallet_transfer)
  existing ← TransactionRepository.get_by_idempotency_key key
  unless_existing existing
      (transaction (transfer_body server from_wallet_id to_wallet_id user_id amount_minor key))
