-- ===== src/Fiat/WalletService.antt =====
-- class WalletService of app/fiat/service.py.
pub mod Outcome
use super_wallet.Base.{String, Option, none, some, List, [], ◌∷◌}
use super_wallet.Base.Table.{find_row}
use super_wallet.Errors.{fiat, app, wallet_already_exists}
use super_wallet.Db.{
  Server, WalletRecord, Uuid, text, uuid, Action, pure, raise, gets, transaction, ◌>>=◌, ◌>>◌,
}
use super_wallet.Audit.{log_audit_event}
use super_wallet.Base.Text.{upper}
use super_wallet.Fiat.WalletRepository
use super_wallet.Fiat.Service.{owned_by}

-- `if existing: raise WalletAlreadyExistsError(currency)`
abbrev pub refuse_existing : String → Option WalletRecord → Action Unit
refuse_existing currency none = pure tt
refuse_existing currency (some _) = raise (fiat (wallet_already_exists currency))

-- the block of `create_wallet` under `async with self.conn.transaction()`
unfoldable pub create_body : Server → Uuid → String → Action WalletRecord
create_body server user_id currency = do
  wallet ← WalletRepository.create server.now (server.gen_random_uuid 0) user_id currency
  log_audit_event server (some user_id) "wallet_created" none none
      (some (("wallet_id", uuid wallet.id) ∷ ("currency", text currency) ∷ []))
  pure wallet

unfoldable pub create_wallet : Server → Uuid → String → Action WalletRecord
create_wallet server user_id currency = do
  let currency' = upper currency
  existing ← gets (λ db. find_row (WalletRepository.owns_currency user_id currency') db.wallets)
  refuse_existing currency' existing
  transaction (create_body server user_id currency')

unfoldable pub list_wallets : Uuid → Action (List WalletRecord)
list_wallets user_id = WalletRepository.get_by_user user_id

unfoldable pub get_wallet : Uuid → Uuid → Action WalletRecord
get_wallet wallet_id user_id = do
  wallet ← WalletRepository.get_by_id wallet_id
  owned_by user_id wallet
