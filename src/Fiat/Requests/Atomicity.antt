-- ===== src/Fiat/Requests/Atomicity.antt =====
-- A call that raises leaves the tables as it found them.
use super_wallet.Base.{ap, sym, ◌≡◌, String, Option, none, some, ◌==◌}
use super_wallet.Base.Table.{find_row}
use super_wallet.Errors.{fiat, Error, same_wallet_transfer}
use super_wallet.Fiat.WalletService.{refuse_existing, create_wallet, create_body}
use super_wallet.Db.{
  ◌>>=◌, Db, Server, Uuid, Action, err, WalletRecord, TransactionRecord, transaction,
}
use super_wallet.Db.Post.{raise_if_raises, transaction_raises}
use super_wallet.Base.Text.{upper}
use super_wallet.Fiat.WalletRepository
use super_wallet.Fiat.TransactionRepository
use super_wallet.Fiat.DepositService.{deposit, deposit_body}
use super_wallet.Fiat.WithdrawalService.{withdraw, withdraw_body}
use super_wallet.Fiat.TransferService.{transfer, transfer_body}
use super_wallet.Fiat.Service.{unless_existing}
use super_wallet.Fiat.Requests.{Movement, deposits, withdraws, transfers, perform}

unless_existing_raises :
    (found : Option TransactionRecord) (body : Action (Option TransactionRecord)) (e : Error)
    (db db' : Db)
    → unless_existing found (transaction body) db ≡ (err e, db')
    → db' ≡ db
unless_existing_raises none body e db db' h = transaction_raises body e db db' h
unless_existing_raises (some t) body e db db' h = cc

refuse_existing_raises :
    (currency : String) (existing : Option WalletRecord) (body : Action WalletRecord) (e : Error)
    (db db' : Db)
    → (refuse_existing currency existing >>= λ _. transaction body) db ≡ (err e, db')
    → db' ≡ db
refuse_existing_raises currency none body e db db' h = transaction_raises body e db db' h
refuse_existing_raises currency (some w) body e db db' h = sym (ap (λ p. p.1) h)

-- A deposit, withdrawal or transfer that raises has changed no table: no balance, no transaction,
-- no ledger entry and no audit row.
pub perform_atomic :
    (server : Server) (user_id : Uuid) (key : String) (m : Movement) (e : Error) (db db' : Db)
    → perform server user_id key m db ≡ (err e, db')
    → db' ≡ db
unfolding perform deposit withdraw transfer TransactionRepository.get_by_idempotency_key
perform_atomic server user_id key (deposits wallet_id amount) e db db' h =
    unless_existing_raises (find_row (TransactionRepository.has_key key) db.transactions)
      (deposit_body server wallet_id user_id amount key) e db db' h
perform_atomic server user_id key (withdraws wallet_id amount) e db db' h =
    unless_existing_raises (find_row (TransactionRepository.has_key key) db.transactions)
      (withdraw_body server wallet_id user_id amount key) e db db' h
perform_atomic server user_id key (transfers from to amount) e db db' h =
    raise_if_raises (from == to) (fiat same_wallet_transfer)
      (λ db₁.
        unless_existing (find_row (TransactionRepository.has_key key) db₁.transactions)
          (transaction (transfer_body server from to user_id amount key)) db₁)
      e db db' h
      (unless_existing_raises (find_row (TransactionRepository.has_key key) db.transactions)
        (transfer_body server from to user_id amount key) e db db')

-- A `create_wallet` that raises has changed no table.
pub create_wallet_atomic :
    (server : Server) (user_id : Uuid) (currency : String) (e : Error) (db db' : Db)
    → create_wallet server user_id currency db ≡ (err e, db')
    → db' ≡ db
unfolding create_wallet
create_wallet_atomic server user_id currency e db db' h =
    refuse_existing_raises (upper currency)
      (find_row (WalletRepository.owns_currency user_id (upper currency)) db.wallets)
      (create_body server user_id (upper currency)) e db db' h
