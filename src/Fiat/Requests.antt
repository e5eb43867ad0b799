-- ===== src/Fiat/Requests.antt =====
-- The calls that app/fiat/router.py makes of the services that write, as data.
pub mod Atomicity
pub mod Idempotency
use super_wallet.Base.{String, Option, some}
use super_wallet.Base.Int.{ℤ}
use super_wallet.Db.{Server, Uuid, WalletRecord, TransactionRecord, Action, pure, ◌>>=◌}
use super_wallet.Fiat.DepositService.{deposit}
use super_wallet.Fiat.WithdrawalService.{withdraw}
use super_wallet.Fiat.TransferService.{transfer}

-- The three calls that carry an idempotency key.
pub data Movement : Type 0 where
  deposits withdraws : Uuid → ℤ → Movement
  transfers : Uuid → Uuid → ℤ → Movement

unfoldable pub perform : Server → Uuid → String → Movement → Action (Option TransactionRecord)
perform server user_id key (deposits wallet_id amount_minor) =
    deposit server wallet_id user_id amount_minor key
perform server user_id key (withdraws wallet_id amount_minor) =
    withdraw server wallet_id user_id amount_minor key
perform server user_id key (transfers from_wallet_id to_wallet_id amount_minor) =
    transfer server from_wallet_id to_wallet_id user_id amount_minor key
