-- ===== src/Fiat/Effect.antt =====
-- What a client can read after a movement: the balances, the transactions and the ledger.
use mathlib.Core.Bool.{false≢true}
use super_wallet.Base.{
  ◌≡◌, ◌≢◌, refl, sym, ◌∙◌, subst, String, false, Option, some, List, [], ◌∷◌, ◌++◌, arith,
}
use super_wallet.Base.Int.{ℤ, pos, ◌≤ℤ◌}
use super_wallet.Base.Table.{find_row, update_rows}
use super_wallet.Db.{
  Db, Uuid, Timestamp, WalletRecord, TransactionRecord, LedgerEntryRecord, AuditLog,
}
use super_wallet.Fiat.WalletRepository
use super_wallet.Fiat.WalletRepository.{with_balance}
use super_wallet.Fiat.Posting.{has_key}
use super_wallet.Fiat.Outcome.{Posted, Replayed}
use super_wallet.Fiat.Invariant.Wallets.{find_row-set_balance_self}
use super_wallet.Fiat.Invariant.Writes.{nonneg_of_covered}

-- The row of a wallet.
abbrev pub wallet_row : Uuid → Db → Option WalletRecord
wallet_row id db = find_row (WalletRepository.has_id id) db.wallets

pub wallet_row-set_balance_other :
    (now : Timestamp) (b : ℤ) (a k : Uuid) (ws : List WalletRecord)
    → k ≢ a
    → find_row
        (WalletRepository.has_id k)
        (update_rows (WalletRepository.has_id a) (with_balance now b) ws)
      ≡ find_row (WalletRepository.has_id k) ws
wallet_row-set_balance_other now b a k [] apart = refl
wallet_row-set_balance_other now b a k (w ∷ ws) apart =
    ground (arith, wallet_row-set_balance_other now b a k ws apart)

-- One wallet, of `w`, moved: its balance is the entry's `balance_after`, no other wallet changed,
-- and the transaction and the entry were appended.
pub record Moved (now : Timestamp) (tx : TransactionRecord) (w : WalletRecord)
    (e : LedgerEntryRecord) (db db' : Db) : Type 0 where
  pub before : wallet_row e.wallet_id db ≡ some w
  pub balance : wallet_row e.wallet_id db' ≡ some (with_balance now e.balance_after w)
  pub nonneg : pos 0 ≤ℤ e.balance_after
  pub others : (k : Uuid) → k ≢ e.wallet_id → wallet_row k db' ≡ wallet_row k db
  pub transactions : db'.transactions ≡ db.transactions ++ tx ∷ []
  pub ledger : db'.ledger_entries ≡ db.ledger_entries ++ e ∷ []

pub Posted-Moved :
    {now : Timestamp} {tx : TransactionRecord} {w : WalletRecord} {e : LedgerEntryRecord}
    {a : AuditLog} {r : Option TransactionRecord} {db db' : Db}
    → Posted now tx w e a r db db'
    → Moved now tx w e db db'
Posted-Moved {now} {tx} {w} {e} {a} {r} {db} {db'} p =
    subst (Moved now tx w e db) (sym p.after) (record {
      before = p.found;
      balance = find_row-set_balance_self now e.wallet_id e.balance_after db w p.found;
      nonneg = nonneg_of_covered e.balance_after p.entry.covered;
      others = λ k apart.
          wallet_row-set_balance_other now e.balance_after e.wallet_id k db.wallets apart;
      transactions = refl;
      ledger = refl;
    })

-- A new key is not a replay.
pub not-Replayed :
    {key : String} {r : Option TransactionRecord} {db db' : Db}
    → has_key key db ≡ false
    → ¬ Replayed key r db db'
not-Replayed new p = false≢true (sym new ∙ p.known)
