-- ===== src/Fiat/Invariant/Bounds.antt =====
-- The BIGINT columns of the fiat tables in every state that the transactions reach.
use super_wallet.Base.{
  ◌≡◌, refl, sym, subst, inl, inr, String, Option, true, List, [], ◌∷◌, All, All-append, arith,
}
use super_wallet.Base.Int.{ℤ, pos, ◌≤ℤ◌}
use super_wallet.Base.Table.{update_rows}
use super_wallet.Db.{
  AuditLog, Db, Server, Uuid, Timestamp, WalletRecord, TransactionRecord, LedgerEntryRecord,
}
use super_wallet.Db.Post.{transaction_keeps, Post, Post-weaken}
use super_wallet.Fiat.Columns.{fits_bigint}
use super_wallet.Fiat.WalletRepository
use super_wallet.Fiat.WalletRepository.{with_balance}
use super_wallet.Fiat.Posting.{add_transaction, post_entry, Inserted, EntryPosted}
use super_wallet.Fiat.Outcome.{Posted, Replayed}
use super_wallet.Fiat.DepositService.{deposit_body}
use super_wallet.Fiat.DepositService.Outcome.{Deposited, deposit_body-outcome}
use super_wallet.Fiat.WithdrawalService.{withdraw_body}
use super_wallet.Fiat.WithdrawalService.Outcome.{Withdrawn, withdraw_body-outcome}
use super_wallet.Fiat.TransferService.{transfer_body}
use super_wallet.Fiat.TransferService.Outcome.{
  transfer_body-outcome, Transferred, transfer_tx, debit_entry, credit_entry, debited,
}
use super_wallet.Fiat.WalletService.{create_body}
use super_wallet.Fiat.WalletService.Outcome.{
  add_wallet, created_wallet, create_body-outcome, WalletCreated,
}
use super_wallet.Fiat.Invariant.Writes.{IsConsistent, nonneg_of_covered}
use super_wallet.Fiat.Invariant.Steps.{
  Step, Reach, Step-IsConsistent, creates_wallet, deposits, withdraws, transfers, here, next,
}
use super_wallet.Audit.{add_audit}

abbrev WalletFits : WalletRecord → Type 0
WalletFits w = fits_bigint w.balance_minor ≡ true

-- An entry's two numbers are BIGINTs, and the balance that it records is not negative.
pub record EntryFits (e : LedgerEntryRecord) : Type 0 where
  pub amount : fits_bigint e.amount_minor ≡ true
  pub balance : fits_bigint e.balance_after ≡ true
  pub nonneg : pos 0 ≤ℤ e.balance_after

-- Every amount and balance that is stored fits its column.
pub record IsBounded (db : Db) : Type 0 where
  pub wallets : All WalletFits db.wallets
  pub transactions : All (λ t. fits_bigint t.amount_minor ≡ true) db.transactions
  pub entries : All EntryFits db.ledger_entries

with_balance-WalletFits :
    (now : Timestamp) (id : Uuid) (b : ℤ) (ws : List WalletRecord)
    → fits_bigint b ≡ true
    → All WalletFits ws
    → All WalletFits (update_rows (WalletRepository.has_id id) (with_balance now b) ws)
with_balance-WalletFits now id b [] fits h = tt
with_balance-WalletFits now id b (w ∷ ws) fits h =
    ground (arith, with_balance-WalletFits now id b ws fits h.1)

add_transaction-IsBounded :
    (t : TransactionRecord) (db : Db)
    → IsBounded db
    → Inserted t db
    → IsBounded (add_transaction t db)
add_transaction-IsBounded t db c i = record {
  wallets = c.wallets;
  transactions =
      All-append (λ (x : TransactionRecord). fits_bigint x.amount_minor ≡ true) db.transactions
        (t ∷ []) c.transactions (i.fits, tt);
  entries = c.entries;
}

-- An entry is written with the balance that it sets.
post_entry-IsBounded :
    (now : Timestamp) (e : LedgerEntryRecord) (db at : Db)
    → IsBounded db
    → EntryPosted e.balance_after e at
    → IsBounded (post_entry now e.balance_after e db)
post_entry-IsBounded now e db at c p = record {
  wallets = with_balance-WalletFits now e.wallet_id e.balance_after db.wallets p.fits c.wallets;
  transactions = c.transactions;
  entries = All-append EntryFits db.ledger_entries (e ∷ []) c.entries (
    record {
      amount = p.amount_fits;
      balance = p.fits;
      nonneg = nonneg_of_covered e.balance_after p.covered;
    },
    tt,
  );
}

add_audit-IsBounded : (a : AuditLog) (db : Db) → IsBounded db → IsBounded (add_audit a db)
add_audit-IsBounded a db c = record {
  wallets = c.wallets;
  transactions = c.transactions;
  entries = c.entries;
}

Posted-IsBounded :
    (now : Timestamp) {tx : TransactionRecord} {w : WalletRecord} {e : LedgerEntryRecord}
    {a : AuditLog} {r : Option TransactionRecord} {db db' : Db}
    → Posted now tx w e a r db db'
    → IsBounded db
    → IsBounded db'
Posted-IsBounded now {tx} {w} {e} {a} {r} {db} {db'} p c = subst IsBounded (sym p.after) (
    add_audit-IsBounded a _ (
      post_entry-IsBounded now e (add_transaction tx db) (add_transaction tx db)
        (add_transaction-IsBounded tx db c p.inserted) p.entry))

Replayed-IsBounded :
    {key : String} {r : Option TransactionRecord} {db db' : Db}
    → Replayed key r db db'
    → IsBounded db
    → IsBounded db'
Replayed-IsBounded p c = subst IsBounded (sym p.after) c

module _ (server : Server) (wallet_id user_id : Uuid) (amount_minor : ℤ) (key : String) where
  deposit_body-IsBounded :
      (db : Db)
      → IsBounded db
      → Post (λ _. IsBounded) (deposit_body server wallet_id user_id amount_minor key db)
  deposit_body-IsBounded db c =
      Post-weaken (Deposited server wallet_id user_id amount_minor key db) (λ _. IsBounded) _
        (deposit_body-outcome server wallet_id user_id amount_minor key db)
        λ r db' o. elim o [
          | inl replay ↦ Replayed-IsBounded replay c
          | inr (w, mine, p) ↦ Posted-IsBounded server.now p c
        ]

  withdraw_body-IsBounded :
      (db : Db)
      → IsBounded db
      → Post (λ _. IsBounded) (withdraw_body server wallet_id user_id amount_minor key db)
  withdraw_body-IsBounded db c =
      Post-weaken (Withdrawn server wallet_id user_id amount_minor key db) (λ _. IsBounded) _
        (withdraw_body-outcome server wallet_id user_id amount_minor key db)
        λ r db' o. elim o [
          | inl replay ↦ Replayed-IsBounded replay c
          | inr (w, mine, enough, p) ↦ Posted-IsBounded server.now p c
        ]

module _ (server : Server) (from_wallet_id to_wallet_id user_id : Uuid) (amount_minor : ℤ)
    (key : String) where
  transfer_body-IsBounded :
      (db : Db)
      → IsConsistent db
      → IsBounded db
      → Post
          (λ _. IsBounded)
          (transfer_body server from_wallet_id to_wallet_id user_id amount_minor key db)
  transfer_body-IsBounded db ids c =
      Post-weaken (Transferred server from_wallet_id to_wallet_id user_id amount_minor key db)
        (λ _. IsBounded) _
        (transfer_body-outcome server from_wallet_id to_wallet_id user_id amount_minor key db
          ids.unique_ids)
        λ r db' o. elim o [
          | inl replay ↦ Replayed-IsBounded replay c
          | inr (s, t, p) ↦ subst IsBounded (sym p.after) (
              add_audit-IsBounded _ _ (
                post_entry-IsBounded server.now
                  (credit_entry server from_wallet_id to_wallet_id user_id amount_minor key t)
                  (debited server from_wallet_id to_wallet_id user_id amount_minor key s db) _
                  (post_entry-IsBounded server.now
                    (debit_entry server from_wallet_id to_wallet_id user_id amount_minor key s)
                    (add_transaction
                      (transfer_tx server from_wallet_id to_wallet_id user_id amount_minor key s)
                      db)
                    _ (add_transaction-IsBounded _ db c p.inserted) p.debit)
                  p.credit))
        ]

create_body-IsBounded :
    (server : Server) (user_id : Uuid) (currency : String) (db : Db)
    → IsBounded db
    → Post (λ _. IsBounded) (create_body server user_id currency db)
unfolding fits_bigint
create_body-IsBounded server user_id currency db c =
    Post-weaken (WalletCreated server user_id currency db) (λ _. IsBounded) _
      (create_body-outcome server user_id currency db)
      λ r db' p. subst IsBounded (sym p.after) (
        add_audit-IsBounded _ (add_wallet (created_wallet server user_id currency) db) record {
          wallets =
              All-append WalletFits db.wallets (created_wallet server user_id currency ∷ [])
                c.wallets (refl, tt);
          transactions = c.transactions;
          entries = c.entries;
        })

Step-IsBounded : {db db' : Db} → Step db db' → IsConsistent db → IsBounded db → IsBounded db'
Step-IsBounded (creates_wallet server user_id currency db) _ c =
    transaction_keeps IsBounded (create_body server user_id currency) db c
      (create_body-IsBounded server user_id currency db c)
Step-IsBounded (deposits server wallet_id user_id amount_minor key db) _ c =
    transaction_keeps IsBounded (deposit_body server wallet_id user_id amount_minor key) db c
      (deposit_body-IsBounded server wallet_id user_id amount_minor key db c)
Step-IsBounded (withdraws server wallet_id user_id amount_minor key db) _ c =
    transaction_keeps IsBounded (withdraw_body server wallet_id user_id amount_minor key) db c
      (withdraw_body-IsBounded server wallet_id user_id amount_minor key db c)
Step-IsBounded (transfers server from_wallet_id to_wallet_id user_id amount_minor key db apart) ids
      c =
    transaction_keeps IsBounded
      (transfer_body server from_wallet_id to_wallet_id user_id amount_minor key) db c
      (transfer_body-IsBounded server from_wallet_id to_wallet_id user_id amount_minor key db ids c)

Reach-both :
    {start db : Db}
    → Reach start db
    → IsConsistent start
    → IsBounded start
    → IsConsistent db × IsBounded db
Reach-both here ids c = (ids, c)
Reach-both (next r s) ids c =
    let (before, fits) = Reach-both r ids c in
    (Step-IsConsistent s before, Step-IsBounded s before fits)

-- Whatever transactions of the four services commit, and in whatever order, starting from consistent
-- tables whose amounts fit their columns: every stored balance, transaction amount and entry is a
-- 64-bit signed integer, and no entry records a negative balance.
pub Reach-IsBounded :
    {start db : Db} → Reach start db → IsConsistent start → IsBounded start → IsBounded db
Reach-IsBounded r ids c = (Reach-both r ids c).1
