-- ===== src/Fiat/Invariant/Steps.antt =====
-- The fiat transactions as steps of the database, and that consistency holds in every state that
-- they reach, whatever their order.
use super_wallet.Base.{◌≢◌, ◌≡◌, refl, sym, subst, inl, inr, String, Option}
use super_wallet.Base.Int.{ℤ, pos, ◌+ℤ◌, ◌-ℤ◌, int_laws}
use super_wallet.Db.{
  transaction, AuditLog, Db, Server, Uuid, WalletRecord, TransactionRecord, LedgerEntryRecord,
}
use super_wallet.Db.Post.{transaction_keeps, Post, Post-weaken}
use super_wallet.Fiat.Posting.{add_transaction}
use super_wallet.Fiat.Outcome.{Posted, Replayed}
use super_wallet.Fiat.DepositService.{deposit_body}
use super_wallet.Fiat.DepositService.Outcome.{Deposited, deposit_body-outcome}
use super_wallet.Fiat.WithdrawalService.{withdraw_body}
use super_wallet.Fiat.WithdrawalService.Outcome.{Withdrawn, withdraw_body-outcome}
use super_wallet.Fiat.Invariant.Writes.{
  IsConsistent, add_transaction-IsConsistent, post_entry-IsConsistent, add_audit-IsConsistent,
}
use super_wallet.Fiat.TransferService.Outcome.{
  transfer_body-outcome, Transferred, transfer_tx, debit_entry, credit_entry, debited,
  TransferPosted,
}
use super_wallet.Fiat.Invariant.Wallets.{add_wallet-IsConsistent, find_row-set_balance_ne}
use super_wallet.Fiat.TransferService.{transfer_body}
use super_wallet.Fiat.WalletService.{create_body}
use super_wallet.Fiat.WalletService.Outcome.{created_wallet, create_body-outcome, WalletCreated}

-- A movement whose balance is the old one and the entry's amount together.
Posted-IsConsistent :
    (server : Server) {tx : TransactionRecord} {w : WalletRecord} {e : LedgerEntryRecord}
    {a : AuditLog} {r : Option TransactionRecord} {db db' : Db}
    → e.balance_after ≡ w.balance_minor +ℤ e.amount_minor
    → Posted server.now tx w e a r db db'
    → IsConsistent db
    → IsConsistent db'
Posted-IsConsistent server {tx} {w} {e} {a} {r} {db} {db'} sum p c =
    subst IsConsistent (sym p.after) (
      add_audit-IsConsistent a _ (
        post_entry-IsConsistent server.now e.balance_after e w (add_transaction tx db)
          (add_transaction-IsConsistent tx db c p.inserted) p.found sum p.entry))

Replayed-IsConsistent :
    {key : String} {r : Option TransactionRecord} {db db' : Db}
    → Replayed key r db db'
    → IsConsistent db
    → IsConsistent db'
Replayed-IsConsistent p c = subst IsConsistent (sym p.after) c

sub-eq-add : (a b : ℤ) → a -ℤ b ≡ a +ℤ (pos 0 -ℤ b)
sub-eq-add a b = omega int_laws

module _ (server : Server) (wallet_id user_id : Uuid) (amount_minor : ℤ) (key : String) where
  deposit_body-IsConsistent :
      (db : Db)
      → IsConsistent db
      → Post (λ _. IsConsistent) (deposit_body server wallet_id user_id amount_minor key db)
  deposit_body-IsConsistent db c =
      Post-weaken (Deposited server wallet_id user_id amount_minor key db) (λ _. IsConsistent) _
        (deposit_body-outcome server wallet_id user_id amount_minor key db)
        λ r db' o. elim o [
          | inl replay ↦ Replayed-IsConsistent replay c
          | inr (w, mine, p) ↦ Posted-IsConsistent server refl p c
        ]

  withdraw_body-IsConsistent :
      (db : Db)
      → IsConsistent db
      → Post (λ _. IsConsistent) (withdraw_body server wallet_id user_id amount_minor key db)
  withdraw_body-IsConsistent db c =
      Post-weaken (Withdrawn server wallet_id user_id amount_minor key db) (λ _. IsConsistent) _
        (withdraw_body-outcome server wallet_id user_id amount_minor key db)
        λ r db' o. elim o [
          | inl replay ↦ Replayed-IsConsistent replay c
          | inr (w, mine, enough, p) ↦
              Posted-IsConsistent server (sub-eq-add w.balance_minor amount_minor) p c
        ]

-- The sender's entry leaves the receiver's row as it was read, so both postings are from the
-- balances that were locked.
TransferPosted-IsConsistent :
    (server : Server) (from_wallet_id to_wallet_id user_id : Uuid) (amount_minor : ℤ) (key : String)
    {s t : WalletRecord} {r : Option TransactionRecord} {db db' : Db}
    → from_wallet_id ≢ to_wallet_id
    → TransferPosted server from_wallet_id to_wallet_id user_id amount_minor key s t r db db'
    → IsConsistent db
    → IsConsistent db'
TransferPosted-IsConsistent server from_wallet_id to_wallet_id user_id amount_minor key {s} {t} {r}
      {db} {db'} apart p c =
    subst IsConsistent (sym p.after) (
      add_audit-IsConsistent _ _ (
        post_entry-IsConsistent server.now (t.balance_minor +ℤ amount_minor)
          (credit_entry server from_wallet_id to_wallet_id user_id amount_minor key t) t after_debit
          (post_entry-IsConsistent server.now (s.balance_minor -ℤ amount_minor)
            (debit_entry server from_wallet_id to_wallet_id user_id amount_minor key s) s
            (add_transaction
              (transfer_tx server from_wallet_id to_wallet_id user_id amount_minor key s) db)
            (add_transaction-IsConsistent _ db c p.inserted) p.sender_found
            (sub-eq-add s.balance_minor amount_minor) p.debit)
          (find_row-set_balance_ne server.now from_wallet_id to_wallet_id
            (s.balance_minor -ℤ amount_minor) db t apart p.receiver_found)
          refl p.credit))
  where
    after_debit : Db
    after_debit = debited server from_wallet_id to_wallet_id user_id amount_minor key s db

module _ (server : Server) (from_wallet_id to_wallet_id user_id : Uuid) (amount_minor : ℤ)
    (key : String) where
  transfer_body-IsConsistent :
      (db : Db)
      → from_wallet_id ≢ to_wallet_id
      → IsConsistent db
      → Post
          (λ _. IsConsistent)
          (transfer_body server from_wallet_id to_wallet_id user_id amount_minor key db)
  transfer_body-IsConsistent db apart c =
      Post-weaken (Transferred server from_wallet_id to_wallet_id user_id amount_minor key db)
        (λ _. IsConsistent) _
        (transfer_body-outcome server from_wallet_id to_wallet_id user_id amount_minor key db
          c.unique_ids)
        λ r db' o. elim o [
          | inl replay ↦ Replayed-IsConsistent replay c
          | inr (s, t, p) ↦
              TransferPosted-IsConsistent server from_wallet_id to_wallet_id user_id amount_minor
                key apart p c
        ]

create_body-IsConsistent :
    (server : Server) (user_id : Uuid) (currency : String) (db : Db)
    → IsConsistent db
    → Post (λ _. IsConsistent) (create_body server user_id currency db)
create_body-IsConsistent server user_id currency db c =
    Post-weaken (WalletCreated server user_id currency db) (λ _. IsConsistent) _
      (create_body-outcome server user_id currency db)
      λ r db' p. subst IsConsistent (sym p.after) (
        add_audit-IsConsistent _ _
          (add_wallet-IsConsistent (created_wallet server user_id currency) db c p.new_id refl))

-- A commit of one of the four services. The tests that come before the transaction only read, and
-- other calls may commit between them and it, so a step makes none of them; of `transfer` only the
-- test of its own arguments is kept. A transaction runs as one step: it holds its wallets' row locks.
pub data Step : Db → Db → Type 0 where
  creates_wallet :
      (server : Server) (user_id : Uuid) (currency : String) (db : Db)
      → Step db (transaction (create_body server user_id currency) db).1
  deposits :
      (server : Server) (wallet_id user_id : Uuid) (amount_minor : ℤ) (key : String) (db : Db)
      → Step db (transaction (deposit_body server wallet_id user_id amount_minor key) db).1
  withdraws :
      (server : Server) (wallet_id user_id : Uuid) (amount_minor : ℤ) (key : String) (db : Db)
      → Step db (transaction (withdraw_body server wallet_id user_id amount_minor key) db).1
  transfers :
      (server : Server) (from_wallet_id to_wallet_id user_id : Uuid) (amount_minor : ℤ)
      (key : String) (db : Db)
      → from_wallet_id ≢ to_wallet_id
      → Step db
          (transaction
            (transfer_body server from_wallet_id to_wallet_id user_id amount_minor key)
            db).1

pub data Reach (start : Db) : Db → Type 0 where
  here : Reach start start
  next : {db db' : Db} → Reach start db → Step db db' → Reach start db'

pub Step-IsConsistent : {db db' : Db} → Step db db' → IsConsistent db → IsConsistent db'
Step-IsConsistent (creates_wallet server user_id currency db) c =
    transaction_keeps IsConsistent (create_body server user_id currency) db c
      (create_body-IsConsistent server user_id currency db c)
Step-IsConsistent (deposits server wallet_id user_id amount_minor key db) c =
    transaction_keeps IsConsistent (deposit_body server wallet_id user_id amount_minor key) db c
      (deposit_body-IsConsistent server wallet_id user_id amount_minor key db c)
Step-IsConsistent (withdraws server wallet_id user_id amount_minor key db) c =
    transaction_keeps IsConsistent (withdraw_body server wallet_id user_id amount_minor key) db c
      (withdraw_body-IsConsistent server wallet_id user_id amount_minor key db c)
Step-IsConsistent (transfers server from_wallet_id to_wallet_id user_id amount_minor key db apart)
      c =
    transaction_keeps IsConsistent
      (transfer_body server from_wallet_id to_wallet_id user_id amount_minor key) db c
      (transfer_body-IsConsistent server from_wallet_id to_wallet_id user_id amount_minor key db
        apart c)

-- Whatever transactions of the four services commit, and in whatever order, starting from
-- consistent tables: every wallet's cached balance is the sum of its ledger entries and is not
-- negative, wallet ids and idempotency keys stay unique, and every entry belongs to a wallet and a
-- transaction.
pub Reach-IsConsistent : {start db : Db} → Reach start db → IsConsistent start → IsConsistent db
Reach-IsConsistent here c = c
Reach-IsConsistent (next r s) c = Step-IsConsistent s (Reach-IsConsistent r c)
