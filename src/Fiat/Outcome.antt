-- ===== src/Fiat/Outcome.antt =====
-- How a call that moves money in one wallet ends when it returns: it posted the movement, or it met
-- the transaction that its idempotency key already names.
use super_wallet.Base.{
  refl, sym, arith, Bool-cases, inr, inl, Option-cases, ◌≡◌, true, ◌==◌, Option, some, String,
}
use super_wallet.Base.Table.{find_row, has_row-find_row}
use super_wallet.Db.{
  Db, Timestamp, Uuid, WalletRecord, TransactionRecord, LedgerEntryRecord, AuditLog, Action, ◌>>=◌,
}
use super_wallet.Db.Post.{Post}
use super_wallet.Audit.{add_audit}
use super_wallet.Fiat.Service.{unless_existing, owned_by}
use super_wallet.Fiat.Posting.{EntryPosted, Inserted, has_key, post_entry, add_transaction}
use super_wallet.Fiat.WalletRepository
use super_wallet.Fiat.TransactionRepository

abbrev pub posted : Timestamp → TransactionRecord → LedgerEntryRecord → AuditLog → Db → Db
posted now tx e audit db =
    add_audit audit (post_entry now e.balance_after e (add_transaction tx db))

pub record Posted (now : Timestamp) (tx : TransactionRecord) (w : WalletRecord)
    (e : LedgerEntryRecord) (audit : AuditLog) (r : Option TransactionRecord) (db db' : Db)
    : Type 0 where
  pub found : find_row (WalletRepository.has_id e.wallet_id) db.wallets ≡ some w
  pub inserted : Inserted tx db
  pub entry : EntryPosted e.balance_after e (add_transaction tx db)
  pub result : r ≡ some tx
  pub after : db' ≡ posted now tx e audit db

pub record Replayed (key : String) (r : Option TransactionRecord) (db db' : Db) : Type 0 where
  pub known : has_key key db ≡ true
  pub result : r ≡ find_row (TransactionRepository.has_key key) db.transactions
  pub after : db' ≡ db

-- The wallet that is read under the lock belongs to the caller.
pub Post-owned :
    {B : Type 0} (R : B → Db → Type 0) (wallet_id user_id : Uuid) (k : WalletRecord → Action B)
    (db : Db)
    → ((w : WalletRecord)
        → find_row (WalletRepository.has_id wallet_id) db.wallets ≡ some w
        → w.user_id ≡ user_id
        → Post R (k w db))
    → Post R
        ((WalletRepository.get_and_lock wallet_id >>= λ locked. owned_by user_id locked >>= k) db)
unfolding WalletRepository.get_and_lock
Post-owned R wallet_id user_id k db h =
    elim (Option-cases (find_row (WalletRepository.has_id wallet_id) db.wallets)) [
      | inl missing ↦ rw (missing) tt
      | inr (w, found) ↦ elim (Bool-cases (w.user_id == user_id)) [
        | inl mine ↦ rw (found, mine) (h w found (ground arith))
        | inr other ↦ rw (found, other) tt
      ]
    ]

-- A known key ends the call before its transaction, with the row that has the key.
pub Post-unless_existing :
    (R : Option TransactionRecord → Db → Type 0) (key : String)
    (body : Action (Option TransactionRecord)) (db : Db)
    → ((r : Option TransactionRecord) → Replayed key r db db → R r db)
    → Post R (body db)
    → Post R (
        (TransactionRepository.get_by_idempotency_key key >>= λ existing.
        unless_existing existing body)
          db)
unfolding TransactionRepository.get_by_idempotency_key
Post-unless_existing R key body db replay h =
    elim (Option-cases (find_row (TransactionRepository.has_key key) db.transactions)) [
      | inl missing ↦ rw (missing) h
      | inr (t, e) ↦ rw (e) (
          replay (some t) (record {
            known = has_row-find_row _ db.transactions t e;
            result = sym e;
            after = refl;
          }))
    ]
