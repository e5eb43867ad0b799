-- ===== src/Fiat/Completion.antt =====
-- The writes go through when their constraints hold: the converse of Fiat.Posting.
use super_wallet.Base.{◌∙◌, ◌≡◌, refl, ◌==◌, String, true, false, Option, some}
use super_wallet.Base.Int.{ℤ}
use super_wallet.Base.Table.{find_row_of_has, has_row, update_rows, has_row-update_rows}
use super_wallet.Db.{Server, Db, Uuid, Timestamp, Json, Action, TransactionRecord, ◌>>=◌, ◌>>◌}
use super_wallet.Audit.{log_audit_event, refused_inet, audit_row, add_audit}
use super_wallet.Fiat.Posting.{EntryPosted, Inserted, add_transaction, post_entry}
use super_wallet.Fiat.WalletRepository
use super_wallet.Fiat.WalletRepository.{with_balance}
use super_wallet.Fiat.TransactionRepository
use super_wallet.Fiat.TransactionRepository.{new_transaction}
use super_wallet.Fiat.LedgerEntryRepository
use super_wallet.Fiat.LedgerEntryRepository.{new_entry}

module _ {B : Type 0} where
  pub create_inserts :
      (k : Option TransactionRecord → Action B) (now : Timestamp) (id : Uuid) (key tx_type : String)
      (amount : ℤ) (currency : String) (m : Option Json) (db : Db)
      → let t = new_transaction now id key tx_type amount currency m in
        Inserted t db
        → (TransactionRepository.create now id key tx_type amount currency m >>= k) db
          ≡ k (some t) (add_transaction t db)
  unfolding TransactionRepository.create
  create_inserts k now id key tx_type amount currency m db i =
      rw (i.fits, i.texts_fit, i.new_key, i.new_id)

  pub entry_posts :
      (k : Action B) (now : Timestamp) (wallet_id : Uuid) (b : ℤ) (id tx_id : Uuid) (amount : ℤ)
      (direction : String) (db : Db)
      → let e = new_entry now id tx_id wallet_id amount direction b in
        EntryPosted b e db
        → (WalletRepository.update_balance now wallet_id b
              >> (LedgerEntryRepository.create now id tx_id wallet_id amount direction b >> k))
            db
          ≡ k (post_entry now b e db)
  unfolding WalletRepository.update_balance LedgerEntryRepository.create
  entry_posts k now wallet_id b id tx_id amount direction db p =
      let kept =
        has_row-update_rows (WalletRepository.has_id wallet_id) (WalletRepository.has_id wallet_id)
          (with_balance now b) db.wallets (λ x. refl)
        ∙ p.there in
      let (w, found) =
        find_row_of_has (WalletRepository.has_id wallet_id)
          (update_rows (WalletRepository.has_id wallet_id) (with_balance now b) db.wallets) kept in
      rw (p.fits, p.there, p.covered, found, p.amount_fits, p.new, p.of_transaction, kept)

  pub audit_logs :
      (k : Action B) (server : Server) (user_id : Uuid) (event_type : String)
      (ip ua : Option String) (m : Option Json) (db : Db)
      → refused_inet server ip ≡ false
      → has_row (λ u. u.id == user_id) db.users ≡ true
      → (log_audit_event server (some user_id) event_type ip ua m >> k) db
        ≡ k (add_audit (audit_row server.now (some user_id) event_type ip ua m) db)
  unfolding log_audit_event
  audit_logs k server user_id event_type ip ua m db readable user = rw (readable, user)
