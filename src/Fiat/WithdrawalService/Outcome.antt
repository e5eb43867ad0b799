-- ===== src/Fiat/WithdrawalService/Outcome.antt =====
-- What `withdraw` has done when it returns.
use super_wallet.Base.{false, ◌≡◌, ◌⊎◌, inl, inr, String, Option, none, some, refl}
use super_wallet.Base.Int.{pos, ltb_ℤ, ℤ, ◌-ℤ◌}
use super_wallet.Errors.{fiat, insufficient_funds}
use super_wallet.Db.{
  transaction, Db, Server, Uuid, WalletRecord, TransactionRecord, LedgerEntryRecord, AuditLog,
}
use super_wallet.Db.Post.{Post-raise_if, Post, Post-transaction}
use super_wallet.Audit.{audit_row}
use super_wallet.Fiat.Service.{metadata_of}
use super_wallet.Fiat.Posting.{Post-create, Post-entry, Post-audit}
use super_wallet.Fiat.Outcome.{Posted, Replayed, Post-owned, Post-unless_existing}
use super_wallet.Fiat.TransactionRepository.{new_transaction}
use super_wallet.Fiat.LedgerEntryRepository.{new_entry}
use super_wallet.Fiat.TransactionRepository
use super_wallet.Fiat.WithdrawalService.{withdraw_body, withdraw}

module _ (server : Server) (wallet_id user_id : Uuid) (amount_minor : ℤ) (key : String) where
  abbrev pub withdraw_tx : WalletRecord → TransactionRecord
  withdraw_tx w =
      new_transaction server.now (server.gen_random_uuid 0) key "withdrawal" amount_minor w.currency
        none

  abbrev pub withdraw_entry : WalletRecord → LedgerEntryRecord
  withdraw_entry w =
      new_entry server.now (server.gen_random_uuid 1) (server.gen_random_uuid 0) wallet_id
        (pos 0 -ℤ amount_minor) "debit" (w.balance_minor -ℤ amount_minor)

  abbrev pub withdraw_audit : WalletRecord → AuditLog
  withdraw_audit w =
      audit_row server.now (some user_id) "wallet_withdrawal" none none
        (some (metadata_of wallet_id amount_minor w.currency key))

  abbrev pub Withdrawn : Db → Option TransactionRecord → Db → Type 0
  Withdrawn db r db' =
      Replayed key r db db'
      ⊎ ((w : WalletRecord) × (w.user_id ≡ user_id)
          × (ltb_ℤ w.balance_minor amount_minor ≡ false)
          × Posted server.now (withdraw_tx w) w (withdraw_entry w) (withdraw_audit w) r db db')

  pub withdraw_body-outcome :
      (db : Db) → Post (Withdrawn db) (withdraw_body server wallet_id user_id amount_minor key db)
  unfolding withdraw_body TransactionRepository.get_by_idempotency_key
  withdraw_body-outcome db = Post-owned (Withdrawn db) wallet_id user_id _ db λ w found mine.
      Post-raise_if (Withdrawn db) (ltb_ℤ w.balance_minor amount_minor)
        (fiat (insufficient_funds w.balance_minor amount_minor)) _ db
        λ enough.
          Post-create (Withdrawn db) _ server.now (server.gen_random_uuid 0) key "withdrawal"
            amount_minor w.currency none db
            (λ known. inl (record { known = known; result = refl; after = refl }))
            (λ inserted.
              Post-entry (Withdrawn db) _ server.now wallet_id (w.balance_minor -ℤ amount_minor)
                (server.gen_random_uuid 1) (server.gen_random_uuid 0) (pos 0 -ℤ amount_minor)
                "debit" _
                λ entry.
                  Post-audit (Withdrawn db) _ server (some user_id) "wallet_withdrawal" none none _
                    _
                    (inr (
                      w,
                      mine,
                      enough,
                      record {
                        found = found;
                        inserted = inserted;
                        entry = entry;
                        result = refl;
                        after = refl;
                      },
                    )))

  -- The early test of the key ends as the block does for a known key.
  pub withdraw-outcome :
      (db : Db) → Post (Withdrawn db) (withdraw server wallet_id user_id amount_minor key db)
  unfolding withdraw TransactionRepository.get_by_idempotency_key
  withdraw-outcome db =
      Post-unless_existing (Withdrawn db) key
        (transaction (withdraw_body server wallet_id user_id amount_minor key)) db (λ r. inl)
        (Post-transaction (Withdrawn db) (withdraw_body server wallet_id user_id amount_minor key)
          db (withdraw_body-outcome db))
