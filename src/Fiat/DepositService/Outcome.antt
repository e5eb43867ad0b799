-- ===== src/Fiat/DepositService/Outcome.antt =====
-- What `deposit` has done when it returns.
use super_wallet.Base.{◌≡◌, ◌⊎◌, inl, inr, String, Option, none, some, refl}
use super_wallet.Base.Int.{ℤ, ◌+ℤ◌}
use super_wallet.Db.{
  transaction, Db, Server, Uuid, WalletRecord, TransactionRecord, LedgerEntryRecord, AuditLog,
}
use super_wallet.Db.Post.{Post, Post-transaction}
use super_wallet.Audit.{audit_row}
use super_wallet.Fiat.Service.{metadata_of}
use super_wallet.Fiat.Posting.{Post-create, Post-entry, Post-audit}
use super_wallet.Fiat.Outcome.{Posted, Replayed, Post-owned, Post-unless_existing}
use super_wallet.Fiat.TransactionRepository.{new_transaction}
use super_wallet.Fiat.LedgerEntryRepository.{new_entry}
use super_wallet.Fiat.TransactionRepository
use super_wallet.Fiat.DepositService.{deposit_body, deposit}

module _ (server : Server) (wallet_id user_id : Uuid) (amount_minor : ℤ) (key : String) where
  abbrev pub deposit_tx : WalletRecord → TransactionRecord
  deposit_tx w =
      new_transaction server.now (server.gen_random_uuid 0) key "deposit" amount_minor w.currency
        none

  abbrev pub deposit_entry : WalletRecord → LedgerEntryRecord
  deposit_entry w =
      new_entry server.now (server.gen_random_uuid 1) (server.gen_random_uuid 0) wallet_id
        amount_minor "credit" (w.balance_minor +ℤ amount_minor)

  abbrev pub deposit_audit : WalletRecord → AuditLog
  deposit_audit w =
      audit_row server.now (some user_id) "wallet_deposit" none none
        (some (metadata_of wallet_id amount_minor w.currency key))

  abbrev pub Deposited : Db → Option TransactionRecord → Db → Type 0
  Deposited db r db' =
      Replayed key r db db'
      ⊎ ((w : WalletRecord) × (w.user_id ≡ user_id)
          × Posted server.now (deposit_tx w) w (deposit_entry w) (deposit_audit w) r db db')

  pub deposit_body-outcome :
      (db : Db) → Post (Deposited db) (deposit_body server wallet_id user_id amount_minor key db)
  unfolding deposit_body TransactionRepository.get_by_idempotency_key
  deposit_body-outcome db = Post-owned (Deposited db) wallet_id user_id _ db λ w found mine.
      Post-create (Deposited db) _ server.now (server.gen_random_uuid 0) key "deposit" amount_minor
        w.currency none db (λ known. inl (record { known = known; result = refl; after = refl }))
        (λ inserted.
          Post-entry (Deposited db) _ server.now wallet_id (w.balance_minor +ℤ amount_minor)
            (server.gen_random_uuid 1) (server.gen_random_uuid 0) amount_minor "credit" _
            λ entry.
              Post-audit (Deposited db) _ server (some user_id) "wallet_deposit" none none _ _ (
                inr (
                  w,
                  mine,
                  record {
                    found = found;
                    inserted = inserted;
                    entry = entry;
                    result = refl;
                    after = refl;
                  },
                )))

  -- The early test of the key ends as the block does for a known key.
  pub deposit-outcome :
      (db : Db) → Post (Deposited db) (deposit server wallet_id user_id amount_minor key db)
  unfolding deposit TransactionRepository.get_by_idempotency_key
  deposit-outcome db =
      Post-unless_existing (Deposited db) key
        (transaction (deposit_body server wallet_id user_id amount_minor key)) db (λ r. inl)
        (Post-transaction (Deposited db) (deposit_body server wallet_id user_id amount_minor key) db
          (deposit_body-outcome db))
