-- ===== src/Fiat/DepositService/Effect.antt =====
-- What a deposit does to the tables, and when it goes through.
use super_wallet.Base.{
  refl, ◌∙◌, ◌≡◌, ◌==◌, ==_iff, String, true, false, Option, none, some, inl, inr,
}
use super_wallet.Base.Int.{ℤ, ◌+ℤ◌}
use super_wallet.Base.Table.{find_row-none_of_has, has_row}
use super_wallet.Db.{Db, Server, Uuid, WalletRecord, TransactionRecord, ok}
use super_wallet.Db.Post.{Post-result}
use super_wallet.Fiat.Posting.{EntryPosted, Inserted, has_key, add_transaction}
use super_wallet.Fiat.Outcome.{posted}
use super_wallet.Fiat.Effect.{Moved, Posted-Moved, not-Replayed, wallet_row}
use super_wallet.Fiat.Completion.{create_inserts, entry_posts, audit_logs}
use super_wallet.Fiat.WalletRepository
use super_wallet.Fiat.TransactionRepository
use super_wallet.Fiat.DepositService.{deposit, deposit_body}
use super_wallet.Fiat.DepositService.Outcome.{
  deposit_tx, deposit_entry, deposit_audit, Deposited, deposit-outcome,
}

module _ (server : Server) (wallet_id user_id : Uuid) (amount_minor : ℤ) (key : String) where
  -- A deposit under a new key that returns has moved the caller's wallet up by its amount: the
  -- balance grows by exactly that and is not negative, no other wallet changes, and one transaction
  -- and one credit entry, with the new balance, are appended.
  pub deposit_effect :
      (db db' : Db) (r : Option TransactionRecord)
      → has_key key db ≡ false
      → deposit server wallet_id user_id amount_minor key db ≡ (ok r, db')
      → (w : WalletRecord) × (w.user_id ≡ user_id)
        × (r ≡ some (deposit_tx server wallet_id user_id amount_minor key w))
        × Moved server.now
            (deposit_tx server wallet_id user_id amount_minor key w)
            w
            (deposit_entry server wallet_id user_id amount_minor key w)
            db
            db'
  deposit_effect db db' r new h =
      elim (Post-result (Deposited server wallet_id user_id amount_minor key db) _ h
        (deposit-outcome server wallet_id user_id amount_minor key db)) [
          | inl replay ↦ absurd (not-Replayed new replay)
          | inr (w, mine, p) ↦ (w, mine, p.result, Posted-Moved p)
        ]

  -- What a deposit into `w` needs.
  pub record DepositAllowed (w : WalletRecord) (db : Db) : Type 0 where
    pub found : wallet_row wallet_id db ≡ some w
    pub mine : w.user_id ≡ user_id
    pub inserted : Inserted (deposit_tx server wallet_id user_id amount_minor key w) db
    pub entry :
        EntryPosted
          (w.balance_minor +ℤ amount_minor)
          (deposit_entry server wallet_id user_id amount_minor key w)
          (add_transaction (deposit_tx server wallet_id user_id amount_minor key w) db)
    pub user : has_row (λ u. u.id == user_id) db.users ≡ true

  -- The tables after a deposit into `w`.
  abbrev pub after_deposit : WalletRecord → Db → Db
  after_deposit w =
      posted server.now (deposit_tx server wallet_id user_id amount_minor key w)
        (deposit_entry server wallet_id user_id amount_minor key w)
        (deposit_audit server wallet_id user_id amount_minor key w)

  deposit_body_posts :
      (w : WalletRecord) (db : Db)
      → DepositAllowed w db
      → deposit_body server wallet_id user_id amount_minor key db
        ≡ (ok (some (deposit_tx server wallet_id user_id amount_minor key w)), after_deposit w db)
  unfolding deposit_body WalletRepository.get_and_lock
  deposit_body_posts w db a =
      let owner : (w.user_id == user_id) ≡ true = (==_iff w.user_id user_id).1 a.mine in
      rw (a.found, owner)
        (create_inserts _ server.now (server.gen_random_uuid 0) key "deposit" amount_minor
            w.currency none db a.inserted
          ∙ entry_posts _ server.now wallet_id (w.balance_minor +ℤ amount_minor)
              (server.gen_random_uuid 1) (server.gen_random_uuid 0) amount_minor "credit" _ a.entry
          ∙ audit_logs _ server user_id "wallet_deposit" none none _ _ refl a.user)

  -- A deposit goes through whenever the wallet is the caller's, the key is new, it and the
  -- currency fit their columns, the amount and the new balance are BIGINTs, the new balance is
  -- not negative, the drawn ids are new and the user's row is there: it returns the new
  -- transaction, and the tables are the posted ones.
  pub deposit_posts :
      (w : WalletRecord) (db : Db)
      → DepositAllowed w db
      → deposit server wallet_id user_id amount_minor key db
        ≡ (ok (some (deposit_tx server wallet_id user_id amount_minor key w)), after_deposit w db)
  unfolding deposit TransactionRepository.get_by_idempotency_key
  deposit_posts w db a = rw (
    find_row-none_of_has (TransactionRepository.has_key key) db.transactions a.inserted.new_key,
    deposit_body_posts w db a,
  )
