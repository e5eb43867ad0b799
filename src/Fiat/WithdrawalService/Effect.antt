-- ===== src/Fiat/WithdrawalService/Effect.antt =====
-- What a withdrawal does to the tables, and when it goes through.
use super_wallet.Base.{
  ne_false, refl, ◌≢◌, none, false, arith, ◌∙◌, ◌≡◌, ◌==◌, ==_iff, String, true, Option, some, inl,
  inr,
}
use super_wallet.Base.Int.{ltb_ℤ, ◌≤ℤ◌, pos, ℤ, ◌-ℤ◌}
use super_wallet.Base.Table.{find_row-none_of_has, has_row}
use super_wallet.Errors.{fiat, wallet_not_found, insufficient_funds}
use super_wallet.Db.{err, Db, Server, Uuid, WalletRecord, TransactionRecord, ok}
use super_wallet.Db.Post.{Post-result}
use super_wallet.Fiat.Posting.{has_key, EntryPosted, Inserted, add_transaction}
use super_wallet.Fiat.Outcome.{posted}
use super_wallet.Fiat.Effect.{Moved, Posted-Moved, not-Replayed, wallet_row}
use super_wallet.Fiat.Completion.{create_inserts, entry_posts, audit_logs}
use super_wallet.Fiat.WalletRepository
use super_wallet.Fiat.TransactionRepository
use super_wallet.Fiat.WithdrawalService.{withdraw, withdraw_body}
use super_wallet.Fiat.WithdrawalService.Outcome.{
  withdraw_tx, withdraw_entry, withdraw_audit, Withdrawn, withdraw-outcome,
}

pub covered_of_test : (a b : ℤ) → ltb_ℤ a b ≡ false → b ≤ℤ a
covered_of_test a b h = ground arith

test_of_short : (a b : ℤ) → ¬ (b ≤ℤ a) → ltb_ℤ a b ≡ true
test_of_short a b h = ground arith

module _ (server : Server) (wallet_id user_id : Uuid) (amount_minor : ℤ) (key : String) where
  -- A withdrawal under a new key that returns was covered, and has moved the caller's wallet down by
  -- its amount: the balance falls by exactly that and is not negative, no other wallet changes, and
  -- one transaction and one debit entry, with the new balance, are appended.
  pub withdraw_effect :
      (db db' : Db) (r : Option TransactionRecord)
      → has_key key db ≡ false
      → withdraw server wallet_id user_id amount_minor key db ≡ (ok r, db')
      → (w : WalletRecord) × (w.user_id ≡ user_id)
        × (amount_minor ≤ℤ w.balance_minor)
        × (r ≡ some (withdraw_tx server wallet_id user_id amount_minor key w))
        × Moved server.now
            (withdraw_tx server wallet_id user_id amount_minor key w)
            w
            (withdraw_entry server wallet_id user_id amount_minor key w)
            db
            db'
  withdraw_effect db db' r new h =
      elim (Post-result (Withdrawn server wallet_id user_id amount_minor key db) _ h
        (withdraw-outcome server wallet_id user_id amount_minor key db)) [
          | inl replay ↦ absurd (not-Replayed new replay)
          | inr (w, mine, enough, p) ↦ (
            w,
            mine,
            covered_of_test w.balance_minor amount_minor enough,
            p.result,
            Posted-Moved p,
          )
        ]

  -- What a withdrawal from `w` needs.
  pub record WithdrawAllowed (w : WalletRecord) (db : Db) : Type 0 where
    pub found : wallet_row wallet_id db ≡ some w
    pub mine : w.user_id ≡ user_id
    pub enough : ltb_ℤ w.balance_minor amount_minor ≡ false
    pub inserted : Inserted (withdraw_tx server wallet_id user_id amount_minor key w) db
    pub entry :
        EntryPosted
          (w.balance_minor -ℤ amount_minor)
          (withdraw_entry server wallet_id user_id amount_minor key w)
          (add_transaction (withdraw_tx server wallet_id user_id amount_minor key w) db)
    pub user : has_row (λ u. u.id == user_id) db.users ≡ true

  -- The tables after a withdrawal from `w`.
  abbrev pub after_withdraw : WalletRecord → Db → Db
  after_withdraw w =
      posted server.now (withdraw_tx server wallet_id user_id amount_minor key w)
        (withdraw_entry server wallet_id user_id amount_minor key w)
        (withdraw_audit server wallet_id user_id amount_minor key w)

  withdraw_body_posts :
      (w : WalletRecord) (db : Db)
      → WithdrawAllowed w db
      → withdraw_body server wallet_id user_id amount_minor key db
        ≡ (ok (some (withdraw_tx server wallet_id user_id amount_minor key w)), after_withdraw w db)
  unfolding withdraw_body WalletRepository.get_and_lock
  withdraw_body_posts w db a =
      let owner : (w.user_id == user_id) ≡ true = (==_iff w.user_id user_id).1 a.mine in
      rw (a.found, owner, a.enough)
        (create_inserts _ server.now (server.gen_random_uuid 0) key "withdrawal" amount_minor
            w.currency none db a.inserted
          ∙ entry_posts _ server.now wallet_id (w.balance_minor -ℤ amount_minor)
              (server.gen_random_uuid 1) (server.gen_random_uuid 0) (pos 0 -ℤ amount_minor) "debit"
              _ a.entry
          ∙ audit_logs _ server user_id "wallet_withdrawal" none none _ _ refl a.user)

  -- A withdrawal goes through whenever the wallet is the caller's, the key is new, it and the
  -- currency fit their columns, the balance covers the amount, the amount and the new balance are
  -- BIGINTs, the new balance is not negative, the drawn ids are new and the user's row is there:
  -- it returns the new transaction, and the tables are the posted ones.
  pub withdraw_posts :
      (w : WalletRecord) (db : Db)
      → WithdrawAllowed w db
      → withdraw server wallet_id user_id amount_minor key db
        ≡ (ok (some (withdraw_tx server wallet_id user_id amount_minor key w)), after_withdraw w db)
  unfolding withdraw TransactionRepository.get_by_idempotency_key
  withdraw_posts w db a = rw (
    find_row-none_of_has (TransactionRepository.has_key key) db.transactions a.inserted.new_key,
    withdraw_body_posts w db a,
  )

module _ (server : Server) (wallet_id user_id : Uuid) (amount_minor : ℤ) (key : String) (db : Db)
    (new : has_key key db ≡ false) where
  -- The error paths: under a new key, a wallet that is not there or not the caller's is not found, and
  -- one that does not cover the amount is refused with the balance and the amount. Nothing changes.
  pub withdraw_refusals :
      ((wallet_row wallet_id db ≡ none)
        → withdraw server wallet_id user_id amount_minor key db ≡ (err (fiat wallet_not_found), db))
      × ((w : WalletRecord)
          → wallet_row wallet_id db ≡ some w
          → w.user_id ≢ user_id
          → withdraw server wallet_id user_id amount_minor key db
            ≡ (err (fiat wallet_not_found), db))
      × ((w : WalletRecord)
          → wallet_row wallet_id db ≡ some w
          → w.user_id ≡ user_id
          → ¬ (amount_minor ≤ℤ w.balance_minor)
          → withdraw server wallet_id user_id amount_minor key db
            ≡ (err (fiat (insufficient_funds w.balance_minor amount_minor)), db))
  unfolding withdraw withdraw_body WalletRepository.get_and_lock
      TransactionRepository.get_by_idempotency_key
  withdraw_refusals =
      let fresh = find_row-none_of_has (TransactionRepository.has_key key) db.transactions new in
      (
        λ missing. rw (fresh, missing) refl,
        (λ w found other. rw (fresh, found, ne_false w.user_id user_id other)),
        (λ w found mine short. rw (
          fresh,
          found,
          (==_iff w.user_id user_id).1 mine,
          test_of_short w.balance_minor amount_minor short,
        )),
      )
