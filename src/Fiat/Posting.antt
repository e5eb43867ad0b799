-- ===== src/Fiat/Posting.antt =====
-- What the writes of the fiat repositories do when they return: the tables after them, and the
-- constraints that held.
use super_wallet.Base.{
  Bool-cases, inl, inr, Option, none, some, ap, Bool, ◌∙◌, sym, subst, String, ◌≡◌, refl, true,
  false, [], ◌∷◌, ◌++◌, arith,
}
use super_wallet.Base.Int.{ℤ, pos, ltb_ℤ}
use super_wallet.Base.Table.{has_row, update_rows, has_row-update_rows, find_row-none_of_has}
use super_wallet.Db.{
  Server, Json, ◌>>=◌, Action, ◌>>◌, Db, Uuid, Timestamp, TransactionRecord, LedgerEntryRecord,
}
use super_wallet.Audit.{log_audit_event, log_audit_event-Post, audit_row, add_audit}
use super_wallet.Db.Post.{Post-bind, Post}
use super_wallet.Fiat.Columns.{fits_bigint}
use super_wallet.Fiat.WalletRepository
use super_wallet.Fiat.WalletRepository.{with_balance}
use super_wallet.Fiat.LedgerEntryRepository
use super_wallet.Fiat.LedgerEntryRepository.{new_entry}
use super_wallet.Fiat.TransactionRepository
use super_wallet.Fiat.TransactionRepository.{new_transaction}

abbrev pub set_balance : Timestamp → Uuid → ℤ → Db → Db
set_balance now wallet_id b db = record db {
  wallets = update_rows (WalletRepository.has_id wallet_id) (with_balance now b) db.wallets;
}

abbrev pub add_transaction : TransactionRecord → Db → Db
add_transaction t db = record db { transactions = db.transactions ++ t ∷ [] }

abbrev pub add_entry : LedgerEntryRecord → Db → Db
add_entry e db = record db { ledger_entries = db.ledger_entries ++ e ∷ [] }

-- One movement in one wallet, at the point where it is written: the balance, set to `b`, and the
-- entry `e` that records it.
pub record EntryPosted (b : ℤ) (e : LedgerEntryRecord) (db : Db) : Type 0 where
  pub fits : fits_bigint b ≡ true
  pub covered : ltb_ℤ b (pos 0) ≡ false
  pub there : has_row (WalletRepository.has_id e.wallet_id) db.wallets ≡ true
  pub amount_fits : fits_bigint e.amount_minor ≡ true
  pub new : has_row (LedgerEntryRepository.has_id e.id) db.ledger_entries ≡ false
  pub of_transaction :
      has_row (TransactionRepository.has_id e.transaction_id) db.transactions ≡ true

abbrev pub post_entry : Timestamp → ℤ → LedgerEntryRecord → Db → Db
post_entry now b e db = add_entry e (set_balance now e.wallet_id b db)

abbrev SetsBalance : Timestamp → Uuid → ℤ → Db → Db → Type 0
SetsBalance now wallet_id b db db' =
    (db' ≡ set_balance now wallet_id b db)
    × (fits_bigint b ≡ true)
    × (ltb_ℤ b (pos 0) ≡ false)
    × (has_row (WalletRepository.has_id wallet_id) db.wallets ≡ true)

update_balance-Post :
    (now : Timestamp) (wallet_id : Uuid) (b : ℤ) (db : Db)
    → Post
        (λ _ db'. SetsBalance now wallet_id b db db')
        (WalletRepository.update_balance now wallet_id b db)
unfolding WalletRepository.update_balance
update_balance-Post now wallet_id b db = ground (
  arith,
  has_row-update_rows (WalletRepository.has_id wallet_id) (WalletRepository.has_id wallet_id)
      (with_balance now b) db.wallets (λ x. refl),
  find_row-none_of_has (WalletRepository.has_id wallet_id)
      (update_rows (WalletRepository.has_id wallet_id) (with_balance now b) db.wallets),
)

abbrev AddsEntry : LedgerEntryRecord → Db → Db → Type 0
AddsEntry e db db' =
    (db' ≡ add_entry e db)
    × (fits_bigint e.amount_minor ≡ true)
    × (has_row (LedgerEntryRepository.has_id e.id) db.ledger_entries ≡ false)
    × (has_row (TransactionRepository.has_id e.transaction_id) db.transactions ≡ true)

create_entry-Post :
    (now : Timestamp) (id tx_id wallet_id : Uuid) (amount : ℤ) (direction : String) (b : ℤ)
    (db : Db)
    → Post
        (λ _ db'. AddsEntry (new_entry now id tx_id wallet_id amount direction b) db db')
        (LedgerEntryRepository.create now id tx_id wallet_id amount direction b db)
unfolding LedgerEntryRepository.create
create_entry-Post now id tx_id wallet_id amount direction b db = ground arith

module _ {B : Type 0} (R : B → Db → Type 0) (k : Action B) where
  pub Post-entry :
      (now : Timestamp) (wallet_id : Uuid) (b : ℤ) (id tx_id : Uuid) (amount : ℤ)
      (direction : String) (db : Db)
      → let e = new_entry now id tx_id wallet_id amount direction b in
        (EntryPosted b e db → Post R (k (post_entry now b e db)))
        → Post R (
            (WalletRepository.update_balance now wallet_id b
                >> (LedgerEntryRepository.create now id tx_id wallet_id amount direction b >> k))
              db)
  Post-entry now wallet_id b id tx_id amount direction db rest =
      let e = new_entry now id tx_id wallet_id amount direction b in
      Post-bind (λ _ db'. SetsBalance now wallet_id b db db') R
        (WalletRepository.update_balance now wallet_id b)
        (λ _. LedgerEntryRepository.create now id tx_id wallet_id amount direction b >> k) db
        (update_balance-Post now wallet_id b db)
        λ _ db₁ (at₁, fits, covered, there).
          Post-bind (λ _ db'. AddsEntry e db₁ db') R
            (LedgerEntryRepository.create now id tx_id wallet_id amount direction b) (λ _. k) db₁
            (create_entry-Post now id tx_id wallet_id amount direction b db₁)
            λ _ db₂ (at₂, amount_fits, new, of_tx).
              let posted : EntryPosted b e db = record {
                fits = fits;
                covered = covered;
                there = there;
                amount_fits = amount_fits;
                new =
                    subst
                      (λ (d : Db).
                        has_row (LedgerEntryRepository.has_id id) d.ledger_entries ≡ false)
                      at₁ new;
                of_transaction =
                    subst
                      (λ (d : Db).
                        has_row (TransactionRepository.has_id tx_id) d.transactions ≡ true)
                      at₁ of_tx;
              } in
              subst (λ d. Post R (k d)) (sym (at₂ ∙ ap (add_entry e) at₁)) (rest posted)

abbrev pub has_key : String → Db → Bool
has_key key db = has_row (TransactionRepository.has_key key) db.transactions

-- What held for the row `t` when it was inserted.
pub record Inserted (t : TransactionRecord) (db : Db) : Type 0 where
  pub fits : fits_bigint t.amount_minor ≡ true
  pub texts_fit : TransactionRepository.texts_fit t.idempotency_key t.type t.currency ≡ true
  pub new_key : has_key t.idempotency_key db ≡ false
  pub new_id : has_row (TransactionRepository.has_id t.id) db.transactions ≡ false

-- The row of a new key is inserted; for a key that is there, nothing is.
module _ {B : Type 0} (R : B → Db → Type 0) (k : Option TransactionRecord → Action B) where
  pub Post-create :
      (now : Timestamp) (id : Uuid) (key tx_type : String) (amount : ℤ) (currency : String)
      (m : Option Json) (db : Db)
      → let t = new_transaction now id key tx_type amount currency m in
        (has_key key db ≡ true → Post R (k none db))
        → (Inserted t db → Post R (k (some t) (add_transaction t db)))
        → Post R ((TransactionRepository.create now id key tx_type amount currency m >>= k) db)
  unfolding TransactionRepository.create
  Post-create now id key tx_type amount currency m db conflict insert =
      elim (Bool-cases (fits_bigint amount)) [
        | inr out ↦ rw (out) tt
        | inl fits ↦ elim (Bool-cases (TransactionRepository.texts_fit key tx_type currency)) [
          | inr long ↦ rw (fits, long) tt
          | inl short ↦ elim (Bool-cases (has_key key db)) [
            | inl old ↦ rw (fits, short, old) (conflict old)
            | inr new ↦
                elim (Bool-cases (has_row (TransactionRepository.has_id id) db.transactions)) [
                  | inl taken ↦ rw (fits, short, new, taken) tt
                  | inr fresh ↦
                      rw (fits, short, new, fresh)
                        (insert
                          record { fits = fits; texts_fit = short; new_key = new; new_id = fresh })
                ]
          ]
        ]
      ]

module _ {B : Type 0} (R : B → Db → Type 0) (k : Action B) where
  pub Post-audit :
      (server : Server) (user_id : Option Uuid) (event_type : String) (ip ua : Option String)
      (m : Option Json) (db : Db)
      → Post R (k (add_audit (audit_row server.now user_id event_type ip ua m) db))
      → Post R ((log_audit_event server user_id event_type ip ua m >> k) db)
  Post-audit server user_id event_type ip ua m db h =
      let row = audit_row server.now user_id event_type ip ua m in
      Post-bind (λ _ db'. db' ≡ add_audit row db) R
        (log_audit_event server user_id event_type ip ua m) (λ _. k) db
        (log_audit_event-Post server user_id event_type ip ua m db)
        λ _ db' e. subst (λ d. Post R (k d)) (sym e) h
